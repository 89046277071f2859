-- ===== src/Pam/Options.antt =====
-- crates/tb-pam/src/decide.rs: `Config::from_args`, the options on the line of /etc/pam.d.
use time_bandits.Base.{
  parse_unsigned, ℕ, ◌*◌, ◌≤◌, ◌≡◌, refl, min, max, true, false, ◌&&◌, not, Option, none, some,
  List, [], ◌∷◌, Text, codes, ◌==◌, ◌=t◌, if◌then◌else◌, map_option, unwrap_or, arith,
}
use time_bandits.Duration.{DurationSpec}
use time_bandits.Policy.{is_empty}
use time_bandits.Pam.Module.{Config, Fallback, deny_managed, allow_all}

-- `str::split_once` at a character.
unfoldable pub split_once : ℕ → Text → Option (Text × Text)
split_once sep [] = none
split_once sep (c ∷ cs) =
    let later = split_once sep cs in
    if c == sep then some ([], cs) else map_option (λ p. (c ∷ p.0, p.1)) later

-- `Duration::from_millis`.
abbrev pub from_millis : ℕ → DurationSpec
from_millis ms = ms * 1000000

abbrev pub clamp : ℕ → ℕ → ℕ → ℕ
clamp low high n = max low (min n high)

abbrev pub default_config : Config
default_config = record {
  socket = codes "/run/timebandits/pam.sock";
  timeout = from_millis 300;
  fallback = deny_managed;
  managed_group = codes "kids";
  exempt_group = codes "parents";
  debug = false;
}

abbrev pub fallback_of : Text → Fallback
fallback_of value = if value =t codes "allow" then allow_all else deny_managed

-- The `match` on the key; an option that is not known or not usable changes nothing.
unfoldable pub apply_option : Config → Text → Text → Config
apply_option cfg key value =
    if (key =t codes "socket") && not (is_empty value)
    then record cfg { socket = value }
    else if key =t codes "timeout_ms"
    then record cfg {
      timeout =
          unwrap_or (map_option (λ ms. from_millis (clamp 50 5000 ms)) (parse_unsigned value))
            cfg.timeout;
    }
    else if key =t codes "fallback"
    then record cfg { fallback = fallback_of value }
    else if (key =t codes "managed_group") && not (is_empty value)
    then record cfg { managed_group = value }
    else if (key =t codes "exempt_group") && not (is_empty value)
    then record cfg { exempt_group = value }
    else if key =t codes "debug"
    then record cfg { debug = true }
    else cfg

unfoldable pub apply_arg : Config → Text → Config
unfolding apply_option split_once
apply_arg cfg arg =
    let (key, value) = unwrap_or (split_once b'=' arg) (arg, []) in apply_option cfg key value

unfoldable pub apply_args : Config → List Text → Config
apply_args cfg [] = cfg
apply_args cfg (arg ∷ rest) = apply_args (apply_arg cfg arg) rest

unfoldable pub from_args : List Text → Config
unfolding apply_args
from_args args = apply_args default_config args

-- The waiting time is bounded on both sides, and nothing that must be named is empty.
pub record IsUsable (cfg : Config) : Type 0 where
  pub at_least : from_millis 50 ≤ cfg.timeout
  pub at_most : cfg.timeout ≤ from_millis 5000
  pub has_socket : is_empty cfg.socket ≡ false
  pub has_managed_group : is_empty cfg.managed_group ≡ false
  pub has_exempt_group : is_empty cfg.exempt_group ≡ false

apply_option-IsUsable :
    (cfg : Config) (key value : Text) → IsUsable cfg → IsUsable (apply_option cfg key value)
unfolding apply_option
apply_option-IsUsable cfg key value h =
    let low = h.at_least in
    let high = h.at_most in
    let socket = h.has_socket in
    let managed = h.has_managed_group in
    let exempt = h.has_exempt_group in
    record {
      at_least = ground arith;
      at_most = ground arith;
      has_socket = ground arith;
      has_managed_group = ground arith;
      has_exempt_group = ground arith;
    }

apply_args-IsUsable :
    (cfg : Config) (args : List Text) → IsUsable cfg → IsUsable (apply_args cfg args)
unfolding apply_args apply_arg
apply_args-IsUsable cfg [] h = h
apply_args-IsUsable cfg (arg ∷ rest) h =
    let (key, value) = unwrap_or (split_once b'=' arg) (arg, []) in
    apply_args-IsUsable (apply_arg cfg arg) rest (apply_option-IsUsable cfg key value h)

-- Whatever stands on the line of /etc/pam.d, the module waits between 50 milliseconds and 5 seconds,
-- and neither its socket nor the groups it asks for are left without a name.
pub from_args-IsUsable : (args : List Text) → IsUsable (from_args args)
unfolding from_args
from_args-IsUsable args = apply_args-IsUsable default_config args (record {
  at_least = omega arith;
  at_most = omega arith;
  has_socket = refl;
  has_managed_group = refl;
  has_exempt_group = refl;
})
