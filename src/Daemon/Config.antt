-- ===== src/Daemon/Config.antt =====
-- crates/tb-daemon/src/config.rs: the configuration, and the arguments of the daemon (main.rs). A
-- file is what the TOML reader, which is not of this repository, gives for its text: nothing where
-- it refuses it, and else the fields that stand in it.
use time_bandits.Base.{
  ◌≡◌, refl, ◌||◌, Option, none, some, List, [], ◌∷◌, Text, codes, ◌=t◌, if◌then◌else◌, unwrap_or,
  arith,
}
use time_bandits.Duration.{DurationSpec, from_secs}
use time_bandits.AppId.{strip_prefix}

pub record Config : Type 0 where
  pub state_dir : Text
  pub policy_dir : Text
  pub pam_socket : Text
  pub agent_socket : Text
  pub tick_interval : DurationSpec
  pub hub_url : Option Text
  pub managed_group : Option Text

-- The fields that a file gives.
pub record Given : Type 0 where
  pub given_state_dir : Option Text
  pub given_policy_dir : Option Text
  pub given_pam_socket : Option Text
  pub given_agent_socket : Option Text
  pub given_tick_interval : Option DurationSpec
  pub given_hub_url : Option Text
  pub given_managed_group : Option Text

abbrev pub default_tick : DurationSpec
default_tick = from_secs 5

-- `Config::default`.
abbrev pub default_config : Config
default_config = record {
  state_dir = codes "/var/lib/timebandits";
  policy_dir = codes "/etc/timebandits/policy.d";
  pam_socket = codes "/run/timebandits/pam.sock";
  agent_socket = codes "/run/timebandits/agent.sock";
  tick_interval = default_tick;
  hub_url = none;
  managed_group = some (codes "kids");
}

-- `Deserialize` with the `serde(default)` of each field.
unfoldable pub config_of : Given → Config
config_of g = record {
  state_dir = unwrap_or g.given_state_dir (codes "/var/lib/timebandits");
  policy_dir = unwrap_or g.given_policy_dir (codes "/etc/timebandits/policy.d");
  pam_socket = unwrap_or g.given_pam_socket (codes "/run/timebandits/pam.sock");
  agent_socket = unwrap_or g.given_agent_socket (codes "/run/timebandits/agent.sock");
  tick_interval = unwrap_or g.given_tick_interval default_tick;
  hub_url = g.given_hub_url;
  managed_group = g.given_managed_group;
}

-- What `read_to_string` returns.
pub data Reading : Type 0 where
  text_read : Text → Reading
  not_found other_error : Reading

-- `Config::load`; nothing stands for an error.
module _ (parse : Text → Option Given) where
  unfoldable pub load_config : Reading → Option Config
  unfolding config_of
  load_config (text_read text) = elim (parse text) [ none ↦ none | some g ↦ some (config_of g) ]
  load_config not_found = some default_config
  load_config other_error = none

-- `cfg.managed_group.unwrap_or_else(|| "kids")` of every user of the field.
abbrev pub group_of : Config → Text
group_of cfg = unwrap_or cfg.managed_group (codes "kids")

-- `parse_config_path`, with the arguments after the name of the program.
unfoldable pub parse_config_path : List Text → Text
parse_config_path [] = codes "/etc/timebandits/daemon.toml"
parse_config_path (arg ∷ []) = elim (strip_prefix (codes "--config=") arg) [
  | some p ↦ p
  | none ↦ codes "/etc/timebandits/daemon.toml"
]
parse_config_path (arg ∷ value ∷ rest) =
    let later = parse_config_path (value ∷ rest) in
    if arg =t codes "--config" || arg =t codes "-c"
    then value
    else elim (strip_prefix (codes "--config=") arg) [ some p ↦ p | none ↦ later ]

-- A file that names no field.
abbrev pub no_fields : Given
no_fields = record {
  given_state_dir = none;
  given_policy_dir = none;
  given_pam_socket = none;
  given_agent_socket = none;
  given_tick_interval = none;
  given_hub_url = none;
  given_managed_group = none;
}

-- A missing file and a file that names no field give a daemon that does the same: all settings are
-- equal, the managed group included, whose field differs. And a file that the TOML reader refuses
-- never gives a configuration.
pub load_config_defaults :
    (parse : Text → Option Given) (empty broken : Text)
    → parse empty ≡ some no_fields
    → parse broken ≡ none
    → ((cfg : Config) × (load_config parse (text_read empty) ≡ some cfg)
        × (record cfg { managed_group = some (group_of cfg) } ≡ default_config))
      × (load_config parse (text_read broken) ≡ none)
unfolding load_config config_of
load_config_defaults parse empty broken e b =
    ((config_of no_fields, ground arith, refl), ground arith)
