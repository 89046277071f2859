-- ===== src/AppId/Units.antt =====
-- crates/tb-core/src/appid.rs: the application that a systemd unit is named for. A name is worked on as
-- its bytes, and a byte is pushed as the character of that number (`b as char`), which has another
-- encoding from 0x80 on. Nothing stands for the panic of a
-- slice that cuts a character.
use mathlib.Core.List.{reverse}
use time_bandits.Base.{
  ℕ, ◌+◌, ◌-◌, ◌*◌, Bool, false, ◌&&◌, ◌||◌, not, Option, none, some, List, [], ◌∷◌, map, Text,
  codes, all, leb, ltb, ◌==◌, if◌then◌else◌, map_option, and_then, is_ascii_digit, trim, utf8,
  is_some,
}
use time_bandits.AppId.{AppId, strip_prefix, ascii_lower, is_blank, is_unknown, new_app}

-- A digit of `from_str_radix(…, 16)`.
abbrev pub hex_value : ℕ → Option ℕ
hex_value c =
    if is_ascii_digit c
    then some (c - b'0')
    else if leb b'a' c && leb c b'f'
    then some (c - b'a' + 10)
    else if leb b'A' c && leb c b'F'
    then some (c - b'A' + 10)
    else none

-- `u8::from_str_radix` of two bytes, which takes a sign before a digit.
abbrev pub hex_byte : ℕ → ℕ → Option ℕ
hex_byte h l =
    if h == b'+'
    then hex_value l
    else and_then (hex_value h) (λ m. map_option (λ n. m * 16 + n) (hex_value l))

-- A byte that does not begin a character.
abbrev pub continues : ℕ → Bool
continues b = leb 0x80 b && ltb b 0xc0

abbrev pub head_continues : List ℕ → Bool
head_continues [] = false
head_continues (b ∷ _) = continues b

-- `u8 as char`: the scalar value with the number of the byte.
abbrev pub as_char : ℕ → ℕ
as_char b = b

abbrev pub push : ℕ → Option Text → Option Text
push b out = map_option (λ s. as_char b ∷ s) out

-- `unescape_unit`.
unfoldable pub unescape_unit : List ℕ → Option Text
unescape_unit [] = some []
unescape_unit (a ∷ []) = some (as_char a ∷ [])
unescape_unit (a ∷ b ∷ []) = some (as_char a ∷ as_char b ∷ [])
unescape_unit (a ∷ b ∷ h ∷ []) = some (as_char a ∷ as_char b ∷ as_char h ∷ [])
unescape_unit (a ∷ b ∷ h ∷ l ∷ rest) =
    let after = unescape_unit rest in
    let next = unescape_unit (b ∷ h ∷ l ∷ rest) in
    if a == b'\\' && b == b'x'
    then if continues h || head_continues rest
      then none
      else elim (hex_byte h l) [ some v ↦ push v after | none ↦ push a next ]
    else push a next

abbrev pub strip_suffix : Text → Text → Option Text
strip_suffix suffix s = map_option reverse (strip_prefix (reverse suffix) (reverse s))

-- `LAUNCHER_PREFIXES`, the first of which that fits is taken off.
abbrev pub launcher_prefixes : List Text
launcher_prefixes =
    codes "flatpak-"
    ∷ codes "snap-"
    ∷ codes "gnome-"
    ∷ codes "kde-"
    ∷ codes "wayland-"
    ∷ codes "glib-"
    ∷ []

unfoldable pub drop_like : Text → Text → Text
drop_like [] s = s
drop_like (p ∷ ps) [] = []
drop_like (p ∷ ps) (c ∷ cs) = drop_like ps cs

unfoldable pub drop_launcher : List Text → Text → Text
unfolding drop_like
drop_launcher [] rest = rest
drop_launcher (p ∷ ps) rest =
    let others = drop_launcher ps rest in
    if is_some (strip_prefix p (map ascii_lower rest)) then drop_like p rest else others

-- `split('@').next()`.
unfoldable pub before_at : Text → Text
before_at [] = []
before_at (c ∷ cs) = let rest = before_at cs in if c == b'@' then [] else c ∷ rest

abbrev pub is_hex_digit : ℕ → Bool
is_hex_digit c = is_some (hex_value c)

-- `split_once('-')` on the reversed text, which is `rsplit_once`: what stands behind the last hyphen,
-- reversed, and what stands before it, reversed.
unfoldable pub split_last : Text → Option (Text × Text)
split_last [] = none
split_last (c ∷ cs) =
    let rest = split_last cs in
    if c == b'-' then some ([], cs) else map_option (λ (tail, head). (c ∷ tail, head)) rest

-- The instance token behind the last hyphen is cut off, if it is one.
unfoldable pub cut_token : Text → Text
unfolding split_last
cut_token rest = elim (split_last (reverse rest)) [
  | none ↦ rest
  | some (tail, head) ↦
      if not (is_blank head) && not (is_blank tail) && all is_hex_digit tail
      then reverse head
      else rest
]

abbrev pub id_of : Text → Option AppId
id_of rest = let id = new_app rest in if is_unknown id then none else some id

abbrev pub or_else : Option Text → Option Text → Option Text
or_else none y = y
or_else (some x) y = some x

-- The part of `app_id_from_unit` after the unescaping.
unfoldable pub app_of : Text → Option AppId
unfolding drop_launcher before_at cut_token
app_of unit =
    and_then (or_else (strip_suffix (codes ".scope") unit) (strip_suffix (codes ".service") unit))
      (λ named.
        and_then (strip_prefix (codes "app-") named)
          (λ rest. id_of (cut_token (before_at (drop_launcher launcher_prefixes rest)))))

-- `app_id_from_unit`; the outer option is whether it returns.
unfoldable pub app_id_from_unit : Text → Option (Option AppId)
unfolding unescape_unit app_of
app_id_from_unit unit = map_option app_of (unescape_unit (utf8 (trim unit)))
