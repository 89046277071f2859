-- ===== src/AppId.antt =====
-- crates/tb-core/src/appid.rs: application identifiers.
pub mod Trimming
pub mod Units
pub mod Unescaping
use mathlib.Core.List.{reverse}
use time_bandits.Base.{
  ℕ, zero, suc, ◌+◌, Bool, true, false, ◌&&◌, ◌||◌, Option, none, some, [], ◌∷◌, Text, codes, ◌=t◌,
  ltb, leb, ◌==◌, if◌then◌else◌, length, keep, map, trim, is_ascii_digit,
}

pub data AppIdSource : Type 0 where
  unknown systemd_scope window_class desktop_file : AppIdSource

-- The derived order of the constructors.
abbrev pub source_rank : AppIdSource → ℕ
source_rank unknown = 0
source_rank systemd_scope = 1
source_rank window_class = 2
source_rank desktop_file = 3

abbrev pub AppId : Type 0
AppId = Text

-- `AppId::UNKNOWN`.
abbrev pub unknown_app : AppId
unknown_app = codes "unknown"

abbrev pub is_unknown : AppId → Bool
is_unknown a = a =t unknown_app

pub record AppObservation : Type 0 where
  pub app : AppId
  pub source : AppIdSource

-- `AppObservation::unknown`.
abbrev pub unknown_observation : AppObservation
unknown_observation = record { app = unknown_app; source = unknown }

abbrev pub best_of : AppObservation → AppObservation → AppObservation
best_of self other =
    if ltb (source_rank self.source) (source_rank other.source) then other else self

-- `str::strip_prefix`.
abbrev pub strip_prefix : Text → Text → Option Text
strip_prefix [] s = some s
strip_prefix (p ∷ ps) [] = none
strip_prefix (p ∷ ps) (c ∷ cs) = let rest = strip_prefix ps cs in if p == c then rest else none

-- The prefix is taken off as often as it stands there; it is not empty, so the rounds end.
unfoldable pub strip_all : ℕ → Text → Text → Text
strip_all zero p s = s
strip_all (suc fuel) p s = elim (strip_prefix p s) [ none ↦ s | some rest ↦ strip_all fuel p rest ]

-- `str::trim_end_matches`.
unfoldable pub trim_end_matches : Text → Text → Text
unfolding strip_all
trim_end_matches pattern s = reverse (strip_all (length s) (reverse pattern) (reverse s))

-- `to_ascii_lowercase` of a character.
abbrev pub ascii_lower : ℕ → ℕ
ascii_lower c = if leb b'A' c && leb c b'Z' then c + 32 else c

abbrev pub is_id_char : ℕ → Bool
is_id_char c =
    is_ascii_digit c
    || (leb b'A' c && leb c b'Z')
    || (leb b'a' c && leb c b'z')
    || c == b'.'
    || c == b'-'
    || c == b'_'
    || c == b'+'

abbrev pub is_blank : Text → Bool
is_blank [] = true
is_blank (c ∷ cs) = false

-- `AppId::new`.
unfoldable pub new_app : Text → AppId
unfolding trim_end_matches
new_app raw =
    let s = keep is_id_char (map ascii_lower (trim_end_matches (codes ".desktop") (trim raw))) in
    if is_blank s then unknown_app else s

-- One source of `observe_window`: the trimmed text, if it names an application.
unfoldable pub named_by : Option Text → AppIdSource → Option AppObservation
named_by none source = none
named_by (some raw) source =
    let s = trim raw in
    let app = new_app s in
    if is_blank s
    then none
    else if is_unknown app
    then none
    else some (record { app = app; source = source })

unfoldable pub observe_window : Option Text → Option Text → AppObservation
unfolding named_by
observe_window desktop_file_name resource_class = elim (named_by desktop_file_name desktop_file) [
  | some o ↦ o
  | none ↦ elim (named_by resource_class window_class) [ some o ↦ o | none ↦ unknown_observation ]
]
