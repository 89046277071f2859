-- ===== src/Duration/Parse.antt =====
-- crates/tb-core/src/duration.rs: `FromStr` of `DurationSpec`. `is_alphabetic` is that of `char`.
use time_bandits.Base.{
  ℕ, ◌+◌, ◌-◌, ◌*◌, ◌^◌, Bool, ◌&&◌, ◌||◌, not, Option, none, some, [], ◌∷◌, Text, ltb, leb, ◌==◌,
  if◌then◌else◌, is_ascii_digit, is_whitespace, trim, unwrap_or, parse_unsigned,
}
use time_bandits.Duration.{DurationSpec, from_secs, from_mins}
use time_bandits.Policy.{is_empty}

pub data ParseDurationError : Type 0 where
  empty : ParseDurationError
  unknown_unit missing_value : ℕ → ParseDurationError
  overflow : Text → ParseDurationError
  unexpected out_of_order : ℕ → ParseDurationError

-- `Result<T, ParseDurationError>`.
pub data Parsed (T : Type 0) : Type 0 where
  refused : ParseDurationError → Parsed T
  parsed : T → Parsed T

-- The variables of the loop.
pub record Scan : Type 0 where
  pub total : ℕ
  pub value : Option ℕ
  pub last_rank : ℕ

abbrev pub u64_limit : ℕ
u64_limit = 2 ^ 64

-- A digit behind the number read so far; nothing where that overflows.
abbrev pub push_digit : Option ℕ → ℕ → Option ℕ
push_digit value digit =
    let next = unwrap_or value 0 * 10 + digit in if ltb next u64_limit then some next else none

-- The rank and the seconds of a unit.
abbrev pub unit_of : ℕ → Option (ℕ × ℕ)
unit_of ch =
    if ch == b'h'
    then some (3, 3600)
    else if ch == b'm'
    then some (2, 60)
    else if ch == b's'
    then some (1, 1)
    else none

abbrev pub start : Scan
start = record { total = 0; value = none; last_rank = 0 }

-- After the loop: no number may wait for its unit.
abbrev pub finish : Parsed Scan → Parsed DurationSpec
finish (refused e) = refused e
finish (parsed st) = elim st.value [
  | some _ ↦ refused (unexpected b'0')
  | none ↦ parsed (from_secs st.total)
]

module _ (is_alphabetic : ℕ → Bool) where
  -- Why a character that is no unit is refused.
  abbrev pub no_unit : ℕ → ParseDurationError
  no_unit ch =
      if ch == b'd' || ch == b'w' || ch == b'y'
      then unknown_unit ch
      else if is_alphabetic ch
      then unknown_unit ch
      else unexpected ch

  -- A unit behind the number read so far.
  unfoldable pub close_unit : Text → Scan → ℕ → ℕ → ℕ → Parsed Scan
  close_unit whole st ch rank factor =
      if not (st.last_rank == 0) && leb st.last_rank rank
      then refused (out_of_order ch)
      else elim st.value [
        | none ↦ refused (missing_value ch)
        | some v ↦
            if ltb (v * factor) u64_limit && ltb (st.total + v * factor) u64_limit
            then parsed (record { total = st.total + v * factor; value = none; last_rank = rank })
            else refused (overflow whole)
      ]

  -- One round of the loop over the characters of `whole`.
  unfoldable pub scan_char : Text → Scan → ℕ → Parsed Scan
  unfolding close_unit
  scan_char whole st ch =
      if is_ascii_digit ch
      then elim (push_digit st.value (ch - b'0')) [
        | none ↦ refused (overflow whole)
        | some v ↦ parsed (record st { value = some v })
      ]
      else if is_whitespace ch
      then parsed st
      else elim (unit_of ch) [
        | none ↦ refused (no_unit ch)
        | some (rank, factor) ↦ close_unit whole st ch rank factor
      ]

  unfoldable pub scan : Text → Scan → Text → Parsed Scan
  unfolding scan_char
  scan whole st [] = parsed st
  scan whole st (ch ∷ rest) = elim (scan_char whole st ch) [
    | refused e ↦ refused e
    | parsed st' ↦ scan whole st' rest
  ]

  -- `from_str` of a text without spaces around it.
  unfoldable pub parse_trimmed : Text → Parsed DurationSpec
  unfolding scan
  parse_trimmed s = if is_empty s then refused empty else elim (parse_unsigned s) [
    | some mins ↦ parsed (from_mins mins)
    | none ↦ finish (scan s start s)
  ]

  unfoldable pub from_str : Text → Parsed DurationSpec
  unfolding parse_trimmed
  from_str text = parse_trimmed (trim text)
