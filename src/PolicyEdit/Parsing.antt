-- ===== src/PolicyEdit/Parsing.antt =====
-- crates/tb-cli/src/policyedit.rs: weekdays, times, quotas and windows on the command line. An
-- argument that is refused gives nothing; the message is left out.
use time_bandits.Base.{
  ℕ, ◌+◌, ◌*◌, Bool, ◌||◌, not, Option, none, some, List, [], ◌∷◌, Text, codes, ltb, ◌==◌, ◌=t◌,
  map, map_option, and_then, trim, if◌then◌else◌, parse_unsigned, is_ascii_digit, all,
}
use time_bandits.Jiff.{Time, nanos_per_sec}
use time_bandits.AppId.{ascii_lower}
use time_bandits.Duration.Parse.{from_str, parsed, refused}
use time_bandits.Schedule.{
  Day, monday, tuesday, wednesday, thursday, friday, saturday, sunday, TimeWindow,
}
use time_bandits.Policy.{Quota, unlimited, limited, is_empty}
use time_bandits.Pam.Options.{split_once}

abbrev pub lowered : Text → Text
lowered s = map ascii_lower s

abbrev is_one_of : Text → Text → Text → Bool
is_one_of s short long = (s =t short) || (s =t long)

-- The arms of `parse_day`.
unfoldable pub day_named : Text → Option Day
day_named s =
    if is_one_of s (codes "mon") (codes "monday")
    then some monday
    else if is_one_of s (codes "tue") (codes "tuesday")
    then some tuesday
    else if is_one_of s (codes "wed") (codes "wednesday")
    then some wednesday
    else if is_one_of s (codes "thu") (codes "thursday")
    then some thursday
    else if is_one_of s (codes "fri") (codes "friday")
    then some friday
    else if is_one_of s (codes "sat") (codes "saturday")
    then some saturday
    else if is_one_of s (codes "sun") (codes "sunday")
    then some sunday
    else none

unfoldable pub parse_day : Text → Option Day
unfolding day_named
parse_day s = day_named (lowered (trim s))

-- `split(':').collect()`: the first part and the others.
unfoldable pub split_at : ℕ → Text → Text × List Text
split_at sep [] = ([], [])
split_at sep (c ∷ cs) =
    let rest = split_at sep cs in if c == sep then ([], rest.0 ∷ rest.1) else (c ∷ rest.0, rest.1)

-- `i8::from_str` of a part, as far as `Time::new` then takes it: no negative number, and below `limit`,
-- which is at most 60.
unfoldable pub parse_part : ℕ → Text → Option ℕ
unfolding parse_unsigned
parse_part limit [] = none
parse_part limit (c ∷ cs) =
    let number =
      if c == b'-'
      then (if is_empty cs || not (all is_ascii_digit cs) then none else parse_unsigned cs)
      else parse_unsigned (c ∷ cs) in
    and_then number (λ n. if ltb n (if c == b'-' then 1 else limit) then some n else none)

abbrev pub time_of_parts : ℕ → ℕ → ℕ → Time
time_of_parts hour minute second = (hour * 3600 + minute * 60 + second) * nanos_per_sec

-- `parse_time` of two or three parts.
unfoldable pub time_from : Text × List Text → Option Time
unfolding parse_part
time_from (h, m ∷ []) =
    and_then (parse_part 24 h)
      (λ hour. map_option (λ minute. time_of_parts hour minute 0) (parse_part 60 m))
time_from (h, m ∷ s ∷ []) = and_then (parse_part 24 h) (λ hour.
    and_then (parse_part 60 m)
      (λ minute. map_option (λ second. time_of_parts hour minute second) (parse_part 60 s)))
time_from _ = none

unfoldable pub parse_time : Text → Option Time
unfolding time_from split_at
parse_time s = time_from (split_at b':' (trim s))

-- `WindowArg` and its `from_str`.
pub record WindowArg : Type 0 where
  pub day : Day
  pub window : TimeWindow

abbrev pub window_between : Day → Text × Text → Option WindowArg
window_between day (from, to) = and_then (parse_time from) (λ start.
    and_then (parse_time to) (λ end.
      if start == end
      then none
      else some (record { day = day; window = record { start = start; end = end } })))

unfoldable pub parse_window : Text → Option WindowArg
unfolding parse_day parse_time split_once
parse_window s =
    and_then (split_once b'=' s)
      (λ p. and_then (parse_day p.0) (λ day. and_then (split_once b'-' p.1) (window_between day)))

-- `QuotaArg` and its `from_str`; `is_alphabetic` is that of `char`.
pub record QuotaArg : Type 0 where
  pub day : Option Day
  pub quota : Quota

module _ (is_alphabetic : ℕ → Bool) where
  abbrev pub quota_of : Text → Option Quota
  quota_of value =
      if lowered value =t codes "unlimited"
      then some unlimited
      else elim (from_str is_alphabetic value) [ refused e ↦ none | parsed d ↦ some (limited d) ]

  unfoldable pub parse_quota : Text → Option QuotaArg
  unfolding parse_day split_once
  parse_quota s = elim (split_once b'=' s) [
    | none ↦ map_option (λ q. record { day = none; quota = q }) (quota_of (trim s))
    | some (d, v) ↦
        and_then (parse_day d)
          (λ day. map_option (λ q. record { day = some day; quota = q }) (quota_of (trim v)))
  ]
