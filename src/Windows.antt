-- ===== src/Windows.antt =====
-- crates/tb-core/src/engine.rs: the time windows of a policy day as intervals of the timeline.
pub mod Merging
use time_bandits.Base.{
  ℕ, zero, suc, ◌+◌, Bool, true, false, Option, none, some, List, [], ◌∷◌, ◌++◌, filter_map, ltb,
  leb, and_then, if◌then◌else◌, sort_by,
}
use time_bandits.Jiff.{Jiff, Time, Timestamp}
use time_bandits.Schedule.{TimeWindow, get, PolicyDay, day_of}
use time_bandits.Policy.{Policy, is_empty}

pub record Interval : Type 0 where
  pub start : Timestamp
  pub end : Timestamp

-- `a.start.cmp(&b.start)`.
abbrev pub starts_first : Interval → Interval → Bool
starts_first a b = leb a.start b.start

-- The arm that moves the end of the last interval.
abbrev pub absorb : Interval → Interval → Interval
absorb last iv = if ltb last.end iv.end then record last { end = iv.end } else last

-- The loop that merges, with the last interval pushed so far.
unfoldable pub merge_from : Interval → List Interval → List Interval
merge_from last [] = last ∷ []
merge_from last (iv ∷ rest) = elim (leb iv.start last.end) [
  | true ↦ merge_from (absorb last iv) rest
  | false ↦ last ∷ merge_from iv rest
]

unfoldable pub merge : List Interval → List Interval
unfolding merge_from
merge [] = []
merge (iv ∷ rest) = merge_from iv rest

module _ (j : Jiff) where
  -- The closure `resolve`: a time before `day_start` belongs to the next calendar date.
  unfoldable pub resolve : PolicyDay j → Time → j.TimeZone → Time → Option Timestamp
  resolve pd day_start tz t =
      and_then (if leb day_start t then some pd.date else j.tomorrow pd.date)
        (λ date. j.to_zoned date t tz)

  -- The interval of one window; one that would not end after its start ends a day later.
  unfoldable pub window_interval : PolicyDay j → Time → j.TimeZone → TimeWindow → Option Interval
  window_interval pd day_start tz w = and_then (resolve pd day_start tz w.start) λ start.
      and_then (resolve pd day_start tz w.end) λ end.
        and_then (if leb end start then j.zoned_add_days tz end 1 else some end)
          λ end'. some (record { start = start; end = end' })

  unfoldable pub concrete_windows :
      PolicyDay j → List TimeWindow → Time → j.TimeZone → List Interval
  concrete_windows pd windows day_start tz =
      merge (sort_by starts_first (filter_map (window_interval pd day_start tz) windows))

  -- The windows of the `days` policy days from the one `offset` days after `from`.
  unfoldable pub upcoming_from : Policy → PolicyDay j → j.TimeZone → ℕ → ℕ → List Interval
  upcoming_from policy from tz offset zero = []
  upcoming_from policy from tz offset (suc days) =
      let later = upcoming_from policy from tz (offset + 1) days in
      elim (j.date_add from.date offset) [
        | none ↦ []
        | some date ↦
            let pd = day_of j date in
            let windows = get policy.allowed_windows pd.day in
            if is_empty windows
            then later
            else concrete_windows pd windows policy.day_start tz ++ later
      ]

  unfoldable pub upcoming_windows : Policy → PolicyDay j → j.TimeZone → ℕ → List Interval
  unfolding upcoming_from
  upcoming_windows policy from tz days = upcoming_from policy from tz 0 days
