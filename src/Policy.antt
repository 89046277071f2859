-- ===== src/Policy.antt =====
-- crates/tb-core/src/policy.rs: the rules for one user, and their validation.
pub mod Validation
pub mod Warnings
use time_bandits.Base.{
  ℕ, ◌%◌, ◌^◌, Bool, true, false, ◌&&◌, Option, none, some, List, [], ◌∷◌, map, Text, codes, trim,
  all, find, sum, filter_map, ltb, leb, ◌==◌, not, is_some, if◌then◌else◌, map_option, sort_by,
}
use time_bandits.Jiff.{Jiff, Time}
use time_bandits.Duration.{
  DurationSpec, as_secs, from_secs, from_mins, saturating_sub, zero_duration,
}
use time_bandits.Schedule.{Day, all_days, TimeWindow, WeekSchedule, uniform, get}

pub data Quota : Type 0 where
  unlimited : Quota
  limited : DurationSpec → Quota

-- `Quota::limit` and `Quota::remaining`.
abbrev pub limit : Quota → Option DurationSpec
limit unlimited = none
limit (limited d) = some d

abbrev pub quota_remaining : Quota → DurationSpec → Option DurationSpec
quota_remaining q used = map_option (λ l. saturating_sub l used) (limit q)

pub data LockAction : Type 0 where
  lock terminate lock_then_terminate : LockAction

pub data TamperResponse : Type 0 where
  count_and_report lock_immediately : TamperResponse

pub record Policy : Type 0 where
  pub version : ℕ
  pub subject : Text
  pub enforcement : Bool
  pub timezone : Text
  pub day_start : Time
  pub daily_quota : WeekSchedule Quota
  pub weekly_quota : Quota
  pub allowed_windows : WeekSchedule (List TimeWindow)
  pub warnings : List DurationSpec
  pub grace_period : DurationSpec
  pub idle_threshold : DurationSpec
  pub on_exhausted : LockAction
  pub on_tamper : TamperResponse
  pub record_window_titles : Bool

-- 04:00, in nanoseconds since midnight.
abbrev pub default_day_start : Time
default_day_start = 14400000000000

abbrev pub default_warnings : List DurationSpec
default_warnings = from_mins 15 ∷ from_mins 5 ∷ from_mins 1 ∷ []

-- `Policy::permissive`.
abbrev pub permissive : Text → Policy
permissive subject = record {
  version = 1;
  subject = subject;
  enforcement = false;
  timezone = codes "UTC";
  day_start = default_day_start;
  daily_quota = uniform unlimited;
  weekly_quota = unlimited;
  allowed_windows = uniform [];
  warnings = default_warnings;
  grace_period = from_secs 60;
  idle_threshold = from_mins 2;
  on_exhausted = lock;
  on_tamper = count_and_report;
  record_window_titles = false;
}

-- `Vec::dedup`: of equal neighbours the first stays.
unfoldable pub dedup_from : DurationSpec → List DurationSpec → List DurationSpec
dedup_from x [] = []
dedup_from x (y ∷ ys) = let rest = dedup_from y ys in if x == y then rest else y ∷ rest

unfoldable pub dedup : List DurationSpec → List DurationSpec
unfolding dedup_from
dedup [] = []
dedup (x ∷ xs) = x ∷ dedup_from x xs

-- `b.cmp(a)`: the larger comes first.
abbrev pub descending : DurationSpec → DurationSpec → Bool
descending a b = leb b a

unfoldable pub sorted_warnings : Policy → List DurationSpec
unfolding dedup
sorted_warnings p = dedup (sort_by descending p.warnings)

pub data PolicyError : Type 0 where
  empty_subject : PolicyError
  unknown_timezone : Text → PolicyError
  empty_window : Day → TimeWindow → PolicyError
  windows_with_zero_quota : Day → PolicyError
  unreachable_weekly_quota : PolicyError

abbrev pub is_empty {ℓ} : {A : Type ℓ} → List A → Bool
is_empty [] = true
is_empty (x ∷ xs) = false

abbrev pub is_zero_limit : Option DurationSpec → Bool
is_zero_limit none = false
is_zero_limit (some d) = d == zero_duration

abbrev pub window_empty : TimeWindow → Bool
window_empty w = w.start == w.end

-- The checks of one day: its windows in order, and then the windows beside the quota.
unfoldable pub check_day : Policy → Day → Option PolicyError
check_day p day =
    let windows = get p.allowed_windows day in
    elim (find window_empty windows) [
      | some w ↦ some (empty_window day w)
      | none ↦
          if not (is_empty windows) && is_zero_limit (limit (get p.daily_quota day))
          then some (windows_with_zero_quota day)
          else none
    ]

-- The `for` over the days: the first error is returned.
unfoldable pub check_days : Policy → List Day → Option PolicyError
check_days p [] = none
check_days p (day ∷ rest) =
    let later = check_days p rest in elim (check_day p day) [ some e ↦ some e | none ↦ later ]

-- The sum of the daily limits, a sum of `u64`s.
unfoldable pub max_daily : Policy → ℕ
max_daily p = sum (map as_secs (filter_map (λ d. limit (get p.daily_quota d)) all_days)) % 2 ^ 64

unfoldable pub all_days_limited : Policy → Bool
all_days_limited p = all (λ d. is_some (limit (get p.daily_quota d))) all_days

-- The check of the weekly quota, which is given.
unfoldable pub check_weekly : Policy → Quota → Option PolicyError
check_weekly p unlimited = none
check_weekly p (limited weekly) =
    if all_days_limited p && ltb (max_daily p) (as_secs weekly)
    then some unreachable_weekly_quota
    else none

-- `Policy::validate`; `none` is `Ok(())`.
module _ (j : Jiff) where
  unfoldable pub validate : Policy → Option PolicyError
  validate p =
      if is_empty (trim p.subject) then some empty_subject else elim (j.get_zone p.timezone) [
        | none ↦ some (unknown_timezone p.timezone)
        | some zone ↦ elim (check_days p all_days) [
          | some e ↦ some e
          | none ↦ check_weekly p p.weekly_quota
        ]
      ]
