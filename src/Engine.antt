-- ===== src/Engine.antt =====
-- crates/tb-core/src/engine.rs: policy, recorded usage and the time give a verdict.
pub mod Access
pub mod Remaining
use time_bandits.Base.{
  ℕ, ◌^◌, Bool, true, false, ◌&&◌, Option, none, some, map, ◌⊎◌, inl, inr, Text, codes, ltb, leb,
  find, not, if◌then◌else◌, map_option, and_then, unwrap_or,
}
use time_bandits.Jiff.{Jiff, Timestamp, Weekday, secs_until}
use time_bandits.Duration.{
  DurationSpec, as_secs, from_secs, saturating_add, saturating_sub, zero_duration, is_zero,
}
use time_bandits.Schedule.{PolicyDay, get, policy_day, policy_day_end}
use time_bandits.Policy.{Policy, limit, quota_remaining, is_empty, sorted_warnings, is_zero_limit}
use time_bandits.Windows.{Interval, concrete_windows, upcoming_windows}

pub record UsageSnapshot : Type 0 where
  pub used_today : DurationSpec
  pub used_this_week : DurationSpec
  pub bonus_today : DurationSpec

pub data LimitedBy : Type 0 where
  nothing daily_quota weekly_quota window : LimitedBy

pub data DenyReason : Type 0 where
  daily_quota_exhausted weekly_quota_exhausted outside_allowed_window : DenyReason

-- `DenyReason::message_key`.
abbrev pub message_key : DenyReason → Text
message_key daily_quota_exhausted = codes "deny.daily_quota"
message_key weekly_quota_exhausted = codes "deny.weekly_quota"
message_key outside_allowed_window = codes "deny.outside_window"

pub record Allowance : Type 0 where
  pub remaining : Option DurationSpec
  pub limited_by : LimitedBy
  pub expires_at : Option Timestamp
  pub next_warning : Option DurationSpec

pub record Denial : Type 0 where
  pub reason : DenyReason
  pub retry_at : Option Timestamp

pub data Verdict : Type 0 where
  allowed : Allowance → Verdict
  denied : Denial → Verdict

abbrev pub is_allowed : Verdict → Bool
is_allowed (allowed a) = true
is_allowed (denied d) = false

-- `Verdict::denial` and `Verdict::remaining`.
abbrev pub denial : Verdict → Option Denial
denial (allowed a) = none
denial (denied d) = some d

abbrev pub verdict_remaining : Verdict → Option DurationSpec
verdict_remaining (allowed a) = a.remaining
verdict_remaining (denied d) = some zero_duration

abbrev pub unlimited_allowance : Allowance
unlimited_allowance = record {
  remaining = none;
  limited_by = nothing;
  expires_at = none;
  next_warning = none;
}

-- `to_monday_zero_offset`.
abbrev pub monday_offset : Weekday → ℕ
monday_offset Weekday.monday = 0
monday_offset Weekday.tuesday = 1
monday_offset Weekday.wednesday = 2
monday_offset Weekday.thursday = 3
monday_offset Weekday.friday = 4
monday_offset Weekday.saturday = 5
monday_offset Weekday.sunday = 6

-- One round of the loop over the candidates: a smaller one replaces the best so far.
abbrev pub tighten :
    Option DurationSpec × LimitedBy
    → Option DurationSpec × LimitedBy
    → Option DurationSpec × LimitedBy
tighten best (none, kind) = best
tighten (none, by) (some c, kind) = (some c, kind)
tighten (some r, by) (some c, kind) = if ltb c r then (some c, kind) else (some r, by)

unfoldable pub tightest :
    Option DurationSpec
    → Option DurationSpec
    → Option DurationSpec
    → Option DurationSpec × LimitedBy
tightest daily weekly window_left =
    tighten (tighten (tighten (none, nothing) (daily, daily_quota)) (weekly, weekly_quota))
      (window_left, window)

-- The next threshold below what remains, else zero; nothing where nothing remains.
unfoldable pub next_warning_for : Policy → DurationSpec → Option DurationSpec
next_warning_for policy r =
    if is_zero r
    then none
    else some (unwrap_or (find (λ w. ltb w r) (sorted_warnings policy)) zero_duration)

-- The daily limit with the bonus, less what was used.
unfoldable pub daily_remaining :
    Policy → UsageSnapshot → (j : Jiff) → PolicyDay j → Option DurationSpec
daily_remaining policy usage j pd =
    map_option (λ l. saturating_sub (saturating_add l usage.bonus_today) usage.used_today)
      (limit (get policy.daily_quota pd.day))

unfoldable pub weekly_remaining : Policy → UsageSnapshot → Option DurationSpec
weekly_remaining policy usage = quota_remaining policy.weekly_quota usage.used_this_week

module _ (j : Jiff) where
  unfoldable pub week_start : PolicyDay j → j.Date
  week_start pd = unwrap_or (j.date_sub pd.date (monday_offset (j.weekday pd.date))) pd.date

  -- Step 1: the denial, or the end of the window that is open, if the day has windows.
  unfoldable pub check_windows :
      Policy → PolicyDay j → j.TimeZone → Timestamp → Denial ⊎ Option Timestamp
  check_windows policy pd tz now =
      let windows = get policy.allowed_windows pd.day in
      if is_empty windows
      then inr none
      else elim (find (λ (iv : Interval). leb iv.start now && ltb now iv.end)
          (concrete_windows j pd windows policy.day_start tz)) [
            | some current ↦ inr (some current.end)
            | none ↦ inl (record {
              reason = outside_allowed_window;
              retry_at =
                  find (λ s. ltb now s)
                    (map (λ (iv : Interval). iv.start) (upcoming_windows j policy pd tz 9));
            })
          ]

  -- Step 4, where no rule denies.
  unfoldable pub allowance :
      Policy → Option DurationSpec → Option DurationSpec → Option Timestamp → Timestamp → Allowance
  allowance policy daily weekly window_end now =
      let window_left = map_option (λ end. from_secs (secs_until now end)) window_end in
      let (remaining, limited_by) = tightest daily weekly window_left in
      record {
        remaining = remaining;
        limited_by = limited_by;
        expires_at =
            and_then remaining
              (λ r. if ltb (as_secs r) (2 ^ 63) then j.add_secs now (as_secs r) else none);
        next_warning = and_then remaining (next_warning_for policy);
      }

  -- Steps 2 to 4.
  unfoldable pub check_quotas :
      Policy → UsageSnapshot → PolicyDay j → j.TimeZone → Timestamp → Option Timestamp → Verdict
  check_quotas policy usage pd tz now window_end =
      let daily = daily_remaining policy usage j pd in
      let weekly = weekly_remaining policy usage in
      if is_zero_limit daily
      then denied (record {
        reason = daily_quota_exhausted;
        retry_at = some (policy_day_end j pd policy.day_start tz);
      })
      else if is_zero_limit weekly
      then denied (record {
        reason = weekly_quota_exhausted;
        retry_at = and_then (j.date_add (week_start pd) 7) (λ d. j.to_zoned d policy.day_start tz);
      })
      else allowed (allowance policy daily weekly window_end now)

  -- The zone, the policy day and the open window of a moment.
  abbrev pub zone_of : Policy → j.TimeZone
  zone_of policy = unwrap_or (j.get_zone policy.timezone) j.utc

  abbrev pub policy_day_of : Policy → Timestamp → PolicyDay j
  policy_day_of policy now = policy_day j (zone_of policy) now policy.day_start

  -- A moment keeps its instant in another zone, so `now` is the same in the zone of the policy.
  unfoldable pub evaluate : Policy → UsageSnapshot → Timestamp → Verdict
  evaluate policy usage now =
      if not policy.enforcement
      then allowed unlimited_allowance
      else let tz = zone_of policy in
        let pd = policy_day_of policy now in
        elim (check_windows policy pd tz now) [
          | inl d ↦ denied d
          | inr window_end ↦ check_quotas policy usage pd tz now window_end
        ]
