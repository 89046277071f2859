-- ===== src/Tests/Engine.antt =====
-- The engine on a school day: two hours, allowed from 15:00 to 17:00 and from 17:00 to 19:00.
use time_bandits.Base.{ℕ, ◌+◌, ◌*◌, ◌≡◌, refl, true, sort_by, some, [], ◌∷◌, codes}
use time_bandits.Jiff.{Timestamp, nanos_per_sec}
use time_bandits.Duration.{from_mins, from_hours}
use time_bandits.Schedule.{TimeWindow, WeekSchedule, PolicyDay, uniform, get, day_of, policy_day}
use time_bandits.Policy.{Policy, limited, permissive, sorted_warnings}
use time_bandits.Windows.{window_interval, concrete_windows, resolve, merge}
use time_bandits.Engine.{
  UsageSnapshot, Allowance, allowed, window, evaluate, daily_quota_exhausted, check_windows,
  check_quotas, allowance, tightest, next_warning_for, daily_remaining, weekly_remaining,
  policy_day_of,
}
use time_bandits.Engine.Access.{reason_of, evaluate_reason}
use time_bandits.Engine.Remaining.{IsTightest, window_left, evaluate-IsTightest}
use time_bandits.Tests.{plain}

abbrev hour : ℕ
hour = 3600 * nanos_per_sec

abbrev afternoon : TimeWindow
afternoon = record { start = 15 * hour; end = 17 * hour }

abbrev evening : TimeWindow
evening = record { start = 17 * hour; end = 19 * hour }

abbrev school_day : Policy
school_day = record (permissive (codes "kid")) {
  enforcement = true;
  daily_quota = uniform (limited (from_hours 2));
  allowed_windows = uniform (evening ∷ afternoon ∷ []);
}

abbrev half_used : UsageSnapshot
half_used = record { used_today = from_hours 1; used_this_week = 0; bonus_today = 0 }

abbrev all_used : UsageSnapshot
all_used = record { used_today = from_hours 2; used_this_week = 0; bonus_today = 0 }

-- 18:30 on the first day: half an hour is left until the window closes.
abbrev late : Timestamp
late = 18 * hour + 1800 * nanos_per_sec

abbrev half_an_hour : Allowance
half_an_hour = record {
  remaining = some (from_mins 30);
  limited_by = window;
  expires_at = some (19 * hour);
  next_warning = some (from_mins 15);
}

evaluate-late : evaluate plain school_day half_used late ≡ allowed half_an_hour
unfolding evaluate check_windows check_quotas allowance tightest next_warning_for daily_remaining
    weekly_remaining policy_day get concrete_windows merge sort_by window_interval resolve
    sorted_warnings
evaluate-late = refl

-- With the quota used up the reason is the daily quota.
evaluate_reason_example :
    reason_of (evaluate plain school_day all_used late) ≡ some daily_quota_exhausted
unfolding policy_day get window_interval resolve
evaluate_reason_example = evaluate_reason plain school_day late all_used

evaluate-IsTightest_example :
    IsTightest
      (daily_remaining school_day half_used plain (policy_day_of plain school_day late))
      (weekly_remaining school_day half_used)
      (window_left plain school_day half_used late)
      (some (from_mins 30))
      window
evaluate-IsTightest_example =
    evaluate-IsTightest plain school_day half_used late half_an_hour refl evaluate-late

abbrev first_day : PolicyDay plain
first_day = day_of plain 0

abbrev weekdays : WeekSchedule ℕ
weekdays = uniform 1
