-- ===== src/PolicyEdit/Edit.antt =====
-- crates/tb-cli/src/policyedit.rs: `PolicyEdit` and `apply`.
use time_bandits.Base.{
  ℕ, ◌+◌, ◌-◌, ◌^◌, Bool, ◌&&◌, not, Option, none, some, List, [], ◌∷◌, ◌++◌, Text, leb, ◌==◌, any,
  min, sort_by, unwrap_or, if◌then◌else◌, is_some,
}
use time_bandits.Jiff.{Jiff, Time}
use time_bandits.Duration.{DurationSpec}
use time_bandits.Schedule.{TimeWindow, WeekSchedule, uniform, get, set}
use time_bandits.Policy.{Policy, Quota, LockAction, is_empty, validate}
use time_bandits.PolicyEdit.Parsing.{QuotaArg, WindowArg}

pub record PolicyEdit : Type 0 where
  pub enforcement : Option Bool
  pub timezone : Option Text
  pub day_start : Option Time
  pub daily : List QuotaArg
  pub weekly : Option Quota
  pub windows : List WindowArg
  pub clear_windows : Bool
  pub grace_period : Option DurationSpec
  pub idle_threshold : Option DurationSpec
  pub on_exhausted : Option LockAction
  pub record_window_titles : Option Bool
  pub warnings : Option (List DurationSpec)

-- `PolicyEdit::is_empty`.
abbrev pub changes_nothing : PolicyEdit → Bool
changes_nothing e =
    not (is_some e.enforcement)
    && not (is_some e.timezone)
    && not (is_some e.day_start)
    && is_empty e.daily
    && not (is_some e.weekly)
    && is_empty e.windows
    && not e.clear_windows
    && not (is_some e.grace_period)
    && not (is_some e.idle_threshold)
    && not (is_some e.on_exhausted)
    && not (is_some e.record_window_titles)
    && not (is_some e.warnings)

-- The loop over the quotas.
abbrev pub set_quota : WeekSchedule Quota → QuotaArg → WeekSchedule Quota
set_quota schedule arg = elim arg.day [
  | some d ↦ set schedule d arg.quota
  | none ↦ uniform arg.quota
]

unfoldable pub set_quotas : WeekSchedule Quota → List QuotaArg → WeekSchedule Quota
set_quotas schedule [] = schedule
set_quotas schedule (arg ∷ rest) = set_quotas (set_quota schedule arg) rest

abbrev pub same_window : TimeWindow → TimeWindow → Bool
same_window a b = (a.start == b.start) && (a.end == b.end)

abbrev pub starts_before : TimeWindow → TimeWindow → Bool
starts_before a b = leb a.start b.start

-- A window among those of its day.
unfoldable pub push_window : List TimeWindow → TimeWindow → List TimeWindow
push_window existing w =
    sort_by starts_before (if any (same_window w) existing then existing else existing ++ w ∷ [])

abbrev pub set_window : WeekSchedule (List TimeWindow) → WindowArg → WeekSchedule (List TimeWindow)
set_window schedule arg = set schedule arg.day (push_window (get schedule arg.day) arg.window)

-- The loop over the windows.
unfoldable pub set_windows :
    WeekSchedule (List TimeWindow) → List WindowArg → WeekSchedule (List TimeWindow)
unfolding push_window
set_windows schedule [] = schedule
set_windows schedule (arg ∷ rest) = set_windows (set_window schedule arg) rest

-- The policy before the check.
unfoldable pub edited : PolicyEdit → Policy → Policy
unfolding set_quotas set_windows
edited e p = record p {
  enforcement = unwrap_or e.enforcement p.enforcement;
  timezone = unwrap_or e.timezone p.timezone;
  day_start = unwrap_or e.day_start p.day_start;
  daily_quota = set_quotas p.daily_quota e.daily;
  weekly_quota = unwrap_or e.weekly p.weekly_quota;
  allowed_windows =
      set_windows (if e.clear_windows then uniform [] else p.allowed_windows) e.windows;
  grace_period = unwrap_or e.grace_period p.grace_period;
  idle_threshold = unwrap_or e.idle_threshold p.idle_threshold;
  on_exhausted = unwrap_or e.on_exhausted p.on_exhausted;
  record_window_titles = unwrap_or e.record_window_titles p.record_window_titles;
  warnings = unwrap_or e.warnings p.warnings;
}

-- `saturating_add(1)` of a `u64`.
abbrev pub next_version : ℕ → ℕ
next_version v = min (v + 1) (2 ^ 64 - 1)

-- `apply`; nothing stands for the error of `validate`.
module _ (j : Jiff) where
  unfoldable pub apply : PolicyEdit → Policy → Option Policy
  unfolding edited
  apply e base =
      let p = edited e base in
      if is_some (validate j p)
      then none
      else some (record p { version = next_version base.version })
