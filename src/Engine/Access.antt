-- ===== src/Engine/Access.antt =====
-- When `evaluate` allows access, and which reason it gives when it does not.
use time_bandits.Base.{
  ◌≤◌, ◌≡◌, ◌⊎◌, inl, inr, refl, sym, ◌∙◌, Bool, true, false, not, ◌||◌, Option, none, some, List,
  [], ◌∷◌, find, leb, is_some, filter_map, if◌then◌else◌, map_option, arith,
}
use time_bandits.Jiff.{Jiff, Timestamp}
use time_bandits.Duration.{DurationSpec, saturating_add}
use time_bandits.Schedule.{PolicyDay, get}
use time_bandits.Policy.{Policy, limit, is_empty}
use time_bandits.Windows.{Interval, window_interval, concrete_windows}
use time_bandits.Windows.Merging.{within, covered, concrete_windows_lem}
use time_bandits.Engine.{
  UsageSnapshot, DenyReason, daily_quota_exhausted, weekly_quota_exhausted, outside_allowed_window,
  Denial, Verdict, allowed, denied, is_allowed, daily_remaining, weekly_remaining, check_windows,
  check_quotas, unlimited_allowance, evaluate, zone_of, policy_day_of,
}

-- A limit is used up when the use has reached it.
abbrev pub used_up : Option DurationSpec → DurationSpec → Bool
used_up none used = false
used_up (some l) used = leb l used

-- The limit with the bonus, which stops at the largest duration.
abbrev pub with_bonus : DurationSpec → Option DurationSpec → Option DurationSpec
with_bonus bonus = map_option (λ l. saturating_add l bonus)

abbrev pub reason_of : Verdict → Option DenyReason
reason_of (allowed a) = none
reason_of (denied d) = some d.reason

find-within : (t : Timestamp) (ivs : List Interval) → is_some (find (within t) ivs) ≡ covered t ivs
find-within t [] = refl
find-within t (iv ∷ rest) = ground (arith, find-within t rest)

module _ (j : Jiff) (policy : Policy) (pd : PolicyDay j) (tz : j.TimeZone) (now : Timestamp) where
  -- One of the day's windows, each resolved on its own, contains the moment; or the day has none.
  abbrev pub window_open : Bool
  window_open =
      let windows = get policy.allowed_windows pd.day in
      is_empty windows
      || covered now (filter_map (window_interval j pd policy.day_start tz) windows)

  -- The quotas: the daily one with the bonus first, then the weekly one.
  abbrev pub expected_quotas : UsageSnapshot → Option DenyReason
  expected_quotas usage =
      if used_up (with_bonus usage.bonus_today (limit (get policy.daily_quota pd.day)))
        usage.used_today
      then some daily_quota_exhausted
      else if used_up (limit policy.weekly_quota) usage.used_this_week
      then some weekly_quota_exhausted
      else none

  abbrev window_denial : Denial ⊎ Option Timestamp → Option DenyReason
  window_denial (inl d) = some d.reason
  window_denial (inr end) = none

  window_denial-check_windows :
      window_denial (check_windows j policy pd tz now)
      ≡ (if window_open then none else some outside_allowed_window)
  unfolding check_windows
  window_denial-check_windows = ground (
    arith,
    (concrete_windows_lem j pd (get policy.allowed_windows pd.day) policy.day_start tz).0 now,
    find-within now (concrete_windows j pd (get policy.allowed_windows pd.day) policy.day_start tz),
  )

  reason_of-check_quotas :
      (usage : UsageSnapshot) (end : Option Timestamp)
      → reason_of (check_quotas j policy usage pd tz now end) ≡ expected_quotas usage
  unfolding check_quotas daily_remaining weekly_remaining
  reason_of-check_quotas usage end = ground arith

  expected_quotas_monotone :
      (usage usage' : UsageSnapshot)
      → usage'.used_today ≤ usage.used_today
      → usage'.used_this_week ≤ usage.used_this_week
      → usage.bonus_today ≤ usage'.bonus_today
      → expected_quotas usage ≡ none
      → expected_quotas usage' ≡ none
  expected_quotas_monotone usage usage' d w b h = ground arith

no_reason_of_allowed : (v : Verdict) → is_allowed v ≡ true → reason_of v ≡ none
no_reason_of_allowed v h = ground arith

allowed_of_no_reason : (v : Verdict) → reason_of v ≡ none → is_allowed v ≡ true
allowed_of_no_reason v h = ground arith

module _ (j : Jiff) (policy : Policy) (now : Timestamp) where
  -- The rules in their order: enforcement, windows, quotas.
  abbrev pub expected_reason : UsageSnapshot → Option DenyReason
  expected_reason usage =
      let pd = policy_day_of j policy now in
      let tz = zone_of j policy in
      if not policy.enforcement
      then none
      else if not (window_open j policy pd tz now)
      then some outside_allowed_window
      else expected_quotas j policy pd tz now usage

  -- The reason of the verdict, and that there is none, is what the rules say, in their order: outside
  -- every window of a day that has windows, the daily quota with the bonus used up, the weekly quota
  -- used up. Without enforcement nothing is denied. The windows count one by one, unmerged.
  pub evaluate_reason :
      (usage : UsageSnapshot) → reason_of (evaluate j policy usage now) ≡ expected_reason usage
  unfolding evaluate
  evaluate_reason usage =
      let pd = policy_day_of j policy now in
      let tz = zone_of j policy in
      let w = window_denial-check_windows j policy pd tz now in
      elim (check_windows j policy pd tz now)
          as (λ c.
            window_denial j policy pd tz now c
              ≡ (if window_open j policy pd tz now then none else some outside_allowed_window)
            → reason_of (
                if not policy.enforcement
                then allowed unlimited_allowance
                else elim c as (λ _. Verdict) [
                  | inl d ↦ denied d
                  | inr window_end ↦ check_quotas j policy usage pd tz now window_end
                ])
              ≡ expected_reason usage) [
                | inl d ↦ λ e. ground arith
                | inr end ↦
                    λ e. let q = reason_of-check_quotas j policy pd tz now usage end in ground arith
              ]
        w

  expected_reason_monotone :
      (usage usage' : UsageSnapshot)
      → usage'.used_today ≤ usage.used_today
      → usage'.used_this_week ≤ usage.used_this_week
      → usage.bonus_today ≤ usage'.bonus_today
      → expected_reason usage ≡ none
      → expected_reason usage' ≡ none
  expected_reason_monotone usage usage' d w b h =
      let pd = policy_day_of j policy now in
      let q = expected_quotas_monotone j policy pd (zone_of j policy) now usage usage' d w b in
      ground (arith, q)

  -- Less use and more bonus never withdraw access: what is allowed stays allowed.
  pub evaluate_monotone :
      (usage usage' : UsageSnapshot)
      → usage'.used_today ≤ usage.used_today
      → usage'.used_this_week ≤ usage.used_this_week
      → usage.bonus_today ≤ usage'.bonus_today
      → is_allowed (evaluate j policy usage now) ≡ true
      → is_allowed (evaluate j policy usage' now) ≡ true
  evaluate_monotone usage usage' d w b h = allowed_of_no_reason (evaluate j policy usage' now) (
      evaluate_reason usage'
      ∙ expected_reason_monotone usage usage' d w b
          (sym (evaluate_reason usage) ∙ no_reason_of_allowed (evaluate j policy usage now) h))
