-- ===== src/Engine/Remaining.antt =====
-- How much time an allowance leaves, when it ends, and which warning comes next.
use time_bandits.Base.{
  ◌+◌, ◌*◌, ◌<◌, ◌≤◌, ◌≡◌, ◌⊎◌, inl, inr, refl, sym, ◌∙◌, ap, map_option, if◌then◌else◌, not, true,
  Option, none, some, find, ltb, arith, Option-cases, Bool-cases, List, [], ◌∷◌,
}
use time_bandits.Jiff.{Jiff, IsLawful, Timestamp, secs_until, nanos_per_sec}
use time_bandits.Duration.{DurationSpec, as_secs, from_secs, zero_duration}
use time_bandits.Schedule.{PolicyDay, get}
use time_bandits.Policy.{Policy, is_empty, sorted_warnings}
use time_bandits.Policy.Warnings.{
  has, sorted_warnings_lem, find-Descends, find-none-Descends, has-find,
}
use time_bandits.Windows.{Interval, concrete_windows}
use time_bandits.Windows.Merging.{within}
use time_bandits.Engine.{
  UsageSnapshot, LimitedBy, nothing, daily_quota, weekly_quota, window, Allowance, Verdict, allowed,
  denied, tightest, allowance, daily_remaining, weekly_remaining, next_warning_for,
  unlimited_allowance, check_windows, check_quotas, evaluate, zone_of, policy_day_of,
}

-- `remaining` is the smallest of the bounds that exist, and `limited_by` names one that it is.
pub record IsTightest (daily weekly left : Option DurationSpec) (remaining : Option DurationSpec)
    (by : LimitedBy) : Type 0 where
  pub within_daily : (r c : DurationSpec) → remaining ≡ some r → daily ≡ some c → r ≤ c
  pub within_weekly : (r c : DurationSpec) → remaining ≡ some r → weekly ≡ some c → r ≤ c
  pub within_window : (r c : DurationSpec) → remaining ≡ some r → left ≡ some c → r ≤ c
  pub by_nothing :
      by ≡ nothing → (remaining ≡ none) × (daily ≡ none) × (weekly ≡ none) × (left ≡ none)
  pub by_daily : by ≡ daily_quota → (r : DurationSpec) × (remaining ≡ some r) × (daily ≡ some r)
  pub by_weekly : by ≡ weekly_quota → (r : DurationSpec) × (remaining ≡ some r) × (weekly ≡ some r)
  pub by_window : by ≡ window → (r : DurationSpec) × (remaining ≡ some r) × (left ≡ some r)

tightest-IsTightest :
    (daily weekly left : Option DurationSpec)
    → IsTightest daily weekly left (tightest daily weekly left).0 (tightest daily weekly left).1
unfolding tightest
tightest-IsTightest daily weekly left = record {
  within_daily = λ r c p q. ground arith;
  within_weekly = λ r c p q. ground arith;
  within_window = λ r c p q. ground arith;
  by_nothing = λ e. ground arith;
  by_daily = λ e. ground arith;
  by_weekly = λ e. ground arith;
  by_window = λ e. ground arith;
}

-- The next warning is below what remains, is a configured threshold or zero, and no configured
-- threshold lies between.
pub record IsNextWarning (policy : Policy) (r w : DurationSpec) : Type 0 where
  pub below : w < r
  pub configured : (has w policy.warnings ≡ true) ⊎ (w ≡ zero_duration)
  pub next : (v : DurationSpec) → has v policy.warnings ≡ true → v < r → v ≤ w

next_warning_for-IsNextWarning :
    (policy : Policy) (r w : DurationSpec)
    → next_warning_for policy r ≡ some w
    → IsNextWarning policy r w
unfolding next_warning_for
next_warning_for-IsNextWarning policy r w e =
    let (down, same) = sorted_warnings_lem policy in
    elim (Option-cases (find (λ x. ltb x r) (sorted_warnings policy))) [
      | inl q ↦ record {
        below = ground arith;
        configured = inr (ground arith);
        next = λ v m l.
            let far = find-none-Descends r (sorted_warnings policy) q v (same v ∙ m) in
            absurd (omega arith);
      }
      | inr (x, q) ↦
          let found = find-Descends r (sorted_warnings policy) down x q in
          let is : x ≡ w = ground arith in
          record {
            below = rw (← is) found.0;
            configured = inl (rw (← is) (sym (same x) ∙ has-find r (sorted_warnings policy) x q));
            next = λ v m l. rw (← is) (found.1 v (same v ∙ m) l);
          }
    ]

-- The end of a window that is open, and the whole seconds until then.
abbrev end_of : Option Interval → Option Timestamp
end_of = map_option (λ (iv : Interval). iv.end)

abbrev pub left_of : Timestamp → Option Interval → Option DurationSpec
left_of now = map_option (λ (iv : Interval). from_secs (secs_until now iv.end))

left_of-end_of :
    (now : Timestamp) (open? : Option Interval)
    → map_option (λ end. from_secs (secs_until now end)) (end_of open?) ≡ left_of now open?
left_of-end_of now none = refl
left_of-end_of now (some iv) = refl

within-find :
    (t : Timestamp) (ivs : List Interval) (iv : Interval)
    → find (within t) ivs ≡ some iv
    → within t iv ≡ true
within-find t [] iv e = absurd (ground arith)
within-find t (x ∷ ivs) iv e = elim (Bool-cases (within t x)) [
  | inl q ↦ let is : x ≡ iv = ground arith in rw (← is) q
  | inr q ↦ within-find t ivs iv (ground arith)
]

module _ (j : Jiff) (policy : Policy) (usage : UsageSnapshot) (now : Timestamp) where
  -- The merged window that contains the moment, if the day has windows.
  abbrev pub current_window : Option Interval
  current_window =
      let pd = policy_day_of j policy now in
      let windows = get policy.allowed_windows pd.day in
      if is_empty windows
      then none
      else find (within now) (concrete_windows j pd windows policy.day_start (zone_of j policy))

  abbrev pub window_left : Option DurationSpec
  window_left = left_of now current_window

  check_windows-current :
      (end : Option Timestamp)
      → check_windows j policy (policy_day_of j policy now) (zone_of j policy) now ≡ inr end
      → end ≡ (end_of current_window)
  unfolding check_windows
  check_windows-current end e = ground arith

  allowance-IsTightest :
      (daily weekly : Option DurationSpec)
      → let a = allowance j policy daily weekly (end_of current_window) now in
        IsTightest daily weekly window_left a.remaining a.limited_by
  unfolding allowance
  allowance-IsTightest daily weekly =
      rw (left_of-end_of now current_window) (tightest-IsTightest daily weekly window_left)

  allowance_expiry :
      (daily weekly : Option DurationSpec) (end : Option Timestamp) (t : Timestamp)
      → let a = allowance j policy daily weekly end now in
        a.expires_at ≡ some t
        → (r : DurationSpec) × (a.remaining ≡ some r) × (j.add_secs now (as_secs r) ≡ some t)
  unfolding allowance
  allowance_expiry daily weekly end t x = ground arith

  allowance_warning :
      (daily weekly : Option DurationSpec) (end : Option Timestamp) (w : DurationSpec)
      → let a = allowance j policy daily weekly end now in
        a.next_warning ≡ some w
        → (r : DurationSpec) × (a.remaining ≡ some r) × (next_warning_for policy r ≡ some w)
  unfolding allowance
  allowance_warning daily weekly end w x = ground arith

  within-current_window : (iv : Interval) → current_window ≡ some iv → within now iv ≡ true
  within-current_window iv e =
      within-find now
        (concrete_windows j (policy_day_of j policy now)
          (get policy.allowed_windows (policy_day_of j policy now).day) policy.day_start
          (zone_of j policy))
        iv (ground arith)

  check_quotas-eq-allowed :
      (pd : PolicyDay j) (tz : j.TimeZone) (end : Option Timestamp) (a : Allowance)
      → check_quotas j policy usage pd tz now end ≡ allowed a
      → a
        ≡ allowance j policy
            (daily_remaining policy usage j pd)
            (weekly_remaining policy usage)
            end
            now
  unfolding check_quotas
  check_quotas-eq-allowed pd tz end a e = ground arith

  evaluate-eq-allowed :
      (a : Allowance)
      → policy.enforcement ≡ true
      → evaluate j policy usage now ≡ allowed a
      → a
        ≡ allowance j policy
            (daily_remaining policy usage j (policy_day_of j policy now))
            (weekly_remaining policy usage)
            (end_of current_window)
            now
  unfolding evaluate
  evaluate-eq-allowed a on e =
      let pd = policy_day_of j policy now in
      let tz = zone_of j policy in
      elim (check_windows j policy pd tz now)
          as (λ c.
            check_windows j policy pd tz now ≡ c
            → (if not policy.enforcement
                then allowed unlimited_allowance
                else elim c as (λ _. Verdict) [
                  | inl d ↦ denied d
                  | inr window_end ↦ check_quotas j policy usage pd tz now window_end
                ])
              ≡ allowed a
            → a
              ≡ allowance j policy (daily_remaining policy usage j pd)
                  (weekly_remaining policy usage) (end_of current_window) now) [
                    | inl d ↦ λ c q. absurd (ground arith)
                    | inr end ↦ λ c q.
                        rw (← check_windows-current end c)
                          (check_quotas-eq-allowed pd tz end a (ground arith))
                  ]
        refl e

  -- If enforcement is on and access is allowed, the remaining time is the smallest of the daily
  -- rest with the bonus, the weekly rest and the time to the end of the window that is open, as far
  -- as these bounds exist, and `limited_by` names a bound that it is.
  pub evaluate-IsTightest :
      (a : Allowance)
      → policy.enforcement ≡ true
      → evaluate j policy usage now ≡ allowed a
      → IsTightest
          (daily_remaining policy usage j (policy_day_of j policy now))
          (weekly_remaining policy usage)
          window_left
          a.remaining
          a.limited_by
  evaluate-IsTightest a on e = rw (evaluate-eq-allowed a on e) (allowance-IsTightest _ _)

  -- If enforcement is on and access is allowed, an allowance ends after its remaining time in whole
  -- seconds, and never after the window that is open.
  pub evaluate_expiry :
      IsLawful j
      → (a : Allowance) (t : Timestamp) → policy.enforcement ≡ true
      → evaluate j policy usage now ≡ allowed a
      → a.expires_at ≡ some t
      → ((r : DurationSpec) × (a.remaining ≡ some r) × (t ≡ now + as_secs r * nanos_per_sec))
        × ((iv : Interval) → current_window ≡ some iv → t ≤ iv.end)
  evaluate_expiry lawful a t on e x =
      let a-eq = evaluate-eq-allowed a on e in
      let (r, rest, sum) =
        allowance_expiry _ _ _ t (ap (λ (z : Allowance). z.expires_at) (sym a-eq) ∙ x) in
      let rest' : a.remaining ≡ some r = ap (λ (z : Allowance). z.remaining) a-eq ∙ rest in
      let exact = lawful.add_secs_exact now (as_secs r) t sum in
      let bound = evaluate-IsTightest a on e in
      (
        (r, rest', exact),
        λ iv c.
            let inside = within-current_window iv c in
            let left : window_left ≡ some (from_secs (secs_until now iv.end)) =
              ap (left_of now) c in
            let most = bound.within_window r (from_secs (secs_until now iv.end)) rest' left in
            ground arith,
      )

  -- If enforcement is on, access is allowed and a threshold is to be warned of next, that threshold is the largest configured one
  -- below the remaining time, or zero where none is below it.
  pub evaluate_warning :
      (a : Allowance) (w : DurationSpec)
      → policy.enforcement ≡ true
      → evaluate j policy usage now ≡ allowed a
      → a.next_warning ≡ some w
      → (r : DurationSpec) × (a.remaining ≡ some r) × IsNextWarning policy r w
  evaluate_warning a w on e x =
      let a-eq = evaluate-eq-allowed a on e in
      let (r, rest, warns) =
        allowance_warning _ _ _ w (ap (λ (z : Allowance). z.next_warning) (sym a-eq) ∙ x) in
      (
        r,
        ap (λ (z : Allowance). z.remaining) a-eq ∙ rest,
        next_warning_for-IsNextWarning policy r w warns,
      )
