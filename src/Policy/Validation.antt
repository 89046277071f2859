-- ===== src/Policy/Validation.antt =====
-- What a validated policy satisfies.
use time_bandits.Base.{
  ◌≤◌, ◌≡◌, ◌≢◌, ◌↔◌, ◌⊎◌, refl, true, false, none, List, [], ◌∷◌, All, find, trim, is_some, arith,
}
use time_bandits.Jiff.{Jiff}
use time_bandits.Duration.{DurationSpec, as_secs}
use time_bandits.Schedule.{
  Day, monday, tuesday, wednesday, thursday, friday, saturday, sunday, all_days, TimeWindow, get,
}
use time_bandits.Policy.{
  Policy, limited, limit, is_empty, is_zero_limit, window_empty, check_day, check_days,
  check_weekly, max_daily, all_days_limited, Quota, unlimited, validate,
}

-- A day has no empty window, and no windows beside a quota of zero.
pub record DayConsistent (p : Policy) (d : Day) : Type 0 where
  pub windows_open : All (λ (w : TimeWindow). w.start ≢ w.end) (get p.allowed_windows d)
  pub no_contradiction :
      (is_empty (get p.allowed_windows d) ≡ true)
      ⊎ (is_zero_limit (limit (get p.daily_quota d)) ≡ false)

pub record Consistent (j : Jiff) (p : Policy) : Type 0 where
  pub named : is_empty (trim p.subject) ≡ false
  pub zoned : is_some (j.get_zone p.timezone) ≡ true
  pub days : (d : Day) → DayConsistent p d
  pub reachable :
      (weekly : DurationSpec)
      → p.weekly_quota ≡ limited weekly
      → all_days_limited p ≡ true
      → as_secs weekly ≤ max_daily p

find-window_empty :
    (ws : List TimeWindow)
    → (find window_empty ws ≡ none) ↔ All (λ (w : TimeWindow). w.start ≢ w.end) ws
find-window_empty [] = (λ e. tt, λ a. refl)
find-window_empty (w ∷ ws) = (
  λ e. (ground arith, (find-window_empty ws).0 (ground arith)),
  λ a. let rest = (find-window_empty ws).1 a.1 in let differs = a.0 in ground arith,
)

check_day-eq_none :
    (p : Policy) (d : Day)
    → (check_day p d ≡ none)
      ↔ (find window_empty (get p.allowed_windows d) ≡ none)
        × ((is_empty (get p.allowed_windows d) ≡ true)
            ⊎ (is_zero_limit (limit (get p.daily_quota d)) ≡ false))
unfolding check_day
check_day-eq_none p d = ground arith

check_day_iff : (p : Policy) (d : Day) → (check_day p d ≡ none) ↔ DayConsistent p d
check_day_iff p d = (
  λ e.
      let q = (check_day-eq_none p d).0 e in
      record { windows_open = (find-window_empty _).0 q.0; no_contradiction = q.1 },
  λ c. (check_day-eq_none p d).1 ((find-window_empty _).1 c.windows_open, c.no_contradiction),
)

check_days-eq_none :
    (p : Policy) (days : List Day)
    → (check_days p days ≡ none) ↔ All (λ d. check_day p d ≡ none) days
unfolding check_days
check_days-eq_none p [] = (λ e. tt, λ a. refl)
check_days-eq_none p (day ∷ rest) = (
  λ e. (ground arith, (check_days-eq_none p rest).0 (ground arith)),
  λ a. let first = a.0 in let later = (check_days-eq_none p rest).1 a.1 in ground arith,
)

day_of_All : (P : Day → Type 0) → All P all_days → (d : Day) → P d
day_of_All P a monday = a.0
day_of_All P a tuesday = a.1.0
day_of_All P a wednesday = a.1.1.0
day_of_All P a thursday = a.1.1.1.0
day_of_All P a friday = a.1.1.1.1.0
day_of_All P a saturday = a.1.1.1.1.1.0
day_of_All P a sunday = a.1.1.1.1.1.1.0

All-of_days : (P : Day → Type 0) → ((d : Day) → P d) → All P all_days
All-of_days P h =
    (h monday, (h tuesday, (h wednesday, (h thursday, (h friday, (h saturday, (h sunday, tt)))))))

check_weekly_iff :
    (p : Policy) (q : Quota)
    → (check_weekly p q ≡ none) ↔ (
        (weekly : DurationSpec)
        → q ≡ limited weekly
        → all_days_limited p ≡ true
        → as_secs weekly ≤ max_daily p)
unfolding check_weekly
check_weekly_iff p unlimited = (λ e weekly q a. ground arith, λ h. refl)
check_weekly_iff p (limited w) =
    (λ e weekly q a. ground arith, λ h. let bound = h w refl in ground arith)

module _ (j : Jiff) (p : Policy) where
  validate-eq_none :
      (validate j p ≡ none)
      ↔ (is_empty (trim p.subject) ≡ false)
        × (is_some (j.get_zone p.timezone) ≡ true)
        × (check_days p all_days ≡ none)
        × (check_weekly p p.weekly_quota ≡ none)
  unfolding validate
  validate-eq_none = ground arith

  -- `validate` accepts a policy exactly when it has a subject and a known time zone, no day has an
  -- empty window or windows beside a quota of zero, and, if every day is limited, the weekly quota
  -- is at most the sum of the daily ones.
  pub validate_iff : (validate j p ≡ none) ↔ Consistent j p
  validate_iff = (
    λ e.
        let q = validate-eq_none.0 e in
        record {
          named = q.0;
          zoned = q.1;
          days = λ d.
              (check_day_iff p d).0
                (day_of_All (λ d. check_day p d ≡ none) ((check_days-eq_none p all_days).0 q.2) d);
          reachable = (check_weekly_iff p p.weekly_quota).0 q.3;
        },
    λ c. validate-eq_none.1 (
      c.named,
      c.zoned,
      (check_days-eq_none p all_days).1
          (All-of_days (λ d. check_day p d ≡ none) (λ d. (check_day_iff p d).1 (c.days d))),
      (check_weekly_iff p p.weekly_quota).1 c.reachable,
    ),
  )
