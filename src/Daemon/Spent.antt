-- ===== src/Daemon/Spent.antt =====
-- A quota that is used up, later on the same policy day.
use time_bandits.Base.{
  subst, ◌≤◌, ◌≡◌, ◌⊎◌, refl, sym, ◌∙◌, true, false, Option, none, some, Text, leb, arith,
  Bool-cases, inl, inr, ap,
}
use time_bandits.Jiff.{Jiff, Timestamp}
use time_bandits.Policy.{Policy}
use time_bandits.Schedule.{PolicyDay}
use time_bandits.Engine.{
  UsageSnapshot, DenyReason, evaluate, is_allowed, policy_day_of, daily_quota_exhausted,
  weekly_quota_exhausted, Verdict,
}
use time_bandits.Engine.Access.{reason_of, evaluate_reason, expected_reason}
use time_bandits.Store.Tables.{Tables, snapshot, snapshot_with, usage_between, bonus_secs}
use time_bandits.Store.Bonus.{counted, BonusFits, snapshot-counted, snapshot_fits}
use time_bandits.Store.Usage.{usage_between_split}
use time_bandits.Pam.Server.{Days}
use time_bandits.Daemon.{Daemon, Reaches}
use time_bandits.Daemon.Keeping.{AreOrdered, Keeps, usage_between_backwards}
use time_bandits.Daemon.Denied.{Reaches-Keeps}

usage_between_longer :
    (tables : Tables) (subject : Text) (from now later : Timestamp)
    → AreOrdered tables
    → now ≤ later
    → usage_between tables subject from now ≤ usage_between tables subject from later
usage_between_longer tables subject from now later h le = elim (Bool-cases (leb from now)) [
  | inl forwards ↦
      let split = usage_between_split tables subject from now later h (ground arith) le in
      omega arith
  | inr backwards ↦
      let no_use = usage_between_backwards tables subject from now (ground arith) in omega arith
]

used_later :
    (a b : Tables) (subject : Text) (from now later : Timestamp)
    → Keeps a b
    → now ≤ later
    → usage_between a subject from now ≤ usage_between b subject from later
used_later a b subject from now later k le =
    let kept = k.used subject from now in
    let longer = usage_between_longer b subject from now later k.ordered le in omega arith

-- The reason is one of the two quotas.
abbrev pub IsQuota : Option DenyReason → Type 0
IsQuota reason = (reason ≡ some daily_quota_exhausted) ⊎ (reason ≡ some weekly_quota_exhausted)

allowed_has_no_reason : (v : Verdict) → is_allowed v ≡ true → reason_of v ≡ none
allowed_has_no_reason v h = ground arith

module _ (j : Jiff) (policy : Policy) where
  quota_denies_later :
      (usage usage' : UsageSnapshot) (now later : Timestamp)
      → policy_day_of j policy later ≡ policy_day_of j policy now
      → usage.used_today ≤ usage'.used_today
      → usage.used_this_week ≤ usage'.used_this_week
      → usage'.bonus_today ≡ usage.bonus_today
      → IsQuota (expected_reason j policy now usage)
      → (expected_reason j policy later usage' ≡ none)
      → ⊥
  quota_denies_later usage usage' now later same today week bonus q allowed = ground arith

module _ (j : Jiff) (date_text : j.Date → Text) (since : j.Date → j.Date → Option Days)
    (local : j.TimeZone) where
  snapshot_later :
      (a b : Tables) (policy : Policy) (now later : Timestamp)
      → Keeps a b
      → now ≤ later
      → policy_day_of j policy later ≡ policy_day_of j policy now
      → let before = (counted j date_text a policy now).0 in
        let after = (counted j date_text b policy later).0 in
        (before.used_today ≤ after.used_today)
        × (before.used_this_week ≤ after.used_this_week)
        × (after.bonus_today ≡ before.bonus_today)
        × (BonusFits j date_text a policy now → BonusFits j date_text b policy later)
  unfolding counted snapshot_with bonus_secs
  snapshot_later a b policy now later k le same = rw (same) (
    used_later a b policy.subject _ now later k le,
    used_later a b policy.subject _ now later k le,
    rw (k.same_bonuses) refl,
    λ fits. rw (k.same_bonuses) fits,
  )

  -- A user whose usage can be counted and whose daily or weekly quota is used up stays refused for
  -- the rest of the policy day, whatever happens to a running daemon without a parent, if no stored
  -- segment ends before it starts: at every later moment of that day the usage can be counted, and
  -- the policy does not allow access by it.
  pub spent_stays_spent :
      (d e : Daemon j) (policy : Policy) (now later : Timestamp) (before : UsageSnapshot)
      (day : PolicyDay j)
      → AreOrdered d.shared.tables
      → Reaches j date_text since local d e
      → now ≤ later
      → policy_day_of j policy later ≡ policy_day_of j policy now
      → snapshot j date_text d.shared.tables policy now ≡ some (before, day)
      → IsQuota (reason_of (evaluate j policy before now))
      → (after : UsageSnapshot) × (day' : PolicyDay j) × (snapshot j date_text e.shared.tables
            policy later
          ≡ some (after, day'))
        × (is_allowed (evaluate j policy after later) ≡ false)
  spent_stays_spent d e policy now later before day h r le same seen q =
      let (fits, is_before) =
        snapshot-counted j date_text d.shared.tables policy now (before, day) seen in
      let c = counted j date_text e.shared.tables policy later in
      let (stored_today, stored_week, stored_bonus, still) =
        snapshot_later d.shared.tables e.shared.tables policy now later
          (Reaches-Keeps j date_text since local d e h r) le same in
      let after = c.0 in
      let at_first = ap (λ s. s.0) is_before in
      let today : before.used_today ≤ after.used_today =
        subst (λ (u : UsageSnapshot). u.used_today ≤ after.used_today) at_first stored_today in
      let week : before.used_this_week ≤ after.used_this_week =
        subst (λ (u : UsageSnapshot). u.used_this_week ≤ after.used_this_week) at_first
          stored_week in
      let bonus : after.bonus_today ≡ before.bonus_today =
        stored_bonus ∙ ap (λ (u : UsageSnapshot). u.bonus_today) at_first in
      let spent = subst IsQuota (evaluate_reason j policy now before) q in
      (
        after,
        c.1,
        snapshot_fits j date_text e.shared.tables policy later (still fits),
        elim (Bool-cases (is_allowed (evaluate j policy after later))) [
          | inr stays ↦ stays
          | inl opens ↦ absurd (
              quota_denies_later j policy before after now later same today week bonus spent (
                sym (evaluate_reason j policy later after)
                ∙ allowed_has_no_reason (evaluate j policy after later) opens))
        ],
      )
