-- ===== src/Daemon/Denied.antt =====
-- What no sequence of events without a parent can bring about.
use time_bandits.Base.{
  ◌≤◌, ◌≡◌, refl, sym, ◌∙◌, Bool, true, false, Option, Text, all, arith, Bool-cases, inl, inr, some,
  ap, subst,
}
use time_bandits.Jiff.{Jiff, Timestamp}
use time_bandits.Policy.{Policy}
use time_bandits.Schedule.{PolicyDay}
use time_bandits.Engine.{UsageSnapshot, evaluate, is_allowed}
use time_bandits.Engine.Access.{evaluate_monotone}
use time_bandits.Ticker.State.{Answers}
use time_bandits.Ticker.Loop.{tagged}
use time_bandits.Store.Tables.{Tables, snapshot, snapshot_with, bonus_secs}
use time_bandits.Store.Bonus.{counted, BonusFits, snapshot-counted, snapshot_fits}
use time_bandits.Pam.Server.{Days, answer}
use time_bandits.AgentServer.Grants.{handle-SameRights}
use time_bandits.Daemon.{
  Daemon, Event, reported, asked, ticked, stopped, faulted, step, Reaches, here, next,
}
use time_bandits.Daemon.Rounds.{is_proper_tagged, round-proper, final_flush-proper}
use time_bandits.Daemon.Keeping.{
  AreOrdered, Keeps, Keeps-refl, Keeps-trans, Keeps-same, apply_effects-Keeps,
}

module _ (j : Jiff) (date_text : j.Date → Text) (since : j.Date → j.Date → Option Days)
    (local : j.TimeZone) where
  answer-proper :
      (subject : Text) (lock_held : Bool) (answers : Answers j) (now : Timestamp)
      → all is_proper_tagged (tagged subject (answer j since local lock_held answers now).1) ≡ true
  unfolding answer
  answer-proper subject lock_held answers now = ground arith

  step-Keeps :
      (event : Event j) (d : Daemon j)
      → AreOrdered d.shared.tables
      → Keeps d.shared.tables (step j date_text since local event d).shared.tables
  unfolding step
  step-Keeps (reported subject message now) d h =
      let (s, b, p) = handle-SameRights j date_text since local d.shared subject message now in
      Keeps-same d.shared.tables _ h s b
  step-Keeps (asked subject lock_held answers taken now) d h =
      apply_effects-Keeps taken now _ d.shared.tables h
        (answer-proper subject lock_held answers now)
  step-Keeps (ticked tick_interval around taken now) d h =
      apply_effects-Keeps taken now _ d.shared.tables h
        (round-proper j tick_interval around now d.ticker)
  step-Keeps (stopped taken now) d h =
      apply_effects-Keeps taken now _ d.shared.tables h (final_flush-proper j now d.ticker)
  step-Keeps (faulted lock_held readable writable) d h = Keeps-refl d.shared.tables h

  step-policies :
      (event : Event j) (d : Daemon j)
      → (step j date_text since local event d).shared.policies ≡ d.shared.policies
  unfolding step
  step-policies (reported subject message now) d =
      (handle-SameRights j date_text since local d.shared subject message now).2
  step-policies (asked subject lock_held answers taken now) d = refl
  step-policies (ticked tick_interval around taken now) d = refl
  step-policies (stopped taken now) d = refl
  step-policies (faulted lock_held readable writable) d = refl

  Reaches-policies :
      (d e : Daemon j) → Reaches j date_text since local d e → e.shared.policies ≡ d.shared.policies
  Reaches-policies d _ here = refl
  Reaches-policies d _ (next e event r) = step-policies event e ∙ Reaches-policies d e r

  pub Reaches-Keeps :
      (d e : Daemon j)
      → AreOrdered d.shared.tables
      → Reaches j date_text since local d e
      → Keeps d.shared.tables e.shared.tables
  Reaches-Keeps d _ h here = Keeps-refl d.shared.tables h
  Reaches-Keeps d _ h (next e event r) =
      let before = Reaches-Keeps d e h r in
      Keeps-trans d.shared.tables e.shared.tables _ before (step-Keeps event e before.ordered)

  counted-Keeps :
      (a b : Tables) (policy : Policy) (at : Timestamp)
      → Keeps a b
      → let before = (counted j date_text a policy at).0 in
        let after = (counted j date_text b policy at).0 in
        (before.used_today ≤ after.used_today)
        × (before.used_this_week ≤ after.used_this_week)
        × (after.bonus_today ≡ before.bonus_today)
        × (BonusFits j date_text a policy at → BonusFits j date_text b policy at)
  unfolding counted snapshot_with bonus_secs
  counted-Keeps a b policy at k =
      (k.used _ _ _, k.used _ _ _, rw (k.same_bonuses) refl, λ fits. rw (k.same_bonuses) fits)

  -- Whatever happens to a running daemon without a parent, in whatever order, its policies stay the
  -- same ones, and if the usage at a moment could be counted before and the policy denied access at
  -- that moment by it, then the usage at that moment can still be counted and the policy still denies
  -- by it; if no stored segment ends before it starts.
  pub denied_stays_denied :
      (d e : Daemon j) (policy : Policy) (at : Timestamp) (before : UsageSnapshot)
      (day : PolicyDay j)
      → AreOrdered d.shared.tables
      → Reaches j date_text since local d e
      → snapshot j date_text d.shared.tables policy at ≡ some (before, day)
      → is_allowed (evaluate j policy before at) ≡ false
      → (after : UsageSnapshot) × (day' : PolicyDay j) × (e.shared.policies ≡ d.shared.policies)
        × (snapshot j date_text e.shared.tables policy at ≡ some (after, day'))
        × (is_allowed (evaluate j policy after at) ≡ false)
  denied_stays_denied d e policy at before day h r seen denied =
      let (fits, is_before) =
        snapshot-counted j date_text d.shared.tables policy at (before, day) seen in
      let c = counted j date_text e.shared.tables policy at in
      let after = c.0 in
      let (stored_today, stored_week, stored_bonus, still) =
        counted-Keeps d.shared.tables e.shared.tables policy at (Reaches-Keeps d e h r) in
      let at_first = ap (λ s. s.0) is_before in
      let today : before.used_today ≤ after.used_today =
        subst (λ (u : UsageSnapshot). u.used_today ≤ after.used_today) at_first stored_today in
      let week : before.used_this_week ≤ after.used_this_week =
        subst (λ (u : UsageSnapshot). u.used_this_week ≤ after.used_this_week) at_first
          stored_week in
      let bonus : after.bonus_today ≡ before.bonus_today =
        stored_bonus ∙ ap (λ (u : UsageSnapshot). u.bonus_today) at_first in
      (
        after,
        c.1,
        Reaches-policies d e r,
        snapshot_fits j date_text e.shared.tables policy at (still fits),
        elim (Bool-cases (is_allowed (evaluate j policy after at))) [
          | inr stays ↦ stays
          | inl opens ↦
              let again =
                evaluate_monotone j policy at after before today week (omega arith) opens in
              opens ∙ sym again ∙ denied
        ],
      )
