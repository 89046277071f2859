-- ===== src/Ticker/User/Gates.antt =====
-- What a tick may do at all: no intervention for a user who is not managed, and none outside the
-- sessions that may be locked.
use time_bandits.Base.{
  ◌≡◌, ◌⊎◌, refl, Bool, true, false, ◌&&◌, not, none, some, List, [], all, any, arith,
  if◌then◌else◌, Option, ◌∷◌, Option-cases, inl, inr,
}
use time_bandits.Jiff.{Jiff, Timestamp}
use time_bandits.Policy.{Policy}
use time_bandits.Schedule.{PolicyDay}
use time_bandits.Engine.{Allowance, UsageSnapshot, evaluate, allowed, denied, daily_quota_exhausted}
use time_bandits.Logind.{SessionInfo, is_creditable_desktop}
use time_bandits.Ticker.State.{UserState, Answers, Outcome, done, failed}
use time_bandits.Ticker.Effects.{count, is_intervention, recorded}
use time_bandits.Ticker.Enforce.Targets.{targets_lockable, enforce-targets}
use time_bandits.Ticker.Enforce.{enforce}
use time_bandits.Ticker.Warnings.{on_allowed, announce_crossed}
use time_bandits.Ticker.Decide.{is_blind, is_managed, locks_immediately, decide, apply_verdict}
use time_bandits.Ticker.Observe.{build_tick, observe_user}
use time_bandits.Usage.{ClosedSegment, UsageSegment, observe}
use time_bandits.Ticker.User.{tick_policy}

module _ (j : Jiff) (sessions : List SessionInfo) (now : Timestamp) (answers : Answers j)
    (policy : Policy) where
  -- The emergency brake is pulled, or the user is not known to be in the managed group.
  abbrev pub HandsOff : Type 0
  HandsOff = (answers.disabled ≡ true) ⊎ (is_managed answers.member ≡ false)

  decide_hands_off :
      (at_work blind : Bool) (state : UserState j)
      → HandsOff
      → let o = decide j sessions policy at_work blind now answers state in
        (o.effects ≡ []) × (o.state.phase ≡ state.phase) × (o.state.builder ≡ state.builder)
  unfolding decide
  decide_hands_off at_work blind state h = ground arith

  observe_user-phase :
      (at_work blind : Bool) (state : UserState j)
      → (observe_user j policy at_work blind now answers state).1.phase ≡ state.phase
  unfolding observe_user
  observe_user-phase at_work blind state = refl

  -- The segment that a tick ends, if it can be written.
  abbrev pub written : Bool → Option ClosedSegment → List UsageSegment
  written true (some c) = c.segment ∷ []
  written _ _ = []

  -- With the emergency brake pulled, or for a user who is not known to be managed, a tick still
  -- observes the user: it keeps the builder that has seen the tick and writes the segment that this
  -- ended, if the store takes it; but it warns of nothing, closes, locks and ends nothing, and leaves
  -- the escalation where it was.
  pub tick_hands_off :
      (state : UserState j)
      → HandsOff
      → let o = tick_policy j sessions now answers policy state in
        let tick =
          build_tick j state policy (any is_creditable_desktop sessions) now answers.report in
        let seen = observe j answers.new_id state.builder tick in
        (count is_intervention o.effects ≡ 0)
        × (o.state.phase ≡ state.phase)
        × (o.state.builder ≡ seen.1)
        × (recorded o.effects ≡ written answers.segment_written seen.0)
  unfolding tick_policy observe_user
  tick_hands_off state h =
      let at_work = any is_creditable_desktop sessions in
      let blind = is_blind at_work answers.report in
      let seen = (observe_user j policy at_work blind now answers state).1 in
      let quiet = decide_hands_off at_work blind seen h in
      let kept = observe_user-phase at_work blind state in
      let tick = build_tick j state policy at_work now answers.report in
      elim (Option-cases (observe j answers.new_id state.builder tick).0) [
        | inl e ↦ (ground arith, ground arith, ground arith, ground arith)
        | inr (c, e) ↦ (ground arith, ground arith, ground arith, ground arith)
      ]

  on_allowed-targets :
      (day : PolicyDay j) (at_work : Bool) (a : Allowance) (state : UserState j)
      → all (targets_lockable sessions) (on_allowed j policy day at_work a state).effects ≡ true
  unfolding on_allowed announce_crossed
  on_allowed-targets day at_work a state = ground arith

  apply_verdict-targets :
      (snapshot : UsageSnapshot) (day : PolicyDay j) (at_work : Bool) (state : UserState j)
      → all
          (targets_lockable sessions)
          (apply_verdict j sessions policy snapshot day at_work now answers.event_written
            state).effects
        ≡ true
  unfolding apply_verdict
  apply_verdict-targets snapshot day at_work state =
      elim (evaluate j policy snapshot now)
        as (λ v.
          all (targets_lockable sessions)
            (elim v as (λ _. Outcome (UserState j)) [
              | allowed a ↦ on_allowed j policy day at_work a state
              | denied d ↦ enforce j sessions policy d.reason now answers.event_written state
            ]).effects
          ≡ true) [
            | allowed a ↦ on_allowed-targets day at_work a state
            | denied d ↦ enforce-targets j sessions policy d.reason now answers.event_written state
          ]

  decide-targets :
      (at_work blind : Bool) (state : UserState j)
      → all
          (targets_lockable sessions)
          (decide j sessions policy at_work blind now answers state).effects
        ≡ true
  unfolding decide
  decide-targets at_work blind state =
      let tampered =
        enforce-targets j sessions policy daily_quota_exhausted now answers.event_written state in
      elim answers.snapshot
        as (λ s.
          all (targets_lockable sessions)
            (if answers.disabled
              then done state []
              else if not (is_managed answers.member)
              then done (record state { unmanaged_reported = true }) []
              else if blind && locks_immediately policy.on_tamper
              then enforce j sessions policy daily_quota_exhausted now answers.event_written state
              else elim s as (λ _. Outcome (UserState j)) [
                | none ↦ failed state []
                | some (snapshot, day) ↦
                    apply_verdict j sessions policy snapshot day at_work now answers.event_written
                      state
              ]).effects
          ≡ true) [
            | none ↦ ground arith
            | some (snapshot, day) ↦
                let verdict = apply_verdict-targets snapshot day at_work state in ground arith
          ]

  -- Whatever the policy, the verdict, the reports and the store say, every session that a tick locks
  -- or ends is one of the user's that may be locked: of class `user` and not remote.
  pub tick-targets :
      (state : UserState j)
      → all (targets_lockable sessions) (tick_policy j sessions now answers policy state).effects
        ≡ true
  unfolding tick_policy
  tick-targets state =
      let at_work = any is_creditable_desktop sessions in
      let blind = is_blind at_work answers.report in
      let seen = (observe_user j policy at_work blind now answers state).1 in
      let rest = decide-targets at_work blind seen in ground arith
