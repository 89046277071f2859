-- ===== src/Daemon/Ordered.antt =====
-- What the parts of the daemon ask the store to keep: segments that end after they start.
use time_bandits.Base.{
  ◌≡◌, refl, Bool, true, ◌&&◌, Option, none, some, List, [], ◌∷◌, Text, map, keep, any, all,
  all-append, not, leb, arith, if_elim, Option-cases, inl, inr,
}
use time_bandits.Jiff.{Jiff, Timestamp}
use time_bandits.Usage
use time_bandits.Usage.{
  Uuid, ClosedSegment, SegmentBuilder, Tick, CloseReason, close, close_and_start, observe,
  observe_with, observe_open,
}
use time_bandits.Policy.{Policy, is_empty}
use time_bandits.Schedule.{PolicyDay}
use time_bandits.Engine.{DenyReason, daily_quota_exhausted, Allowance, UsageSnapshot, evaluate}
use time_bandits.Logind.{SessionInfo, is_lockable, is_creditable_desktop}
use time_bandits.Ticker.State.{
  Answers, Effect, Outcome, Phase, UserState, running, grace, enforced, locked, ids,
}
use time_bandits.Ticker.Enforce.{enforce, enforce_phase}
use time_bandits.Ticker.Warnings.{on_allowed, announce_crossed}
use time_bandits.Ticker.Decide.{apply_verdict, decide, is_blind, is_managed, locks_immediately}
use time_bandits.Ticker.Observe.{observe_user, build_tick}
use time_bandits.Ticker.User.{tick_policy}
use time_bandits.Pam.Login.{Verdict-cases}

-- No segment, or one that ends after it starts.
abbrev pub is_proper : Effect → Bool
is_proper (Effect.insert_segment seg) = leb seg.start seg.end
is_proper _ = true

abbrev pub is_proper_segment : Option ClosedSegment → Bool
is_proper_segment none = true
is_proper_segment (some c) = leb c.segment.start c.segment.end

module _ (j : Jiff) where
  close_proper :
      (b : SegmentBuilder) (reason : CloseReason) (at : Option Timestamp)
      → is_proper_segment (close j b reason at).0 ≡ true
  unfolding close
  close_proper b reason at = ground arith

  pub observe_proper :
      (id : Uuid) (b : SegmentBuilder) (tick : Tick)
      → is_proper_segment (observe j id b tick).0 ≡ true
  unfolding observe observe_with observe_open close_and_start close
  observe_proper id b tick = ground arith

  pub flush_proper :
      (b : SegmentBuilder) (at : Timestamp) → is_proper_segment (Usage.flush j b at).0 ≡ true
  unfolding Usage.flush close
  flush_proper b at = ground arith

all_proper-lock : (ids : List Text) → all is_proper (map Effect.lock_session ids) ≡ true
all_proper-lock [] = refl
all_proper-lock (t ∷ rest) = let r = all_proper-lock rest in ground arith

all_proper-terminate : (ids : List Text) → all is_proper (map Effect.terminate_session ids) ≡ true
all_proper-terminate [] = refl
all_proper-terminate (t ∷ rest) = let r = all_proper-terminate rest in ground arith

-- The effects of a part of a tick are proper.
abbrev pub AreProper : {S : Type 0} → Outcome S → Type 0
AreProper o = all is_proper o.effects ≡ true

module _ (j : Jiff) (sessions : List SessionInfo) (policy : Policy) (now : Timestamp) where
  enforce_phase-AreProper :
      (reason : DenyReason) (written : Bool) (state : UserState j) (lockable : List SessionInfo)
      (phase : Phase)
      → AreProper (enforce_phase j policy reason now written state lockable phase)
  unfolding enforce_phase
  enforce_phase-AreProper reason written state lockable running =
      let locks = all_proper-lock (ids lockable) in
      let split =
        all-append is_proper (map Effect.lock_session (ids lockable))
          (Effect.record_event locked ∷ []) in
      ground arith
  enforce_phase-AreProper reason written state lockable (grace since) =
      let ends = all_proper-terminate (ids lockable) in ground arith
  enforce_phase-AreProper reason written state lockable enforced =
      let locks = all_proper-lock (ids (keep (λ (s : SessionInfo). not s.locked) lockable)) in
      ground arith

  enforce-AreProper :
      (reason : DenyReason) (written : Bool) (state : UserState j)
      → AreProper (enforce j sessions policy reason now written state)
  unfolding enforce
  enforce-AreProper reason written state =
      let lockable = keep is_lockable sessions in
      if_elim AreProper (is_empty lockable) _ _ (λ _. refl)
        (λ _. enforce_phase-AreProper reason written state lockable state.phase)

  on_allowed-AreProper :
      (day : PolicyDay j) (at_work : Bool) (a : Allowance) (state : UserState j)
      → AreProper (on_allowed j policy day at_work a state)
  unfolding on_allowed announce_crossed
  on_allowed-AreProper day at_work a state = ground arith

  apply_verdict-AreProper :
      (snapshot : UsageSnapshot) (day : PolicyDay j) (at_work written : Bool) (state : UserState j)
      → AreProper (apply_verdict j sessions policy snapshot day at_work now written state)
  unfolding apply_verdict
  apply_verdict-AreProper snapshot day at_work written state =
      elim (Verdict-cases (evaluate j policy snapshot now)) [
        | inl (a, v) ↦ let quiet = on_allowed-AreProper day at_work a state in ground arith
        | inr (d, v) ↦ let strict = enforce-AreProper d.reason written state in ground arith
      ]

  decide-AreProper :
      (at_work blind : Bool) (answers : Answers j) (state : UserState j)
      → AreProper (decide j sessions policy at_work blind now answers state)
  unfolding decide
  decide-AreProper at_work blind answers state =
      if_elim AreProper answers.disabled _ _ (λ _. refl)
        (λ _.
          if_elim AreProper (not (is_managed answers.member)) _ _ (λ _. refl)
            (λ _.
              if_elim AreProper (blind && locks_immediately policy.on_tamper) _ _
                (λ _. enforce-AreProper daily_quota_exhausted answers.event_written state)
                (λ _. elim (Option-cases answers.snapshot) [
                  | inl e ↦ rw (e) refl
                  | inr ((snapshot, day), e) ↦
                      rw (e)
                        (apply_verdict-AreProper snapshot day at_work answers.event_written state)
                ])))

  pub tick_policy-AreProper :
      (answers : Answers j) (state : UserState j)
      → AreProper (tick_policy j sessions now answers policy state)
  unfolding tick_policy observe_user
  tick_policy-AreProper answers state =
      let at_work = any is_creditable_desktop sessions in
      let blind = is_blind at_work answers.report in
      let (closed, state') = observe_user j policy at_work blind now answers state in
      let seen =
        observe_proper j answers.new_id state.builder
          (build_tick j state policy at_work now answers.report) in
      let rest = decide-AreProper at_work blind answers state' in
      elim (Option-cases closed) [ inl e ↦ ground arith | inr (c, e) ↦ ground arith ]
