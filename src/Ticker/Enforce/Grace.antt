-- ===== src/Ticker/Enforce/Grace.antt =====
-- What each lock action does to a session: `lock` never ends one, `terminate` never locks one, and
-- none is ended before the grace period is over.
use time_bandits.Base.{◌≤◌, ◌<◌, ◌≡◌, refl, Bool, true, false, not, List, [], ◌∷◌, map, keep, arith}
use time_bandits.Jiff.{Jiff, Timestamp, secs_until}
use time_bandits.Duration.{as_secs}
use time_bandits.Policy.{Policy, lock, terminate}
use time_bandits.Engine.{DenyReason}
use time_bandits.Logind.{SessionInfo, is_lockable}
use time_bandits.Ticker.State.{
  lock_session, record_event, UserState, Phase, running, grace, enforced, locked, ids,
}
use time_bandits.Ticker.Effects.{
  count, is_lock, is_termination, count-append, count-lock, count-terminate,
}
use time_bandits.Ticker.Enforce.{enforce_phase, enforce}
use time_bandits.Ticker.Enforce.Edge.{Denied, enforce_all}

abbrev pub in_grace : Phase → Bool
in_grace (grace _) = true
in_grace _ = false

module _ (j : Jiff) (sessions : List SessionInfo) (policy : Policy) (reason : DenyReason)
    (now : Timestamp) (written : Bool) (state : UserState j) where
  enforce_phase-terminations :
      (chosen : List SessionInfo) (phase : Phase)
      → 0
        < count is_termination
            (enforce_phase j policy reason now written state chosen phase).effects
      → (since : Timestamp) × (phase ≡ grace since)
        × (as_secs policy.grace_period ≤ secs_until since now)
  unfolding enforce_phase
  enforce_phase-terminations chosen running h = absurd (
      ground (
        arith,
        count-lock is_termination (λ t. refl) (ids chosen),
        count-append is_termination (map lock_session (ids chosen)) (record_event locked ∷ []),
      ))
  enforce_phase-terminations chosen (grace since) h = (since, refl, ground arith)
  enforce_phase-terminations chosen enforced h = absurd (
      ground (
        arith,
        count-lock is_termination (λ t. refl)
            (ids (keep (λ (s : SessionInfo). not s.locked) chosen)),
      ))

  -- A session is ended only by a tick that finds the user in the grace period, and only once the
  -- configured period has passed since that began.
  pub enforce-terminations :
      0 < count is_termination (enforce j sessions policy reason now written state).effects
      → (since : Timestamp) × (state.phase ≡ grace since)
        × (as_secs policy.grace_period ≤ secs_until since now)
  unfolding enforce
  enforce-terminations h =
      enforce_phase-terminations (keep is_lockable sessions) state.phase (ground arith)

module _ (j : Jiff) where
  lock_phase :
      (d : Denied) (state : UserState j) (chosen : List SessionInfo) (phase : Phase)
      → d.policy.on_exhausted ≡ lock
      → in_grace phase ≡ false
      → in_grace state.phase ≡ false
      → let o = enforce_phase j d.policy d.reason d.now d.written state chosen phase in
        (count is_termination o.effects ≡ 0) × (in_grace o.state.phase ≡ false)
  unfolding enforce_phase
  lock_phase d state chosen running a g g' = ground (
    arith,
    count-lock is_termination (λ t. refl) (ids chosen),
    count-append is_termination (map lock_session (ids chosen)) (record_event locked ∷ []),
  )
  lock_phase d state chosen (grace since) a g g' = absurd (ground arith)
  lock_phase d state chosen enforced a g g' = ground (
    arith,
    count-lock is_termination (λ t. refl) (ids (keep (λ (s : SessionInfo). not s.locked) chosen)),
  )

  lock_step :
      (d : Denied) (state : UserState j)
      → d.policy.on_exhausted ≡ lock
      → in_grace state.phase ≡ false
      → let o = enforce j d.sessions d.policy d.reason d.now d.written state in
        (count is_termination o.effects ≡ 0) × (in_grace o.state.phase ≡ false)
  unfolding enforce
  lock_step d state a g =
      let inner = lock_phase d state (keep is_lockable d.sessions) state.phase a g g in ground arith

  terminate_phase :
      (d : Denied) (state : UserState j) (chosen : List SessionInfo) (phase : Phase)
      → d.policy.on_exhausted ≡ terminate
      → count is_lock (enforce_phase j d.policy d.reason d.now d.written state chosen phase).effects
        ≡ 0
  unfolding enforce_phase
  terminate_phase d state chosen running a = ground arith
  terminate_phase d state chosen (grace since) a =
      ground (arith, count-terminate is_lock (λ t. refl) (ids chosen))
  terminate_phase d state chosen enforced a = ground arith

  terminate_step :
      (d : Denied) (state : UserState j)
      → d.policy.on_exhausted ≡ terminate
      → count is_lock (enforce j d.sessions d.policy d.reason d.now d.written state).effects ≡ 0
  unfolding enforce
  terminate_step d state a =
      let inner = terminate_phase d state (keep is_lockable d.sessions) state.phase a in
      ground arith

  -- Every tick's policy has the lock action.
  abbrev pub AllLock : List Denied → Type 0
  AllLock [] = Unit
  AllLock (d ∷ rest) = (d.policy.on_exhausted ≡ lock) × AllLock rest

  -- Under the action `lock`, from a state outside the grace period, no run of denied ticks ever ends
  -- a session, whatever the login manager and the store answer.
  pub lock_never_terminates :
      (ds : List Denied) (state : UserState j)
      → in_grace state.phase ≡ false
      → AllLock ds
      → count is_termination (enforce_all j ds state).1 ≡ 0
  unfolding enforce_all
  lock_never_terminates [] state g a = refl
  lock_never_terminates (d ∷ rest) state g a =
      let o = enforce j d.sessions d.policy d.reason d.now d.written state in
      let step = lock_step d state a.0 g in
      let later = lock_never_terminates rest o.state step.1 a.1 in
      ground (arith, count-append is_termination o.effects (enforce_all j rest o.state).1)

  -- Every tick's policy has the action `terminate`.
  abbrev pub AllTerminate : List Denied → Type 0
  AllTerminate [] = Unit
  AllTerminate (d ∷ rest) = (d.policy.on_exhausted ≡ terminate) × AllTerminate rest

  -- Under the action `terminate` no run of denied ticks ever locks a session, from any state: the
  -- screen stays usable during the grace period.
  pub terminate_never_locks :
      (ds : List Denied) (state : UserState j)
      → AllTerminate ds
      → count is_lock (enforce_all j ds state).1 ≡ 0
  unfolding enforce_all
  terminate_never_locks [] state a = refl
  terminate_never_locks (d ∷ rest) state a =
      let o = enforce j d.sessions d.policy d.reason d.now d.written state in
      let step = terminate_step d state a.0 in
      let later = terminate_never_locks rest o.state a.1 in
      ground (arith, count-append is_lock o.effects (enforce_all j rest o.state).1)
