-- ===== src/Ticker/Enforce.antt =====
-- crates/tb-daemon/src/tick.rs: `enforce`, the escalation against the sessions of one user.
pub mod Targets
pub mod Edge
pub mod Grace
use time_bandits.Base.{Bool, ◌&&◌, not, List, [], ◌∷◌, ◌++◌, map, keep, leb, if◌then◌else◌}
use time_bandits.Jiff.{Jiff, Timestamp, secs_until}
use time_bandits.Duration.{as_secs, zero_duration}
use time_bandits.Policy.{Policy, is_empty}
use time_bandits.Engine.{DenyReason}
use time_bandits.Logind.{SessionInfo, is_lockable}
use time_bandits.Ticker.State.{
  Outcome, Phase, UserState, done, failed, ids, is_terminate, terminates, running, grace, enforced,
  locked, closing, lock_session, terminate_session, record_event,
}

module _ (j : Jiff) where
  -- `enforce`, for the sessions that can be locked, by the phase.
  unfoldable pub enforce_phase :
      Policy
      → DenyReason
      → Timestamp
      → Bool
      → UserState j
      → List SessionInfo
      → Phase
      → Outcome (UserState j)
  enforce_phase policy reason now event_written state lockable running =
      let ends = terminates policy.on_exhausted in
      let effects =
        closing reason (if ends then policy.grace_period else zero_duration)
        ∷ (if is_terminate policy.on_exhausted then [] else map lock_session (ids lockable)) in
      if event_written
      then done (record state { phase = if ends then grace now else enforced })
          (effects ++ record_event locked ∷ [])
      else failed state effects
  enforce_phase policy reason now event_written state lockable (grace since) =
      if leb (as_secs policy.grace_period) (secs_until since now)
      then done (record state { phase = enforced }) (map terminate_session (ids lockable))
      else done state []
  enforce_phase policy reason now event_written state lockable enforced =
      let stray = keep (λ (s : SessionInfo). not s.locked) lockable in
      done state (
        if not (is_empty stray) && not (is_terminate policy.on_exhausted)
        then map lock_session (ids stray)
        else [])

  unfoldable pub enforce :
      List SessionInfo
      → Policy
      → DenyReason
      → Timestamp
      → Bool
      → UserState j
      → Outcome (UserState j)
  unfolding enforce_phase
  enforce sessions policy reason now event_written state =
      let lockable = keep is_lockable sessions in
      if is_empty lockable
      then done (record state { phase = running }) []
      else enforce_phase policy reason now event_written state lockable state.phase
