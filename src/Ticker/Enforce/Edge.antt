-- ===== src/Ticker/Enforce/Edge.antt =====
-- Closing is an edge, not a level: a run of denials closes once, whatever its length.
use time_bandits.Base.{
  ◌≡◌, refl, Bool, true, false, not, List, [], ◌∷◌, ◌++◌, map, keep, arith, if◌then◌else◌,
}
use time_bandits.Jiff.{Jiff, Timestamp}
use time_bandits.Policy.{Policy, is_empty}
use time_bandits.Engine.{DenyReason}
use time_bandits.Logind.{SessionInfo, is_lockable}
use time_bandits.Ticker.State.{
  Effect, lock_session, record_event, UserState, Phase, running, locked, grace, enforced, ids,
}
use time_bandits.Ticker.Effects.{count, is_closing, count-append, count-lock, count-terminate}
use time_bandits.Ticker.Enforce.{enforce_phase, enforce}

abbrev pub is_running : Phase → Bool
is_running running = true
is_running _ = false

-- What a denied tick brings: the sessions, the policy in force, the reason, the time, and whether
-- the event can be written.
pub record Denied : Type 0 where
  pub sessions : List SessionInfo
  pub policy : Policy
  pub reason : DenyReason
  pub now : Timestamp
  pub written : Bool

module _ (j : Jiff) where
  -- Denied ticks one after another: the last state and all effects.
  unfoldable pub enforce_all : List Denied → UserState j → UserState j × List Effect
  enforce_all [] state = (state, [])
  enforce_all (d ∷ rest) state =
      let o = enforce j d.sessions d.policy d.reason d.now d.written state in
      let (last, effects) = enforce_all rest o.state in (last, o.effects ++ effects)

  -- Somebody can be locked, and the event is written, on each of the ticks.
  abbrev pub AllPresent : List Denied → Type 0
  AllPresent [] = Unit
  AllPresent (d ∷ rest) =
      (is_empty (keep is_lockable d.sessions) ≡ false) × (d.written ≡ true) × AllPresent rest

  enforce_phase-closings :
      (d : Denied) (state : UserState j) (chosen : List SessionInfo) (phase : Phase)
      → d.written ≡ true
      → is_running state.phase ≡ is_running phase
      → let o = enforce_phase j d.policy d.reason d.now d.written state chosen phase in
        (count is_closing o.effects ≡ (if is_running phase then 1 else 0))
        × (is_running o.state.phase ≡ false)
  unfolding enforce_phase
  enforce_phase-closings d state chosen running w e = ground (
    arith,
    count-lock is_closing (λ t. refl) (ids chosen),
    count-append is_closing (map lock_session (ids chosen)) (record_event locked ∷ []),
  )
  enforce_phase-closings d state chosen (grace since) w e =
      ground (arith, count-terminate is_closing (λ t. refl) (ids chosen))
  enforce_phase-closings d state chosen enforced w e = ground (
    arith,
    count-lock is_closing (λ t. refl) (ids (keep (λ (s : SessionInfo). not s.locked) chosen)),
  )

  enforce-closings :
      (d : Denied) (state : UserState j)
      → is_empty (keep is_lockable d.sessions) ≡ false
      → d.written ≡ true
      → let o = enforce j d.sessions d.policy d.reason d.now d.written state in
        (count is_closing o.effects ≡ (if is_running state.phase then 1 else 0))
        × (is_running o.state.phase ≡ false)
  unfolding enforce
  enforce-closings d state p w =
      let inner = enforce_phase-closings d state (keep is_lockable d.sessions) state.phase w refl in
      ground arith

  quiet_once_begun :
      (rest : List Denied) (state : UserState j)
      → is_running state.phase ≡ false
      → AllPresent rest
      → count is_closing (enforce_all rest state).1 ≡ 0
  unfolding enforce_all
  quiet_once_begun [] state b p = refl
  quiet_once_begun (d ∷ rest) state b p =
      let o = enforce j d.sessions d.policy d.reason d.now d.written state in
      let step = enforce-closings d state p.0 p.1 in
      let later = quiet_once_begun rest o.state step.1 p.2 in
      ground (arith, count-append is_closing o.effects (enforce_all rest o.state).1)

  -- While somebody can be locked and the store works, any number of denied ticks announces a closing
  -- exactly once if time had been running, and not at all if the escalation had begun before, even
  -- where the policy or the reason changes between the ticks.
  pub enforce_all-closings :
      (d : Denied) (rest : List Denied) (state : UserState j)
      → AllPresent (d ∷ rest)
      → count is_closing (enforce_all (d ∷ rest) state).1
        ≡ (if is_running state.phase then 1 else 0)
  unfolding enforce_all
  enforce_all-closings d rest state p =
      let o = enforce j d.sessions d.policy d.reason d.now d.written state in
      let step = enforce-closings d state p.0 p.1 in
      let later = quiet_once_begun rest o.state step.1 p.2 in
      ground (arith, count-append is_closing o.effects (enforce_all rest o.state).1)
