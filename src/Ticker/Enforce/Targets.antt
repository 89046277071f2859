-- ===== src/Ticker/Enforce/Targets.antt =====
-- Whom `enforce` touches.
use time_bandits.Base.{
  ◌≡◌, refl, Bool, true, ◌&&◌, not, List, [], ◌∷◌, ◌++◌, map, any, all, keep, Text, ◌=t◌, text_refl,
  arith,
}
use time_bandits.Jiff.{Jiff, Timestamp}
use time_bandits.Policy.{Policy}
use time_bandits.Engine.{DenyReason}
use time_bandits.Logind.{SessionInfo, is_lockable}
use time_bandits.Ticker.State.{
  Effect, lock_session, terminate_session, record_event, UserState, Phase, running, locked, grace,
  enforced, ids,
}
use time_bandits.Ticker.Enforce.{enforce_phase, enforce}

-- A session that may be locked has this identifier.
abbrev pub has_lockable : List SessionInfo → Text → Bool
has_lockable sessions id = any (λ (s : SessionInfo). is_lockable s && s.id =t id) sessions

-- A request to lock or end a session names one that may be locked; other effects name none.
abbrev pub targets_lockable : List SessionInfo → Effect → Bool
targets_lockable sessions (lock_session id) = has_lockable sessions id
targets_lockable sessions (terminate_session id) = has_lockable sessions id
targets_lockable sessions _ = true

pub all-append {ℓ} :
    {A : Type ℓ} (p : A → Bool) (xs ys : List A)
    → all p xs ≡ true
    → all p ys ≡ true
    → all p (xs ++ ys) ≡ true
all-append p [] ys h k = k
all-append p (x ∷ xs) ys h k = ground (arith, all-append p xs ys)

abbrev AllLockable : List SessionInfo → List SessionInfo → Type 0
AllLockable sessions chosen = all (λ (s : SessionInfo). has_lockable sessions s.id) chosen ≡ true

AllLockable-more :
    (x : SessionInfo) (sessions chosen : List SessionInfo)
    → AllLockable sessions chosen
    → AllLockable (x ∷ sessions) chosen
AllLockable-more x sessions [] h = refl
AllLockable-more x sessions (s ∷ chosen) h =
    let rest = AllLockable-more x sessions chosen (ground arith) in ground arith

AllLockable-keep : (sessions : List SessionInfo) → AllLockable sessions (keep is_lockable sessions)
AllLockable-keep [] = refl
AllLockable-keep (x ∷ sessions) =
    let rest =
      AllLockable-more x sessions (keep is_lockable sessions) (AllLockable-keep sessions) in
    ground (arith, text_refl x.id)

AllLockable-narrow :
    (p : SessionInfo → Bool) (sessions chosen : List SessionInfo)
    → AllLockable sessions chosen
    → AllLockable sessions (keep p chosen)
AllLockable-narrow p sessions [] h = refl
AllLockable-narrow p sessions (s ∷ chosen) h =
    let rest = AllLockable-narrow p sessions chosen (ground arith) in ground arith

targets-lock :
    (sessions chosen : List SessionInfo)
    → AllLockable sessions chosen
    → all (targets_lockable sessions) (map lock_session (ids chosen)) ≡ true
targets-lock sessions [] h = refl
targets-lock sessions (s ∷ chosen) h =
    let rest = targets-lock sessions chosen (ground arith) in ground arith

targets-terminate :
    (sessions chosen : List SessionInfo)
    → AllLockable sessions chosen
    → all (targets_lockable sessions) (map terminate_session (ids chosen)) ≡ true
targets-terminate sessions [] h = refl
targets-terminate sessions (s ∷ chosen) h =
    let rest = targets-terminate sessions chosen (ground arith) in ground arith

module _ (j : Jiff) (sessions : List SessionInfo) (policy : Policy) (reason : DenyReason)
    (now : Timestamp) (written : Bool) (state : UserState j) where
  enforce_phase-targets :
      (chosen : List SessionInfo) (phase : Phase)
      → AllLockable sessions chosen
      → all
          (targets_lockable sessions)
          (enforce_phase j policy reason now written state chosen phase).effects
        ≡ true
  unfolding enforce_phase
  enforce_phase-targets chosen running h =
      let locks = targets-lock sessions chosen h in
      let events =
        all-append (targets_lockable sessions) (map lock_session (ids chosen))
          (record_event locked ∷ []) locks refl in
      ground arith
  enforce_phase-targets chosen (grace since) h =
      let ends = targets-terminate sessions chosen h in ground arith
  enforce_phase-targets chosen enforced h =
      let stray = keep (λ (s : SessionInfo). not s.locked) chosen in
      let locks = targets-lock sessions stray (AllLockable-narrow _ sessions chosen h) in
      ground arith

  -- Every session that `enforce` locks or ends is one of the given sessions that may be locked: the
  -- greeter, a background session and a remote one are left alone, in every phase.
  pub enforce-targets :
      all (targets_lockable sessions) (enforce j sessions policy reason now written state).effects
      ≡ true
  unfolding enforce
  enforce-targets =
      let inner =
        enforce_phase-targets (keep is_lockable sessions) state.phase (AllLockable-keep sessions) in
      ground arith
