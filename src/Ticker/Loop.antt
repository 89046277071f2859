-- ===== src/Ticker/Loop.antt =====
-- crates/tb-daemon/src/tick.rs: `tick` over all users, and `flush`.
pub mod Isolation
use time_bandits.Base.{
  Bool, true, false, Option, none, some, List, [], ◌∷◌, ◌++◌, map, Text, ◌=t◌, if◌then◌else◌,
}
use time_bandits.Jiff.{Jiff, Timestamp}
use time_bandits.Usage
use time_bandits.Usage.{SegmentConfig}
use time_bandits.Logind.{SessionInfo, sessions_of}
use time_bandits.Ticker.State.{Answers, Effect, UserState, insert_segment}
use time_bandits.Ticker.User.{tick_user}

-- An effect beside the user whose part of the tick has it.
abbrev pub Tagged : Type 0
Tagged = Text × Effect

abbrev pub tagged : Text → List Effect → List Tagged
tagged subject effects = map (λ e. (subject, e)) effects

-- `self.states`, a map from the subjects.
abbrev pub States : Jiff → Type 0
States j = List (Text × UserState j)

module _ (j : Jiff) where
  unfoldable pub state_of : States j → Text → Option (UserState j)
  state_of [] subject = none
  state_of (entry ∷ rest) subject =
      let later = state_of rest subject in if entry.0 =t subject then some entry.1 else later

  unfoldable pub put : States j → Text → UserState j → States j
  put [] subject state = (subject, state) ∷ []
  put (entry ∷ rest) subject state =
      let later = put rest subject state in
      if entry.0 =t subject then (subject, state) ∷ rest else entry ∷ later

  abbrev pub put_option : States j → Text → Option (UserState j) → States j
  put_option states subject none = states
  put_option states subject (some state) = put states subject state

  -- The loop over the subjects. An error of one user is only logged, so whether a part finished does
  -- not matter. `answers` is what the store and the others answer for each user during this tick.
  unfoldable pub tick_each :
      SegmentConfig
      → List SessionInfo
      → Timestamp
      → (Text → Answers j)
      → List Text
      → States j
      → List Tagged × States j
  tick_each cfg sessions now answers [] states = ([], states)
  tick_each cfg sessions now answers (subject ∷ rest) states =
      let o =
        tick_user j subject cfg (sessions_of sessions subject) now (answers subject)
          (state_of states subject) in
      let later = tick_each cfg sessions now answers rest (put_option states subject o.state) in
      (tagged subject o.effects ++ later.0, later.1)

  -- `tick`: nothing stands for a login manager or a store that fails.
  unfoldable pub tick :
      SegmentConfig
      → Option (List SessionInfo)
      → Option (List Text)
      → Timestamp
      → (Text → Answers j)
      → States j
      → Bool × (List Tagged × States j)
  unfolding tick_each
  tick cfg none subjects now answers states = (false, ([], states))
  tick cfg (some sessions) none now answers states = (false, ([], states))
  tick cfg (some sessions) (some subjects) now answers states =
      (true, tick_each cfg sessions now answers subjects states)

  -- `flush`; a segment that the store does not take is only logged.
  unfoldable pub flush : Timestamp → States j → List Tagged × States j
  flush now [] = ([], [])
  flush now (entry ∷ rest) =
      let later = flush now rest in
      let (closed, builder) = Usage.flush j entry.1.builder now in
      let saved : List Effect = elim closed [
        | none ↦ []
        | some c ↦ insert_segment c.segment ∷ []
      ] in
      (tagged entry.0 saved ++ later.0, (entry.0, record entry.1 { builder = builder }) ∷ later.1)
