-- ===== src/Daemon/Rounds.antt =====
-- What a round of the daemon's loop and its last flush ask the store to keep.
use time_bandits.Base.{
  ◌≡◌, ◌⊎◌, refl, Bool, true, Option, none, some, List, [], ◌∷◌, Text, all, all-append, arith,
  Option-cases, inl, inr, unwrap_or,
}
use time_bandits.Jiff.{Jiff, Timestamp}
use time_bandits.Duration.{DurationSpec}
use time_bandits.Usage
use time_bandits.Usage.{SegmentConfig}
use time_bandits.Logind.{SessionInfo, sessions_of}
use time_bandits.Ticker.State.{Answers, Effect, UserState, ticker_config}
use time_bandits.Ticker.User.{tick_user}
use time_bandits.Ticker.Observe.{new_state}
use time_bandits.Ticker.Loop.{Tagged, tagged, States, state_of, put_option, tick_each}
use time_bandits.Ticker.Loop
use time_bandits.Daemon.{Surroundings, connected, round, final_flush}
use time_bandits.Daemon.Ordered.{is_proper, AreProper, tick_policy-AreProper, flush_proper}

abbrev pub is_proper_tagged : Tagged → Bool
is_proper_tagged t = is_proper t.1

all_proper-tagged :
    (subject : Text) (effects : List Effect)
    → all is_proper effects ≡ true
    → all is_proper_tagged (tagged subject effects) ≡ true
all_proper-tagged subject [] h = refl
all_proper-tagged subject (e ∷ rest) h =
    let later = all_proper-tagged subject rest (ground arith) in ground arith

module _ (j : Jiff) where
  tick_user-AreProper :
      (subject : Text) (cfg : SegmentConfig) (sessions : List SessionInfo) (now : Timestamp)
      (answers : Answers j) (state : Option (UserState j))
      → AreProper (tick_user j subject cfg sessions now answers state)
  unfolding tick_user
  tick_user-AreProper subject cfg sessions now answers state = elim (Option-cases answers.policy) [
    | inl e ↦ ground arith
    | inr (none, e) ↦ ground arith
    | inr (some policy, e) ↦
        let proper =
          tick_policy-AreProper j sessions policy now answers
            (unwrap_or state (new_state j subject cfg)) in
        ground arith
  ]

  tick_each-proper :
      (cfg : SegmentConfig) (sessions : List SessionInfo) (now : Timestamp)
      (answers : Text → Answers j) (subjects : List Text) (states : States j)
      → all is_proper_tagged (tick_each j cfg sessions now answers subjects states).0 ≡ true
  unfolding tick_each
  tick_each-proper cfg sessions now answers [] states = refl
  tick_each-proper cfg sessions now answers (s ∷ rest) states =
      let o = tick_user j s cfg (sessions_of sessions s) now (answers s) (state_of j states s) in
      let next = put_option j states s o.state in
      let first = all_proper-tagged s o.effects (
        tick_user-AreProper s cfg (sessions_of sessions s) now (answers s) (state_of j states s)) in
      let later = tick_each-proper cfg sessions now answers rest next in
      let split =
        all-append is_proper_tagged (tagged s o.effects)
          (tick_each j cfg sessions now answers rest next).0 in
      ground arith

  flush-proper :
      (now : Timestamp) (states : States j)
      → all is_proper_tagged (Loop.flush j now states).0 ≡ true
  unfolding Loop.flush
  flush-proper now [] = refl
  flush-proper now (entry ∷ rest) =
      let later = flush-proper now rest in
      let proper = flush_proper j entry.1.builder now in
      elim (Option-cases (Usage.flush j entry.1.builder now).0) [
        | inl e ↦ ground arith
        | inr (c, e) ↦ ground arith
      ]

  pub final_flush-proper :
      (now : Timestamp) (ticker : Option (States j))
      → all is_proper_tagged (final_flush j now ticker).0 ≡ true
  unfolding final_flush
  final_flush-proper now none = refl
  final_flush-proper now (some states) = flush-proper now states

  tick-proper :
      (cfg : SegmentConfig) (sessions : Option (List SessionInfo)) (subjects : Option (List Text))
      (now : Timestamp) (answers : Text → Answers j) (states : States j)
      → all is_proper_tagged (Loop.tick j cfg sessions subjects now answers states).1.0 ≡ true
  unfolding Loop.tick
  tick-proper cfg none subjects now answers states = refl
  tick-proper cfg (some sessions) none now answers states = refl
  tick-proper cfg (some sessions) (some subjects) now answers states =
      tick_each-proper cfg sessions now answers subjects states

  pub round-proper :
      (tick_interval : DurationSpec) (around : Surroundings j) (now : Timestamp)
      (ticker : Option (States j))
      → all is_proper_tagged (round j tick_interval around now ticker).0 ≡ true
  unfolding round
  round-proper tick_interval around now ticker =
      elim (Option-cases (connected j around.connects ticker)) [
        | inl e ↦ rw (e, round) refl
        | inr (states, e) ↦
            rw (e, round)
              (tick-proper (ticker_config tick_interval) around.sessions around.subjects now
                around.answers states)
      ]

  -- A round in which the list of the sessions or that of the subjects cannot be had asks for nothing
  -- and drops the ticker, with every segment that is open in it: the flush at the end of the daemon
  -- that comes before another round saves nothing.
  pub failed_round_forgets :
      (tick_interval : DurationSpec) (around : Surroundings j) (now later : Timestamp)
      (ticker : Option (States j))
      → (around.sessions ≡ none) ⊎ (around.subjects ≡ none)
      → let after = round j tick_interval around now ticker in
        (after.0 ≡ []) × (final_flush j later after.1 ≡ ([], none))
  unfolding round final_flush Loop.tick
  failed_round_forgets tick_interval around now later ticker h =
      elim (Option-cases (connected j around.connects ticker)) [
        | inl e ↦ rw (e, round) (refl, refl)
        | inr (states, e) ↦ elim h [
          | inl s ↦ rw (e, s, round, Loop.tick) (refl, refl)
          | inr s ↦ elim (Option-cases around.sessions) [
            | inl x ↦ rw (e, x, round, Loop.tick) (refl, refl)
            | inr (sessions, x) ↦ rw (e, x, s, round, Loop.tick) (refl, refl)
          ]
        ]
      ]
