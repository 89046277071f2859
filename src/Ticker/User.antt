-- ===== src/Ticker/User.antt =====
-- crates/tb-daemon/src/tick.rs: `tick_user`, one pass of the loop for one user.
pub mod Gates
use time_bandits.Base.{
  ◌&&◌, not, Option, none, some, List, [], ◌∷◌, Text, any, if◌then◌else◌, unwrap_or,
}
use time_bandits.Jiff.{Jiff, Timestamp}
use time_bandits.Policy.{Policy}
use time_bandits.Usage.{SegmentConfig}
use time_bandits.Logind.{SessionInfo, is_creditable_desktop}
use time_bandits.Ticker.State.{
  Answers, Outcome, UserState, done, failed, tamper, insert_segment, record_event,
}
use time_bandits.Ticker.Decide.{is_blind, decide, after}
use time_bandits.Ticker.Observe.{new_state, observe_user}

module _ (j : Jiff) where
  -- `tick_user` with the policy that is loaded.
  unfoldable pub tick_policy :
      List SessionInfo → Timestamp → Answers j → Policy → UserState j → Outcome (UserState j)
  tick_policy sessions now answers policy state =
      let at_work = any is_creditable_desktop sessions in
      let blind = is_blind at_work answers.report in
      let announce = blind && not state.tamper_reported in
      let (closed, state') = observe_user j policy at_work blind now answers state in
      let told = if announce then record_event tamper ∷ [] else [] in
      elim closed [
        | none ↦ after told (decide j sessions policy at_work blind now answers state')
        | some c ↦
            if answers.segment_written
            then after (insert_segment c.segment ∷ told)
                (decide j sessions policy at_work blind now answers state')
            else failed state' []
      ]

  -- `tick_user`; the state of a user that was never ticked is made on the first tick.
  unfoldable pub tick_user :
      Text
      → SegmentConfig
      → List SessionInfo
      → Timestamp
      → Answers j
      → Option (UserState j)
      → Outcome (Option (UserState j))
  tick_user subject cfg sessions now answers state? = elim answers.policy [
    | none ↦ failed state? []
    | some none ↦ done state? []
    | some (some policy) ↦
        let o =
          tick_policy sessions now answers policy (unwrap_or state? (new_state j subject cfg)) in
        record { finished = o.finished; state = some o.state; effects = o.effects }
  ]
