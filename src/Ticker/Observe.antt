-- ===== src/Ticker/Observe.antt =====
-- crates/tb-daemon/src/tick.rs: what a tick observes of one user.
pub mod Idle
use time_bandits.Base.{
  ◌^◌, max, Bool, true, false, Option, none, some, [], Text, ltb, leb, if◌then◌else◌, unwrap_or,
}
use time_bandits.Jiff.{Jiff, Timestamp}
use time_bandits.Duration.{as_secs}
use time_bandits.AppId.{unknown_observation}
use time_bandits.Policy.{Policy}
use time_bandits.Usage.{SegmentConfig, ClosedSegment, Tick, active, idle, new_builder, observe}
use time_bandits.Agent.{Report}
use time_bandits.Ticker.State.{Answers, UserState, focus_observation, focus_title, running}

module _ (j : Jiff) where
  -- `UserState::new`.
  abbrev pub new_state : Text → SegmentConfig → UserState j
  new_state subject cfg = record {
    phase = running;
    warned = [];
    warned_on = none;
    builder = new_builder subject cfg;
    last_tick = none;
    tamper_reported = false;
    unmanaged_reported = false;
  }

  -- What a tick of an idle user is: backdated by the idle time, and no further than the last tick.
  abbrev pub idle_start : UserState j → Timestamp → Report → Timestamp
  idle_start state now r =
      let began =
        unwrap_or (j.sub_secs now (if ltb r.idle_secs (2 ^ 63) then r.idle_secs else 0)) now in
      elim state.last_tick [ none ↦ began | some last ↦ max began last ]

  unfoldable pub build_tick : UserState j → Policy → Bool → Timestamp → Option Report → Tick
  build_tick state policy false now report = idle now
  build_tick state policy true now none = active now unknown_observation none
  build_tick state policy true now (some r) =
      if leb (as_secs policy.idle_threshold) r.idle_secs
      then idle (idle_start state now r)
      else active now (focus_observation r) (focus_title policy r)

  -- The state after the segment builder has seen the tick, and the segment that this closed.
  unfoldable pub observe_user :
      Policy
      → Bool
      → Bool
      → Timestamp
      → Answers j
      → UserState j
      → Option ClosedSegment × UserState j
  observe_user policy at_work blind now answers state =
      let tick = build_tick state policy at_work now answers.report in
      let (closed, builder) = observe j answers.new_id state.builder tick in
      (closed, record state { builder = builder; last_tick = some now; tamper_reported = blind })
