-- ===== src/Ticker/State.antt =====
-- crates/tb-daemon/src/tick.rs: the state of one user, and what a tick of the loop asks and hears.
use time_bandits.Base.{
  ℕ, ◌*◌, ◌%◌, ◌^◌, Bool, true, false, Option, none, some, List, map, Text, if◌then◌else◌, and_then,
}
use time_bandits.Jiff.{Jiff, Timestamp}
use time_bandits.Duration.{DurationSpec, as_secs, from_secs}
use time_bandits.AppId.{AppObservation, unknown_observation, observe_window}
use time_bandits.Schedule.{PolicyDay}
use time_bandits.Policy.{Policy, LockAction, terminate, lock_then_terminate}
use time_bandits.Engine.{UsageSnapshot, DenyReason}
use time_bandits.Usage.{Uuid, SegmentBuilder, SegmentConfig, UsageSegment}
use time_bandits.Agent.{Focus, Report}
use time_bandits.Logind.{SessionInfo}

pub data Phase : Type 0 where
  running : Phase
  grace : Timestamp → Phase
  enforced : Phase

pub data EventKind : Type 0 where
  locked access_denied tamper clock_jump bonus_granted more_time_requested : EventKind

-- What a tick asks of the world.
pub data Effect : Type 0 where
  warn : DurationSpec → Effect
  closing : DenyReason → DurationSpec → Effect
  lock_session : Text → Effect
  terminate_session : Text → Effect
  insert_segment : UsageSegment → Effect
  record_event : EventKind → Effect

-- The store's answers within one tick; a failed call stops the tick of this user.
pub record Answers (j : Jiff) : Type 0 where
  -- `load_policy`: failed, or the policy if there is one.
  pub policy : Option (Option Policy)
  -- Whether writing a segment and writing the event `locked` succeed.
  pub segment_written : Bool
  pub event_written : Bool
  pub snapshot : Option (UsageSnapshot × PolicyDay j)
  -- `AgentReports::fresh`.
  pub report : Option Report
  -- `Config::enforcement_disabled` and `Membership::is_member`.
  pub disabled : Bool
  pub member : Option Bool
  -- What `Uuid::now_v7` returns.
  pub new_id : Uuid

pub record UserState (j : Jiff) : Type 0 where
  pub phase : Phase
  pub warned : List ℕ
  pub warned_on : Option j.Date
  pub builder : SegmentBuilder
  pub last_tick : Option Timestamp
  pub tamper_reported : Bool
  pub unmanaged_reported : Bool

-- Whether the tick returned `Ok`, the state that it leaves, and its effects.
pub record Outcome (S : Type 0) : Type 0 where
  pub finished : Bool
  pub state : S
  pub effects : List Effect

abbrev pub done : {S : Type 0} → S → List Effect → Outcome S
done s effects = record { finished = true; state = s; effects = effects }

abbrev pub failed : {S : Type 0} → S → List Effect → Outcome S
failed s effects = record { finished = false; state = s; effects = effects }

-- `self.report_max_age` and `self.segment_config` of `Ticker::new`, from the tick interval.
abbrev pub report_max_age : DurationSpec → DurationSpec
report_max_age interval = from_secs (as_secs interval * 3 % 2 ^ 64)

abbrev pub ticker_config : DurationSpec → SegmentConfig
ticker_config interval = record {
  tick_interval = interval;
  max_gap = from_secs (as_secs interval * 6 % 2 ^ 64);
  max_segment = from_secs 900;
}

abbrev pub ids : List SessionInfo → List Text
ids = map (λ (s : SessionInfo). s.id)

abbrev pub terminates : LockAction → Bool
terminates terminate = true
terminates lock_then_terminate = true
terminates _ = false

abbrev pub is_terminate : LockAction → Bool
is_terminate terminate = true
is_terminate _ = false

-- Which application a report shows.
abbrev pub focus_observation : Report → AppObservation
focus_observation r = elim r.focus [
  | none ↦ unknown_observation
  | some f ↦ observe_window f.desktop_file f.resource_class
]

abbrev pub focus_title : Policy → Report → Option Text
focus_title policy r =
    if policy.record_window_titles then and_then r.focus (λ (f : Focus). f.title) else none
