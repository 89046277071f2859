-- ===== src/Ticker/Decide.antt =====
-- crates/tb-daemon/src/tick.rs: `apply_verdict`, and when `tick_user` decides at all.
use time_bandits.Base.{
  Bool, true, false, ◌&&◌, not, Option, none, some, List, [], ◌++◌, if◌then◌else◌,
}
use time_bandits.Jiff.{Jiff, Timestamp}
use time_bandits.Schedule.{PolicyDay}
use time_bandits.Policy.{Policy, TamperResponse, lock_immediately}
use time_bandits.Engine.{UsageSnapshot, daily_quota_exhausted, allowed, denied, evaluate}
use time_bandits.Agent.{Report}
use time_bandits.Logind.{SessionInfo}
use time_bandits.Ticker.State.{Answers, Effect, Outcome, UserState, done, failed}
use time_bandits.Ticker.Enforce.{enforce}
use time_bandits.Ticker.Warnings.{on_allowed}

-- The effects of an earlier part of the tick stand before those of the rest.
abbrev pub after : {S : Type 0} → List Effect → Outcome S → Outcome S
after earlier o = record o { effects = earlier ++ o.effects }

abbrev pub is_blind : Bool → Option Report → Bool
is_blind at_work report = at_work && (elim report [ none ↦ true | some r ↦ not r.focus_tracking ])

abbrev pub locks_immediately : TamperResponse → Bool
locks_immediately lock_immediately = true
locks_immediately _ = false

abbrev pub is_managed : Option Bool → Bool
is_managed (some true) = true
is_managed _ = false

module _ (j : Jiff) where
  -- `apply_verdict`.
  unfoldable pub apply_verdict :
      List SessionInfo
      → Policy
      → UsageSnapshot
      → PolicyDay j
      → Bool
      → Timestamp
      → Bool
      → UserState j
      → Outcome (UserState j)
  unfolding on_allowed enforce
  apply_verdict sessions policy snapshot day at_work now event_written state =
      elim (evaluate j policy snapshot now) [
        | allowed a ↦ on_allowed j policy day at_work a state
        | denied d ↦ enforce j sessions policy d.reason now event_written state
      ]

  -- The part of `tick_user` below `--- decide ---`.
  unfoldable pub decide :
      List SessionInfo
      → Policy
      → Bool
      → Bool
      → Timestamp
      → Answers j
      → UserState j
      → Outcome (UserState j)
  decide sessions policy at_work blind now answers state =
      if answers.disabled
      then done state []
      else if not (is_managed answers.member)
      then done (record state { unmanaged_reported = true }) []
      else if blind && locks_immediately policy.on_tamper
      then enforce j sessions policy daily_quota_exhausted now answers.event_written state
      else elim answers.snapshot [
        | none ↦ failed state []
        | some (snapshot, day) ↦
            apply_verdict sessions policy snapshot day at_work now answers.event_written state
      ]
