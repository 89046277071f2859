-- ===== src/Session/Round.antt =====
-- crates/tb-agent/src/main.rs: `report_once` and the button. An exchange with the daemon is a
-- function of the report, with no answer where it fails; the two mutexes can be taken.
use time_bandits.Base.{
  ℕ, ◌≡◌, refl, ◌∙◌, true, false, Option, none, some, List, [], ◌∷◌, Text, arith, if◌then◌else◌,
  is_some,
}
use time_bandits.Jiff.{Jiff, Timestamp}
use time_bandits.Agent.{Report}
use time_bandits.Ticker.State.{more_time_requested}
use time_bandits.Store.Tables.{record_event_at}
use time_bandits.Pam.Server.{Days}
use time_bandits.AgentServer.Messages.{State, agent_version}
use time_bandits.AgentServer.Receiver.{Shared, is_quiet, record_request, accept, handle}
use time_bandits.Session.AgentState.{Instant, Announcement, nothing, AgentState, ingest}
use time_bandits.Session.Focusing.{focus_for_report, focus_tracking, idle_secs}

-- The agent, since when the child is idle, and the minutes of a request that was not sent yet.
pub record Agent : Type 0 where
  pub state : AgentState
  pub idle_since : Option Instant
  pub pending_request : Option ℕ

-- `REQUEST_MINUTES`.
abbrev pub request_minutes : ℕ
request_minutes = 15

-- The arm of the loop for the button.
unfoldable pub press : Agent → Agent
press a = record a { pending_request = some request_minutes }

-- The report of a round.
unfoldable pub report_of : Agent → Instant → Report
unfolding focus_for_report focus_tracking idle_secs
report_of a now = record {
  v = agent_version;
  focus = focus_for_report a.state now;
  idle_secs = idle_secs a.idle_since now;
  locked = false;
  focus_tracking = focus_tracking a.state now;
  request_minutes = a.pending_request;
}

unfoldable pub report_once : Agent → Instant → (Report → Option State) → Announcement × Agent
unfolding report_of ingest
report_once a now exchange =
    let taken = record a { pending_request = none } in
    elim (exchange (report_of a now)) [
      | some answer ↦
          let (said, next) = ingest a.state answer in (said, record taken { state = next })
      | none ↦ (
        nothing,
        if is_some a.pending_request
            then record taken { pending_request = a.pending_request }
            else taken,
      )
    ]

-- A round whose exchange fails, for each moment.
abbrev pub lost_rounds : Agent → List Instant → Agent
lost_rounds a [] = a
lost_rounds a (now ∷ rest) = lost_rounds (report_once a now (λ _. none)).1 rest

report_once_lost :
    (a : Agent) (now : Instant)
    → (report_once a now (λ _. none)).1.pending_request ≡ a.pending_request
unfolding report_once
report_once_lost a now = ground arith

lost_rounds-pending_request :
    (rounds : List Instant) (a : Agent) → (lost_rounds a rounds).pending_request ≡ a.pending_request
lost_rounds-pending_request [] a = refl
lost_rounds-pending_request (now ∷ rest) a =
    lost_rounds-pending_request rest (report_once a now (λ _. none)).1 ∙ report_once_lost a now

module _ (j : Jiff) (date_text : j.Date → Text) (since : j.Date → j.Date → Option Days)
    (local : j.TimeZone) where
  -- A report of this version that asks for time is recorded.
  handle_asked :
      (shared : Shared) (subject : Text) (report : Report) (minutes : ℕ) (at : Timestamp)
      → report.v ≡ agent_version
      → report.request_minutes ≡ some minutes
      → shared.lock_held ≡ true
      → shared.writable ≡ true
      → is_quiet shared subject at ≡ false
      → (handle j date_text since local shared subject (some report) at).1.tables
        ≡ record_event_at shared.tables subject more_time_requested at
  unfolding handle accept record_request
  handle_asked shared subject report minutes at v asked held writable loud =
      rw (v, asked, held, loud, writable) refl

  -- When the child has pressed the button, then after any number of rounds that fail, the next report
  -- carries the request: if the daemon handles it, holding its lock, with a database that takes the
  -- event, and the daemon sees no request of the last ten minutes, then the request is among its events, and
  -- after the answer the agent has none to send.
  pub press_is_delivered :
      (a : Agent) (rounds : List Instant) (now : Instant) (shared : Shared) (subject : Text)
      (at : Timestamp)
      → shared.lock_held ≡ true
      → shared.writable ≡ true
      → is_quiet shared subject at ≡ false
      → let waiting = lost_rounds (press a) rounds in
        let (answer, after) =
          handle j date_text since local shared subject (some (report_of waiting now)) at in
        (after.tables ≡ record_event_at shared.tables subject more_time_requested at)
        × ((report_once waiting now (λ _. some answer)).1.pending_request ≡ none)
  unfolding press report_of report_once
  press_is_delivered a rounds now shared subject at held writable loud =
      let asked = lost_rounds-pending_request rounds (press a) in
      (
        handle_asked shared subject (report_of (lost_rounds (press a) rounds) now) request_minutes
            at refl asked held writable loud,
        refl,
      )
