-- ===== src/AgentServer/Receiver.antt =====
-- crates/tb-daemon/src/agentserver.rs: `Receiver`. Its store is the tables, the policies that load,
-- and whether the lock is held and the database answers; `deny_facts` is that of the PAM server.
use time_bandits.Base.{
  Bool, true, false, ◌&&◌, not, Option, none, some, map, Text, ltb, leb, if◌then◌else◌, map_option,
}
use time_bandits.Jiff.{Jiff, Timestamp}
use time_bandits.Duration.{DurationSpec, as_secs, from_mins}
use time_bandits.Policy.{Policy, sorted_warnings}
use time_bandits.Engine.{UsageSnapshot, allowed, denied, evaluate, zone_of}
use time_bandits.Agent.{Report, AgentReports, record_report, report_age}
use time_bandits.Ticker.State.{more_time_requested}
use time_bandits.Store.Tables.{Tables, snapshot, record_event_at}
use time_bandits.Store.Queries.{last_event_at}
use time_bandits.Pam.Server.{Days, deny_facts}
use time_bandits.Pam.Texts.{deny_text, english}
use time_bandits.AgentServer.Messages.{State, unmanaged, sanitized, agent_version}
use time_bandits.AgentServer.Outlook.{budget_kind_of, apps_today, week_outlook, weekly_remaining}

-- What the receiver works on: the reports, and the store.
pub record Shared : Type 0 where
  pub reports : AgentReports
  pub tables : Tables
  pub policies : Text → Option (Option Policy)
  pub lock_held : Bool
  pub readable : Bool
  pub writable : Bool

-- `QUIET_PERIOD`.
abbrev pub quiet_period : DurationSpec
quiet_period = from_mins 10

-- Whether a request was made within the quiet period; a query that fails counts as no request.
unfoldable pub is_quiet : Shared → Text → Timestamp → Bool
unfolding last_event_at report_age
is_quiet shared subject now =
    if shared.readable
    then elim (last_event_at shared.tables subject more_time_requested) [
      | none ↦ false
      | some last ↦ ltb (report_age last now) (as_secs quiet_period)
    ]
    else false

-- `record_request`; the number of minutes stands only in the text of the event.
unfoldable pub record_request : Shared → Text → Timestamp → Shared
unfolding is_quiet record_event_at
record_request shared subject now =
    if not shared.lock_held
    then shared
    else if is_quiet shared subject now
    then shared
    else if shared.writable
    then record shared { tables = record_event_at shared.tables subject more_time_requested now }
    else shared

abbrev pub clean_report : Report → Report
clean_report report = record report { focus = map_option sanitized report.focus }

module _ (j : Jiff) (date_text : j.Date → Text) (since : j.Date → j.Date → Option Days)
    (local : j.TimeZone) where
  -- The part of `state_for` that follows from the verdict.
  unfoldable pub with_verdict : Policy → UsageSnapshot → Timestamp → State → State
  with_verdict policy usage now state = elim (evaluate j policy usage now) [
    | allowed a ↦ record state { remaining_secs = map_option as_secs a.remaining }
    | denied d ↦
        let (reason, retry) = deny_facts j since local d (zone_of j policy) now in
        record state {
          blocked = true;
          remaining_secs = some 0;
          message = some (deny_text reason retry english);
          reason = some reason;
          retry = retry;
        }
  ]

  -- The part of `state_for` before the verdict.
  abbrev pub state_before : Tables → Text → Policy → UsageSnapshot → Timestamp → State
  state_before tables subject policy usage now =
      let week = week_outlook j tables policy now in
      record (unmanaged subject) {
        enforcement = policy.enforcement;
        record_titles = policy.record_window_titles;
        used_today_secs = as_secs usage.used_today;
        warn_at_secs = map as_secs (sorted_warnings policy);
        apps = apps_today j tables policy now;
        week = week;
        budget_kind = budget_kind_of policy;
        weekly_remaining_secs = weekly_remaining j policy week;
      }

  -- `state_for` with the policy and the snapshot.
  unfoldable pub managed_state : Tables → Text → Policy → Timestamp → State
  unfolding with_verdict
  managed_state tables subject policy now = elim (snapshot j date_text tables policy now) [
    | none ↦ unmanaged subject
    | some (usage, day) ↦
        with_verdict policy usage now (state_before tables subject policy usage now)
  ]

  unfoldable pub state_for : Shared → Text → Timestamp → State
  unfolding managed_state
  state_for shared subject now =
      if not shared.lock_held then unmanaged subject else elim (shared.policies subject) [
        | none ↦ unmanaged subject
        | some none ↦ unmanaged subject
        | some (some policy) ↦
            if not shared.readable
            then unmanaged subject
            else managed_state shared.tables subject policy now
      ]

  unfoldable pub accept : Shared → Text → Report → Timestamp → State × Shared
  unfolding record_request record_report state_for
  accept shared subject report now =
      let asked = elim report.request_minutes as (λ _. Shared) [
        | none ↦ shared
        | some _ ↦ record_request shared subject now
      ] in
      let heard = record asked {
        reports = record_report asked.reports subject (clean_report report) now;
      } in
      (state_for heard subject now, heard)

  -- `handle` after the peer is known: a report that cannot be read, or is of another version, only
  -- asks for the state.
  unfoldable pub handle : Shared → Text → Option Report → Timestamp → State × Shared
  unfolding accept
  handle shared subject none now = (state_for shared subject now, shared)
  handle shared subject (some report) now =
      if leb report.v agent_version && leb agent_version report.v
      then accept shared subject report now
      else (state_for shared subject now, shared)
