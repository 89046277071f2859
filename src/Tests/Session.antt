-- ===== src/Tests/Session.antt =====
-- The agent of a child whose time runs down.
use time_bandits.Base.{ℕ, ◌≡◌, refl, true, some, none, [], ◌∷◌, map, codes, arith, decimal}
use time_bandits.Ticker.State.{more_time_requested}
use time_bandits.Store.Tables.{record_event_at}
use time_bandits.Store.Queries.{last_event_at}
use time_bandits.Agent.{report_age}
use time_bandits.AgentServer.Messages.{State, unmanaged}
use time_bandits.AgentServer.Receiver.{state_for, handle, is_quiet}
use time_bandits.Session.AgentState.{AgentState, new_agent, announcements, nothing, ingest}
use time_bandits.Session.Countdown.{
  with_remaining, without_limit, warned, announcements_warned, unlimited_then_silent,
}
use time_bandits.Session.Round.{
  Agent, press, lost_rounds, report_of, report_once, press_is_delivered,
}
use time_bandits.Session.Bus.{widget, seconds_or_minus_one, message_text, lost_rounds_still_shown}
use time_bandits.Session.Notices.{
  deliver, notice, blocked_kind, blocked_summary, refusal_in_english,
}
use time_bandits.Pam.Protocol.{Reason, no_retry}
use time_bandits.Pam.Texts.{english, german, deny_text}
use time_bandits.Store.Tables.{snapshot}
use time_bandits.Engine.{evaluate, check_windows, check_quotas, daily_remaining}
use time_bandits.Schedule.{get, policy_day, policy_day_end}
use time_bandits.Tests.{plain}
use time_bandits.Tests.Daemon.{evening}
use time_bandits.Tests.AgentServer.{daemon, no_days, at_secs}

abbrev base : State
base = record (unmanaged (codes "kid")) { enforcement = true; warn_at_secs = 900 ∷ 300 ∷ [] }

-- The agent with an hour left, and with a minute.
abbrev with_hour : AgentState
with_hour = record (new_agent (codes "kid")) { last_remaining = some 3600 }

abbrev with_minute : AgentState
with_minute = record (new_agent (codes "kid")) {
  last_remaining = some 60;
  announced = 300 ∷ 900 ∷ [];
}

announcements_warned_example :
    announcements with_hour (map (with_remaining base) (1000 ∷ 800 ∷ 700 ∷ 100 ∷ []))
    ≡ warned (900 ∷ 300 ∷ []) 3600 (1000 ∷ 800 ∷ 700 ∷ 100 ∷ [])
announcements_warned_example =
    announcements_warned (1000 ∷ 800 ∷ 700 ∷ 100 ∷ []) (900 ∷ 300 ∷ []) with_hour base 3600 refl
      refl (refl, refl, λ t there. ground arith)
      (omega arith, (omega arith, (omega arith, (omega arith, tt))))

unlimited_then_silent_example :
    announcements with_minute
      (without_limit base ∷ map (with_remaining base) (7200 ∷ 800 ∷ 100 ∷ []))
    ≡ nothing ∷ map (λ (_ : ℕ). nothing) (7200 ∷ 800 ∷ 100 ∷ [])
unlimited_then_silent_example =
    unlimited_then_silent (7200 ∷ 800 ∷ 100 ∷ []) with_minute base 7200 refl refl
      (λ t there. ground arith) (omega arith, (omega arith, (omega arith, tt)))

abbrev refusal : State
refusal = record base {
  blocked = true;
  remaining_secs = some 0;
  message = some (codes "Time is up.");
}

abbrev agent : Agent
agent = record { state = with_hour; idle_since = none; pending_request = none }

press_is_delivered_example :
    let waiting = lost_rounds (press agent) (1 ∷ 2 ∷ []) in
    let (answer, after) =
      handle plain decimal no_days tt daemon
        (codes "kid")
        (some (report_of waiting 3))
        (at_secs 900) in
    (after.tables ≡ record_event_at daemon.tables (codes "kid") more_time_requested (at_secs 900))
    × ((report_once waiting 3 (λ _. some answer)).1.pending_request ≡ none)
unfolding is_quiet report_age last_event_at
press_is_delivered_example =
    press_is_delivered plain decimal no_days tt agent (1 ∷ 2 ∷ []) 3 daemon (codes "kid")
      (at_secs 900) refl refl refl

abbrev refusing : State
refusing = record base {
  blocked = true;
  remaining_secs = some 0;
  reason = some Reason.daily_quota;
  message = some (deny_text Reason.daily_quota no_retry english);
}

lost_rounds_still_shown_example :
    let heard = record agent { state = (ingest agent.state refusing).1 } in
    let shown = widget true (lost_rounds heard (1 ∷ 2 ∷ [])).state german 3 in
    (shown.available ≡ true)
    × (shown.blocked ≡ true)
    × (shown.remaining_seconds ≡ seconds_or_minus_one (some 0))
    × (shown.message ≡ message_text refusing german)
lost_rounds_still_shown_example = lost_rounds_still_shown agent refusing (1 ∷ 2 ∷ []) german 3

evening_blocked :
    (state_for plain decimal no_days tt evening.shared (codes "kid") (at_secs 30000)).blocked ≡ true
unfolding state_for snapshot evaluate check_windows get policy_day check_quotas daily_remaining
    policy_day_end
evening_blocked = refl

refusal_in_english_example :
    let told = state_for plain decimal no_days tt evening.shared (codes "kid") (at_secs 30000) in
    (reason : Reason) × (told.reason ≡ some reason)
    × (deliver 7 german (ingest with_hour told).0
        ≡ some (
            notice 7 blocked_kind
              (blocked_summary german)
              (deny_text reason told.retry english)
              german))
    × (message_text (ingest with_hour told).1.daemon german ≡ deny_text reason told.retry german)
refusal_in_english_example =
    refusal_in_english plain decimal no_days tt evening.shared (codes "kid") (at_secs 30000)
      with_hour 7 german evening_blocked refl
