-- ===== src/Tests/AgentServer.antt =====
-- Reports to a daemon that has a policy and an event.
use time_bandits.Store.Bonus.{counted, BonusFits, snapshot_fits}
use time_bandits.Store.Tables.{bonus_secs}
use time_bandits.Base.{
  ℕ, ◌*◌, ◌≡◌, refl, true, false, some, none, Option, [], ◌∷◌, codes, decimal, arith, ◌=t◌,
  if◌then◌else◌,
}
use time_bandits.Jiff.{Timestamp, nanos_per_sec}
use time_bandits.Policy.{Policy, permissive, limited}
use time_bandits.Schedule.{uniform}
use time_bandits.Duration.{from_hours}
use time_bandits.Agent.{Report, find_report}
use time_bandits.Store.Tables.{Tables, snapshot}
use time_bandits.Ticker.State.{Answers, more_time_requested}
use time_bandits.Pam.Server.{Days, answer}
use time_bandits.AgentServer.Receiver.{Shared, handle, state_for}
use time_bandits.AgentServer.Requests.{requests, AreSpaced, request_all, request_all-AreSpaced}
use time_bandits.AgentServer.Grants.{handle_grants_nothing}
use time_bandits.AgentServer.Verdicts.{Tells, state_for-Tells}
use time_bandits.Tests.{plain}

abbrev pub no_days : ℕ → ℕ → Option Days
no_days a b = none

abbrev pub at_secs : ℕ → Timestamp
at_secs n = n * nanos_per_sec

abbrev pub two_hours : Policy
two_hours = record (permissive (codes "kid")) {
  enforcement = true;
  daily_quota = uniform (limited (from_hours 2));
}

abbrev used_tables : Tables
used_tables = record {
  segments = [];
  bonuses = [];
  events = record { subject = codes "kid"; kind = more_time_requested; at = 100 } ∷ [];
}

abbrev pub daemon : Shared
daemon = record {
  reports = [];
  tables = used_tables;
  policies = λ user. if user =t codes "kid" then some (some two_hours) else some none;
  lock_held = true;
  readable = true;
  writable = true;
}

request_all-AreSpaced_example : AreSpaced (
    requests
      (request_all daemon (codes "kid") (at_secs 300 ∷ at_secs 800 ∷ at_secs 900 ∷ []))
      (codes "kid"))
request_all-AreSpaced_example =
    request_all-AreSpaced (at_secs 300 ∷ at_secs 800 ∷ at_secs 900 ∷ []) daemon (codes "kid")
      (at_secs 200) refl (tt, tt) (omega arith, tt) (omega arith, (omega arith, (omega arith, tt)))

abbrev pub asking : Report
asking = record {
  v = 1;
  focus = none;
  idle_secs = 0;
  locked = false;
  focus_tracking = false;
  request_minutes = some 15;
}

handle_grants_nothing_example :
    let after =
      (handle plain decimal no_days tt daemon (codes "kid") (some asking) (at_secs 900)).1 in
    (snapshot plain decimal after.tables two_hours (at_secs 950)
      ≡ snapshot plain decimal daemon.tables two_hours (at_secs 950))
    × (after.policies ≡ daemon.policies)
    × (find_report (codes "sister") after.reports ≡ find_report (codes "sister") daemon.reports)
handle_grants_nothing_example =
    handle_grants_nothing plain decimal no_days tt daemon (codes "kid") (some asking) (at_secs 900)
      two_hours (at_secs 950) (codes "sister") refl

pub used_fits : BonusFits plain decimal used_tables two_hours (at_secs 900)
unfolding bonus_secs
used_fits = omega arith

abbrev pub database : Answers plain
database = record {
  policy = some (some two_hours);
  segment_written = true;
  event_written = true;
  snapshot = some (counted plain decimal used_tables two_hours (at_secs 900));
  report = none;
  disabled = false;
  member = some true;
  new_id = 1;
}

state_for-Tells_example :
    Tells
      (state_for plain decimal no_days tt daemon (codes "kid") (at_secs 900))
      (answer plain no_days tt true database (at_secs 900)).0
state_for-Tells_example =
    state_for-Tells plain decimal no_days tt daemon (codes "kid") two_hours database (at_secs 900)
      (counted plain decimal used_tables two_hours (at_secs 900)).0
      (counted plain decimal used_tables two_hours (at_secs 900)).1 refl refl refl refl refl refl
      (snapshot_fits plain decimal used_tables two_hours (at_secs 900) used_fits) refl
