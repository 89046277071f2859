-- ===== src/Agent.antt =====
-- What the session agent reports (crates/tb-proto/src/agent.rs), and the latest report of each user
-- (`AgentReports` of crates/tb-daemon/src/agentserver.rs).
use time_bandits.Base.{
  ℕ, ◌-◌, ◌^◌, Bool, Option, none, some, List, [], ◌∷◌, Text, ◌=t◌, ltb, leb, ◌==◌, if◌then◌else◌,
  keep, and_then,
}
use time_bandits.Jiff.{Timestamp, secs_until}
use time_bandits.Duration.{DurationSpec, as_secs}

pub record Focus : Type 0 where
  pub desktop_file : Option Text
  pub resource_class : Option Text
  pub title : Option Text

pub record Report : Type 0 where
  pub v : ℕ
  pub focus : Option Focus
  pub idle_secs : ℕ
  pub locked : Bool
  pub focus_tracking : Bool
  pub request_minutes : Option ℕ

pub record Observed : Type 0 where
  pub report : Report
  pub at : Timestamp

-- The map from users to their latest report, as a list of its entries.
abbrev pub AgentReports : Type 0
AgentReports = List (Text × Observed)

-- `u64::try_from(at.duration_until(now).as_secs()).unwrap_or(u64::MAX)`: a report from a second or
-- more ahead of the clock counts as infinitely old.
unfoldable pub report_age : Timestamp → Timestamp → ℕ
report_age at now =
    if leb at now then secs_until at now else if secs_until now at == 0 then 0 else 2 ^ 64 - 1

abbrev pub find_report : Text → AgentReports → Option Observed
find_report subject [] = none
find_report subject ((user, o) ∷ rest) =
    if user =t subject then some o else find_report subject rest

unfoldable pub record_report : AgentReports → Text → Report → Timestamp → AgentReports
record_report [] subject report at = (subject, record { report = report; at = at }) ∷ []
record_report ((user, o) ∷ rest) subject report at =
    if user =t subject
    then (subject, record { report = report; at = at }) ∷ rest
    else (user, o) ∷ record_report rest subject report at

unfoldable pub fresh : AgentReports → Text → Timestamp → DurationSpec → Option Report
unfolding report_age
fresh reports subject now max_age =
    and_then (find_report subject reports) (λ (o : Observed).
      if ltb (as_secs max_age) (report_age o.at now) then none else some o.report)

unfoldable pub expire : AgentReports → Timestamp → DurationSpec → AgentReports
unfolding report_age
expire reports now max_age = keep (λ (user, o). leb (report_age o.at now) (as_secs max_age)) reports
