-- ===== src/Tests/Cli.antt =====
-- The commands on a machine with one managed child.
use time_bandits.Store.Bonus.{counted, BonusFits, snapshot_fits}
use time_bandits.Engine.{UsageSnapshot}
use time_bandits.Schedule.{PolicyDay}
use time_bandits.Store.Tables.{snapshot_with, bonus_secs}
use time_bandits.Base.{
  ℕ, ◌+◌, ◌-◌, ◌^◌, ◌<◌, ◌≤◌, ◌≡◌, ◌⊎◌, refl, Bool, true, false, not, some, none, Option, [], ◌∷◌,
  codes, decimal, arith, ◌=t◌, trim, is_whitespace, sort_by, entry_of, all,
}
use time_bandits.Duration.{from_mins}
use time_bandits.Policy.{Policy, validate, permissive, check_days, check_day, check_weekly}
use time_bandits.Schedule.{get, policy_day, policy_day_end}
use time_bandits.Engine.{evaluate, is_allowed}
use time_bandits.Store.Files.{Files, load, is_usable, read, write, save_policy}
use time_bandits.Store.Tables.{Tables, snapshot, as_second}
use time_bandits.Ticker.State.{Answers}
use time_bandits.Pam.Protocol.{is_deny, Decision, no_retry}
use time_bandits.Pam.Server.{answer}
use time_bandits.Cli.Doctor.{Environment, Machine, doctor_level}
use time_bandits.Cli.Checked.{checked_then_enforced}
use time_bandits.Cli.Commands.{Status, UsageReport, grant_bonus, policy_import, usage, usage_from}
use time_bandits.Cli.Granting.{bonuses_with}
use time_bandits.Cli.Importing.{current_version, import_takes_effect}
use time_bandits.Cli.Reporting.{lies_inside, usage_of_today}
use time_bandits.Tests.{plain}
use time_bandits.Tests.AgentServer.{two_hours, database, no_days, at_secs}
use time_bandits.Tests.Daemon.{spent_tables}

abbrev files : Files
files = record { owner = codes "kid"; content = some two_hours } ∷ []

abbrev machine : Machine
machine = record {
  exists = λ path. not (path =t codes "/etc/timebandits/disable");
  disk = record { reads = true; writes = true; copies = true };
  peer = λ socket. record { connects = true; sends = λ q. true; line = λ q. some (codes "{}") };
  parse_answer = λ line. some (record {
    v = 1;
    decision = Decision.ignore;
    message = none;
    reason = none;
    retry = no_retry;
    retry_in_secs = none;
  });
  is_member = λ user group. some (user =t codes "kid");
}

abbrev environment : Environment
environment = record {
  pam = record { files = []; backups = []; vendor = none };
  socket = codes "/run/timebandits/pam.sock";
  database = codes "/var/lib/timebandits/state.db";
  disable_flag = codes "/etc/timebandits/disable";
  managed_group = codes "kids";
  module_dirs = codes "/usr/lib64/security" ∷ [];
}

kid_loads : load plain files (codes "kid") ≡ some (some two_hours)
unfolding load is_usable read validate trim is_whitespace check_days check_day get check_weekly
kid_loads = refl

abbrev spent_counts : UsageSnapshot × PolicyDay plain
spent_counts = counted plain decimal spent_tables two_hours (at_secs 30000)

spent_fits : BonusFits plain decimal spent_tables two_hours (at_secs 30000)
unfolding bonus_secs
spent_fits = omega arith

spent_seen : snapshot plain decimal spent_tables two_hours (at_secs 30000) ≡ some spent_counts
spent_seen = snapshot_fits plain decimal spent_tables two_hours (at_secs 30000) spent_fits

abbrev spent_answers : Answers plain
spent_answers = record database { snapshot = some spent_counts }

checked_then_enforced_example :
    (policy : Policy) × (load plain files (codes "kid") ≡ some (some policy))
    × (policy.enforcement ≡ true)
    × (is_deny (answer plain no_days tt true spent_answers (at_secs 30000)).0.decision
        ≡ not (is_allowed (evaluate plain policy spent_counts.0 (at_secs 30000))))
unfolding doctor_level sort_by load is_usable read validate trim is_whitespace check_days check_day
    get check_weekly entry_of
checked_then_enforced_example =
    checked_then_enforced plain no_days tt machine environment files (codes "kid") spent_answers
      (at_secs 30000) spent_counts.0 spent_counts.1 refl refl refl refl refl refl

abbrev no_letters : ℕ → Bool
no_letters c = false

abbrev granted : Tables × Option (Status plain)
granted =
    grant_bonus plain decimal no_letters true files spent_tables (codes "kid") (codes "30")
      (codes "parent") 7 (at_secs 30000) (at_secs 30000)

abbrev bonuses : ℕ
bonuses =
    bonuses_with plain decimal no_letters files spent_tables (codes "kid") (codes "30")
      (codes "parent") (from_mins 30) 7 (at_secs 30000) (at_secs 30000) two_hours

abbrev trusted : Policy → Option (Option Policy)
trusted p = some (some p)

abbrev new_rules : Policy
new_rules = permissive (codes "kid")

first_version :
    (existing : Option Policy)
    → load plain files (codes "kid") ≡ some existing
    → current_version existing < 2 ^ 64 - 1
first_version existing loads = let same = kid_loads in ground arith

abbrev numbered_rules : Policy
numbered_rules = record new_rules { version = 2 }

import_takes_effect_example :
    (existing : Option Policy) × (load plain files (codes "kid") ≡ some existing)
    × (numbered_rules ≡ record new_rules { version = current_version existing + 1 })
    × (load plain (write files (codes "kid") (some numbered_rules)) (codes "kid")
        ≡ some (some numbered_rules))
    × (load plain (write files (codes "kid") (some numbered_rules)) (codes "sister")
        ≡ load plain files (codes "sister"))
unfolding policy_import save_policy write load is_usable read validate trim is_whitespace check_days
    check_day get check_weekly
import_takes_effect_example =
    import_takes_effect plain trusted true files (codes "kid") new_rules numbered_rules
      (write files (codes "kid") (some numbered_rules)) (codes "sister") refl
      (λ existing loads. first_version existing loads) refl refl

usage_of_today_example :
    let used = spent_counts.0.used_today in
    let start = usage_from plain decimal two_hours false spent_counts.1 in
    (report : UsageReport) × (usage plain decimal files spent_tables
        (codes "kid")
        false
        (at_secs 30000)
      ≡ some report)
    × (report.from ≡ start)
    × (used ≤ report.total_time)
    × ((all
            (lies_inside (codes "kid") (as_second start) (as_second (at_secs 30000)))
            spent_tables.segments
          ≡ false)
        ⊎ (used ≡ report.total_time))
unfolding usage_from policy_day_end counted snapshot_with policy_day
usage_of_today_example =
    usage_of_today plain decimal files spent_tables (codes "kid") (at_secs 30000) two_hours
      spent_counts.0 spent_counts.1 kid_loads refl spent_seen (omega arith)
