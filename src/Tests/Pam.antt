-- ===== src/Tests/Pam.antt =====
-- A child at the login screen, with the daemon's answer and without one.
use time_bandits.Base.{
  ℕ, ◌*◌, ◌-◌, ◌≡◌, ◌↔◌, refl, true, false, Option, some, none, [], codes, leb, ◌=t◌, if◌then◌else◌,
}
use time_bandits.Jiff.{Timestamp, nanos_per_sec}
use time_bandits.Duration.{from_secs, from_hours}
use time_bandits.Policy.{Policy, limited, permissive}
use time_bandits.Schedule.{day_of, uniform, get, policy_day, policy_day_end}
use time_bandits.Engine.{
  DenyReason, evaluate, check_windows, check_quotas, daily_remaining, weekly_remaining,
}
use time_bandits.Usage.{default_segment_config}
use time_bandits.Ticker.State.{Answers, UserState}
use time_bandits.Ticker.Effects.{count}
use time_bandits.Ticker.Enforce.{enforce}
use time_bandits.Ticker.Observe.{new_state}
use time_bandits.Ticker.Decide
use time_bandits.Pam.Protocol.{
  auth, account, answer_ignore, answer_deny, with_reason, with_retry_in,
}
use time_bandits.Pam.Texts.{english}
use time_bandits.Pam.Server.{Days, ahead, behind, answer, refuse, seconds_until, deny_facts}
use time_bandits.Pam.Module.{
  Config, Environment, deny_managed, Reply, replied, no_reply, timed_out, is_refusal, decide,
}
use time_bandits.Pam.Login.{Refuses, decide-Refuses_iff, decide_alone_iff}
use time_bandits.Pam.Agreement.{is_escalation, refused_then_enforced, welcome_then_left}
use time_bandits.Tests.{plain}

abbrev rules : Policy
rules = record (permissive (codes "kid")) {
  enforcement = true;
  daily_quota = uniform (limited (from_hours 2));
}

abbrev used_up : Answers plain
used_up = record {
  policy = some (some rules);
  segment_written = true;
  event_written = true;
  snapshot = some (
    record { used_today = from_hours 2; used_this_week = from_hours 2; bonus_today = from_secs 0 },
    day_of plain 0,
  );
  report = none;
  disabled = false;
  member = some true;
  new_id = 1;
}

abbrev since_days : ℕ → ℕ → Option Days
since_days a b = if leb b a then some (ahead (a - b)) else some (behind (b - a - 1))

abbrev noon : Timestamp
noon = 12 * 3600 * nanos_per_sec

abbrev told : Reply
told = replied (answer plain since_days tt true used_up noon).0

abbrev options : Config
options = record {
  socket = codes "/run/timebandits/pam.sock";
  timeout = from_secs 1;
  fallback = deny_managed;
  managed_group = codes "kids";
  exempt_group = codes "parents";
  debug = false;
}

abbrev machine : Reply → Environment
machine reply = record {
  is_root = λ user. user =t codes "root";
  user_in_group = λ user group. some (group =t codes "kids");
  ask = λ _. reply;
  locale = english;
}

decide-Refuses_iff_example :
    (is_refusal (decide options (machine told) (codes "kid") (codes "sddm") account) ≡ true)
    ↔ ((false ≡ false) × (some false ≡ some false) × Refuses plain since_days tt true used_up noon)
decide-Refuses_iff_example =
    decide-Refuses_iff options (machine told) (codes "kid") (codes "sddm") account plain since_days
      tt true used_up noon refl

decide_alone_iff_example :
    (is_refusal (decide options (machine (no_reply timed_out)) (codes "kid") (codes "kde") auth)
      ≡ true)
    ↔ ((false ≡ false)
        × (some false ≡ some false)
        × (some true ≡ some true)
        × (deny_managed ≡ deny_managed))
decide_alone_iff_example =
    decide_alone_iff options (machine (no_reply timed_out)) (codes "kid") (codes "kde") auth
      timed_out refl

abbrev quiet_state : UserState plain
quiet_state = new_state plain (codes "kid") default_segment_config

refused_then_enforced_example :
    (reason : DenyReason) × (Decide.decide plain [] rules true false noon used_up quiet_state
      ≡ enforce plain [] rules reason noon true quiet_state)
unfolding answer evaluate check_windows check_quotas daily_remaining weekly_remaining refuse
    answer_deny with_reason with_retry_in seconds_until deny_facts get policy_day policy_day_end
refused_then_enforced_example =
    refused_then_enforced plain since_days tt used_up noon rules [] true false quiet_state refl refl
      refl

abbrev not_managed : Answers plain
not_managed = record used_up { member = none }

welcome_then_left_example :
    count is_escalation
      (Decide.decide plain [] rules true false noon not_managed quiet_state).effects
    ≡ 0
unfolding answer answer_ignore
welcome_then_left_example =
    welcome_then_left plain since_days tt not_managed noon rules [] true false quiet_state refl refl
      refl
