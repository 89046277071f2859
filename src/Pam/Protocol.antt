-- ===== src/Pam/Protocol.antt =====
-- crates/tb-proto/src/pam.rs: the question and the answer; and the facts of a refusal from
-- crates/tb-proto/src/text.rs.
use time_bandits.Base.{ℕ, Bool, true, false, Option, some, none, Text}

pub data Phase : Type 0 where
  auth account : Phase

pub data Reason : Type 0 where
  daily_quota weekly_quota outside_window service_unavailable : Reason

pub record RetryAt : Type 0 where
  pub clock : Option Text
  pub not_today : Bool
  pub weekday : Option Text

-- `RetryAt::default`.
abbrev pub no_retry : RetryAt
no_retry = record { clock = none; not_today = false; weekday = none }

abbrev pub version : ℕ
version = 1

pub record Query : Type 0 where
  pub v : ℕ
  pub user : Text
  pub service : Text
  pub phase : Phase

abbrev pub new_query : Text → Text → Phase → Query
new_query user service phase = record { v = version; user = user; service = service; phase = phase }

pub data Decision : Type 0 where
  ignore allow deny : Decision

pub record Answer : Type 0 where
  pub v : ℕ
  pub decision : Decision
  pub message : Option Text
  pub reason : Option Reason
  pub retry : RetryAt
  pub retry_in_secs : Option ℕ

abbrev bare : Decision → Option Text → Answer
bare decision message = record {
  v = version;
  decision = decision;
  message = message;
  reason = none;
  retry = no_retry;
  retry_in_secs = none;
}

-- `Answer::allow`, `Answer::ignore` and `Answer::deny`.
unfoldable pub answer_allow : Answer
answer_allow = bare allow none

unfoldable pub answer_ignore : Answer
answer_ignore = bare ignore none

unfoldable pub answer_deny : Text → Answer
answer_deny message = bare deny (some message)

unfoldable pub with_reason : Answer → Reason → RetryAt → Answer
with_reason answer reason retry = record answer { reason = some reason; retry = retry }

unfoldable pub with_retry_in : Answer → ℕ → Answer
with_retry_in answer secs = record answer { retry_in_secs = some secs }

abbrev pub is_deny : Decision → Bool
is_deny deny = true
is_deny _ = false
