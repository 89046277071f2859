-- ===== src/Pam/Module.antt =====
-- crates/tb-pam/src/decide.rs and the entry points of crates/tb-pam/src/lib.rs. The variants `Deny`,
-- `Allow` and `Ignore` of three types are told apart: `deny_managed` and `allow_all` of `Fallback`,
-- `stay_out` and `refusal` of `Outcome`, `ignored` of `ModuleResult`.
use time_bandits.Base.{
  ℕ, Bool, true, false, ◌&&◌, Option, some, none, Text, codes, if◌then◌else◌, unwrap_or,
}
use time_bandits.Duration.{DurationSpec}
use time_bandits.Pam.Protocol.{
  Phase, auth, account, Query, new_query, Answer, allow, ignore, deny, service_unavailable,
  no_retry,
}
use time_bandits.Pam.Texts.{Locale, deny_text}

pub data Fallback : Type 0 where
  deny_managed allow_all : Fallback

pub record Config : Type 0 where
  pub socket : Text
  pub timeout : DurationSpec
  pub fallback : Fallback
  pub managed_group : Text
  pub exempt_group : Text
  pub debug : Bool

pub data Outcome : Type 0 where
  stay_out : Outcome
  refusal : Text → Outcome

pub data ClientError : Type 0 where
  unreachable : Text → ClientError
  timed_out : ClientError
  bad_answer : Text → ClientError

pub data Reply : Type 0 where
  replied : Answer → Reply
  no_reply : ClientError → Reply

-- `Environment`, with what `Locale::from_env` finds.
pub record Environment : Type 0 where
  pub is_root : Text → Bool
  pub user_in_group : Text → Text → Option Bool
  pub ask : Query → Reply
  pub locale : Locale

-- `lookup != Some(false)` and `lookup == Some(true)`.
abbrev pub may_be_member : Option Bool → Bool
may_be_member (some false) = false
may_be_member _ = true

abbrev pub surely_member : Option Bool → Bool
surely_member (some true) = true
surely_member _ = false

abbrev pub is_deny_managed : Fallback → Bool
is_deny_managed deny_managed = true
is_deny_managed allow_all = false

unfoldable pub refusal_text : Locale → Answer → Text
refusal_text locale answer = elim answer.reason [
  | some reason ↦ deny_text reason answer.retry locale
  | none ↦ unwrap_or answer.message (codes "Screen time limit reached.")
]

-- What follows from the reply of the daemon.
unfoldable pub decide_reply : Config → Environment → Text → Reply → Outcome
unfolding refusal_text
decide_reply cfg env user (replied answer) = elim answer.decision [
  | allow ↦ stay_out
  | ignore ↦ stay_out
  | deny ↦ refusal (refusal_text env.locale answer)
]
decide_reply cfg env user (no_reply _) =
    if surely_member (env.user_in_group user cfg.managed_group) && is_deny_managed cfg.fallback
    then refusal (deny_text service_unavailable no_retry env.locale)
    else stay_out

unfoldable pub decide : Config → Environment → Text → Text → Phase → Outcome
unfolding decide_reply
decide cfg env user service phase =
    if env.is_root user
    then stay_out
    else if may_be_member (env.user_in_group user cfg.exempt_group)
    then stay_out
    else decide_reply cfg env user (env.ask (new_query user service phase))

pub data ModuleResult : Type 0 where
  ignored auth_error permission_denied : ModuleResult

-- `PAM_SUCCESS` of libpam, which no result stands for.
abbrev pub pam_success : ℕ
pam_success = 0

-- `ModuleResult::code`.
abbrev pub code_of : ModuleResult → ℕ
code_of ignored = 25
code_of auth_error = 7
code_of permission_denied = 6

abbrev pub refusal_result : Phase → ModuleResult
refusal_result auth = auth_error
refusal_result account = permission_denied

-- `run`, with what libpam says of the user and the service.
unfoldable pub run : Config → Environment → Option Text → Option Text → Phase → ModuleResult
unfolding decide
run cfg env none service phase = ignored
run cfg env (some user) service phase =
    elim (decide cfg env user (unwrap_or service (codes "unknown")) phase) [
      | stay_out ↦ ignored
      | refusal _ ↦ refusal_result phase
    ]

-- `guard`: nothing stands for a body that panics.
unfoldable pub guard : Option ModuleResult → ℕ
guard body = code_of (unwrap_or body ignored)

abbrev pub is_refusal : Outcome → Bool
is_refusal stay_out = false
is_refusal (refusal _) = true
