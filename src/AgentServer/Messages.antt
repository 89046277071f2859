-- ===== src/AgentServer/Messages.antt =====
-- crates/tb-proto/src/agent.rs: the answer to the agent, and the cleaning of what it reports.
use time_bandits.Base.{
  ℕ, Bool, false, ◌&&◌, ◌||◌, not, Option, none, some, List, [], ◌∷◌, Text, ltb, leb, keep, length,
  sort_by, trim, if◌then◌else◌, zero, suc,
}
use time_bandits.Policy.{is_empty}
use time_bandits.Agent.{Focus}
use time_bandits.Pam.Protocol.{Reason, RetryAt, no_retry}

pub record AppUsage : Type 0 where
  pub id : Text
  pub name : Text
  pub secs : ℕ

pub record DayOutlook : Type 0 where
  pub weekday : Text
  pub allowance_secs : Option ℕ
  pub used_secs : ℕ
  pub today : Bool
  pub future : Bool

pub data BudgetKind : Type 0 where
  daily weekly : BudgetKind

-- `State`, which the agent is told.
pub record State : Type 0 where
  pub v : ℕ
  pub subject : Text
  pub enforcement : Bool
  pub remaining_secs : Option ℕ
  pub blocked : Bool
  pub message : Option Text
  pub reason : Option Reason
  pub retry : RetryAt
  pub record_titles : Bool
  pub used_today_secs : ℕ
  pub warn_at_secs : List ℕ
  pub apps : List AppUsage
  pub week : List DayOutlook
  pub budget_kind : BudgetKind
  pub weekly_remaining_secs : Option ℕ

-- `VERSION`.
abbrev pub agent_version : ℕ
agent_version = 1

-- `State::unmanaged`.
abbrev pub unmanaged : Text → State
unmanaged subject = record {
  v = agent_version;
  subject = subject;
  enforcement = false;
  remaining_secs = none;
  blocked = false;
  message = none;
  reason = none;
  retry = no_retry;
  record_titles = false;
  used_today_secs = 0;
  warn_at_secs = [];
  apps = [];
  week = [];
  budget_kind = daily;
  weekly_remaining_secs = none;
}

-- `crossed_thresholds`.
unfoldable pub crossed_thresholds : State → ℕ → List ℕ
crossed_thresholds state remaining_secs =
    sort_by (λ a b. leb b a) (keep (λ t. leb remaining_secs t) state.warn_at_secs)

-- `char::is_control`.
abbrev pub is_control : ℕ → Bool
is_control c = ltb c 0x20 || (leb 0x7f c && ltb c 0xa0)

-- `chars().take(n)`.
unfoldable pub take : ℕ → Text → Text
take zero s = []
take (suc n) [] = []
take (suc n) (c ∷ cs) = c ∷ take n cs

-- `clip` of `Focus::sanitized`, on a text that is there.
abbrev pub cleaned : Text → ℕ → Text
cleaned s limit = keep (λ c. not (is_control c)) (if ltb limit (length s) then take limit s else s)

unfoldable pub clip : Option Text → ℕ → Option Text
unfolding take
clip none limit = none
clip (some s) limit = let v = cleaned s limit in if not (is_empty (trim v)) then some v else none

unfoldable pub sanitized : Focus → Focus
unfolding clip
sanitized focus = record {
  desktop_file = clip focus.desktop_file 128;
  resource_class = clip focus.resource_class 128;
  title = clip focus.title 200;
}
