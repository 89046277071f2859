-- ===== src/Session/Bus.antt =====
-- crates/tb-agent/src/dbus.rs and state.rs: what the widget reads. A property is that of an agent whose
-- mutex can be taken, and a fallback otherwise.
use time_bandits.Base.{
  ℕ, ◌-◌, ◌^◌, min, Bool, true, false, Option, none, some, List, [], ◌∷◌, map, Text, codes,
  unwrap_or, ◌≡◌, refl, ap, ◌∙◌, arith,
}
use time_bandits.Pam.Texts.{Locale, deny_text}
use time_bandits.AgentServer.Messages.{State, AppUsage, DayOutlook, BudgetKind, daily, weekly}
use time_bandits.Session.AgentState.{Instant, AgentState, ingest}
use time_bandits.Session.Focusing.{focus_tracking}
use time_bandits.Session.Round.{Agent, report_once, lost_rounds}
use time_bandits.Store.Tables.{i64_max}

-- Integers with a sign; `negsuc n` is the number n + 1 below zero.
pub data ℤ : Type 0 where
  pos negsuc : ℕ → ℤ

-- `map_or(-1, |v| i64::try_from(v).unwrap_or(i64::MAX))`.
abbrev pub seconds_or_minus_one : Option ℕ → ℤ
seconds_or_minus_one none = negsuc 0
seconds_or_minus_one (some v) = pos (min v i64_max)

-- `u32::try_from(v).unwrap_or(u32::MAX)`.
abbrev pub capped : ℕ → ℕ
capped v = min v (2 ^ 32 - 1)

pub record Widget : Type 0 where
  pub available : Bool
  pub subject : Text
  pub enforcement : Bool
  pub blocked : Bool
  pub remaining_seconds : ℤ
  pub used_today_seconds : ℕ
  pub message : Text
  pub retry_clock : Text
  pub record_titles : Bool
  pub focus_tracking : Bool
  pub apps : List (Text × Text × ℕ)
  pub budget_kind : Text
  pub weekly_remaining_seconds : ℤ
  pub week : List (Text × ℤ × ℕ × Bool)

-- What `with` falls back to.
abbrev pub fallback_widget : Widget
fallback_widget = record {
  available = false;
  subject = [];
  enforcement = false;
  blocked = false;
  remaining_seconds = negsuc 0;
  used_today_seconds = 0;
  message = [];
  retry_clock = [];
  record_titles = false;
  focus_tracking = false;
  apps = [];
  budget_kind = codes "daily";
  weekly_remaining_seconds = negsuc 0;
  week = [];
}

-- `AgentState::apps`, `week` and `budget_kind`.
unfoldable pub app_shares : State → List (Text × Text × ℕ)
app_shares state = map (λ (a : AppUsage). (a.id, a.name, capped a.secs)) state.apps

unfoldable pub day_shares : State → List (Text × ℤ × ℕ × Bool)
day_shares state =
    map
      (λ (d : DayOutlook).
        (d.weekday, seconds_or_minus_one d.allowance_secs, capped d.used_secs, d.today))
      state.week

abbrev pub budget_text : BudgetKind → Text
budget_text daily = codes "daily"
budget_text weekly = codes "weekly"

-- `message`, in the language of the session.
unfoldable pub message_text : State → Locale → Text
message_text state locale = elim state.reason [
  | some reason ↦ deny_text reason state.retry locale
  | none ↦ unwrap_or state.message []
]

unfoldable pub widget : Bool → AgentState → Locale → Instant → Widget
unfolding app_shares day_shares message_text
widget false s locale now = fallback_widget
widget true s locale now = record {
  available = s.answered;
  subject = s.daemon.subject;
  enforcement = s.daemon.enforcement;
  blocked = s.daemon.blocked;
  remaining_seconds = seconds_or_minus_one s.daemon.remaining_secs;
  used_today_seconds = capped s.daemon.used_today_secs;
  message = message_text s.daemon locale;
  retry_clock = unwrap_or s.daemon.retry.clock [];
  record_titles = s.daemon.record_titles;
  focus_tracking = focus_tracking s now;
  apps = app_shares s.daemon;
  budget_kind = budget_text s.daemon.budget_kind;
  weekly_remaining_seconds = seconds_or_minus_one s.daemon.weekly_remaining_secs;
  week = day_shares s.daemon;
}

report_once-state : (a : Agent) (now : Instant) → (report_once a now (λ _. none)).1.state ≡ a.state
unfolding report_once
report_once-state a now = ground arith

lost_rounds-state : (rounds : List Instant) (a : Agent) → (lost_rounds a rounds).state ≡ a.state
lost_rounds-state [] a = refl
lost_rounds-state (now ∷ rest) a =
    lost_rounds-state rest (report_once a now (λ _. none)).1 ∙ report_once-state a now

ingest-daemon :
    (s : AgentState) (answer : State)
    → ((ingest s answer).1.daemon ≡ answer) × ((ingest s answer).1.answered ≡ true)
unfolding ingest
ingest-daemon s answer = (ground arith, ground arith)

-- After one answer of the daemon, however many rounds then fail, the widget still says that the
-- daemon is available, and shows the remaining time and the refusal of that answer.
pub lost_rounds_still_shown :
    (a : Agent) (answer : State) (rounds : List Instant) (locale : Locale) (now : Instant)
    → let heard = record a { state = (ingest a.state answer).1 } in
      let shown = widget true (lost_rounds heard rounds).state locale now in
      (shown.available ≡ true)
      × (shown.blocked ≡ answer.blocked)
      × (shown.remaining_seconds ≡ seconds_or_minus_one answer.remaining_secs)
      × (shown.message ≡ message_text answer locale)
unfolding widget
lost_rounds_still_shown a answer rounds locale now =
    let heard = record a { state = (ingest a.state answer).1 } in
    let kept = lost_rounds-state rounds heard in
    let (told, answered) = ingest-daemon a.state answer in
    (
      ap (λ (s : AgentState). s.answered) kept ∙ answered,
      ap (λ (s : AgentState). s.daemon.blocked) kept ∙ ap (λ (s : State). s.blocked) told,
      ap (λ (s : AgentState). seconds_or_minus_one s.daemon.remaining_secs) kept
          ∙ ap (λ (s : State). seconds_or_minus_one s.remaining_secs) told,
      ap (λ (s : AgentState). message_text s.daemon locale) kept
          ∙ ap (λ s. message_text s locale) told,
    )
