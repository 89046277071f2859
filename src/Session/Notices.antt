-- ===== src/Session/Notices.antt =====
-- crates/tb-agent/src/notify.rs and `deliver` of main.rs: what appears on the desktop. The server of the
-- notifications is an argument: the identifier that it gives, or nothing where it fails.
use time_bandits.Base.{
  ℕ, Bool, true, false, Option, none, some, List, [], ◌∷◌, Text, codes, ◌==◌, if◌then◌else◌, ◌≡◌,
  refl, ap, ◌∙◌, arith, unwrap_or,
}
use time_bandits.Jiff.{Jiff, Timestamp}
use time_bandits.Pam.Protocol.{Reason}
use time_bandits.Pam.Server.{Days}
use time_bandits.AgentServer.Receiver.{Shared, state_for}
use time_bandits.AgentServer.Verdicts.{state_for-message}
use time_bandits.Pam.Texts.{Locale, english, german, deny_text, warning_text}
use time_bandits.AgentServer.Messages.{State}
use time_bandits.Session.AgentState.{
  AgentState, Announcement, warning, refused, restored, nothing, ingest,
}
use time_bandits.Session.Bus.{message_text}

pub data Kind : Type 0 where
  warning_kind blocked_kind restored_kind : Kind

-- `Kind::urgency`, `icon` and `offers_request`.
abbrev pub urgency : Kind → ℕ
urgency restored_kind = 1
urgency _ = 2

abbrev pub icon : Kind → Text
icon warning_kind = codes "clock"
icon blocked_kind = codes "lock"
icon restored_kind = codes "dialog-positive"

abbrev pub offers_request : Kind → Bool
offers_request restored_kind = false
offers_request _ = true

-- The arguments of `notify`.
pub record Notice : Type 0 where
  pub replaces_id : ℕ
  pub app_icon : Text
  pub summary : Text
  pub body : Text
  pub actions : List Text
  pub urgency_hint : ℕ
  pub expire_timeout : ℕ

abbrev ask_text : Locale → Text
ask_text german = codes "Frag nach 15 Minuten mehr"
ask_text english = codes "Ask for 15 more minutes"

-- The notice of `show`.
unfoldable pub notice : ℕ → Kind → Text → Text → Locale → Notice
notice last_id kind summary body locale = record {
  replaces_id = last_id;
  app_icon = icon kind;
  summary = summary;
  body = body;
  actions = if offers_request kind then codes "tb-more-time" ∷ ask_text locale ∷ [] else [];
  urgency_hint = urgency kind;
  expire_timeout = if urgency kind == 2 then 0 else 8000;
}

abbrev warning_summary : Locale → Text
warning_summary german = codes "Bildschirmzeit"
warning_summary english = codes "Screen time"

abbrev pub blocked_summary : Locale → Text
blocked_summary german = codes "Bildschirmzeit aufgebraucht"
blocked_summary english = codes "Screen time is up"

abbrev restored_summary : Locale → Text
restored_summary german = codes "Du hast wieder Zeit"
restored_summary english = codes "Your time is back"

abbrev restored_body : Locale → Text
restored_body german = codes "Ein Elternteil hat dir mehr Zeit gegeben."
restored_body english = codes "A parent has given you more time."

-- `deliver`, with `warn`, `blocked` and `restored`: the notice for an announcement, if any.
unfoldable pub deliver : ℕ → Locale → Announcement → Option Notice
unfolding notice
deliver last_id locale nothing = none
deliver last_id locale (warning remaining) =
    some
      (notice last_id warning_kind (warning_summary locale) (warning_text remaining locale) locale)
deliver last_id locale (refused message) =
    some (notice last_id blocked_kind (blocked_summary locale) message locale)
deliver last_id locale restored =
    some (notice last_id restored_kind (restored_summary locale) (restored_body locale) locale)

-- The notices of a row of announcements, each of which replaces the last one that was shown.
unfoldable pub delivered : (Notice → Option ℕ) → ℕ → Locale → List Announcement → List Notice
unfolding deliver
delivered show last_id locale [] = []
delivered show last_id locale (a ∷ rest) = elim (deliver last_id locale a) [
  | none ↦ delivered show last_id locale rest
  | some n ↦ n ∷ delivered show (unwrap_or (show n) last_id) locale rest
]

message_text_reason :
    (state : State) (reason : Reason) (locale : Locale)
    → state.reason ≡ some reason
    → message_text state locale ≡ deny_text reason state.retry locale
unfolding message_text
message_text_reason state reason locale e = rw (e) refl

refused_as_told :
    (s : AgentState) (answer : State) (reason : Reason) (last_id : ℕ) (locale : Locale)
    → answer.blocked ≡ true
    → answer.reason ≡ some reason
    → answer.message ≡ some (deny_text reason answer.retry english)
    → s.blocked_announced ≡ false
    → (deliver last_id locale (ingest s answer).0
        ≡ some (
            notice last_id blocked_kind
              (blocked_summary locale)
              (deny_text reason answer.retry english)
              locale))
      × (message_text (ingest s answer).1.daemon locale ≡ deny_text reason answer.retry locale)
unfolding deliver ingest
refused_as_told s answer reason last_id locale blocked because told quiet =
    let said : (ingest s answer).0 ≡ refused (deny_text reason answer.retry english) =
      ground arith in
    let kept : (ingest s answer).1.daemon ≡ answer = ground arith in
    (
      ap (deliver last_id locale) said,
      ap (λ (d : State). message_text d locale) kept
          ∙ message_text_reason answer reason locale because,
    )

module _ (j : Jiff) (date_text : j.Date → Text) (since : j.Date → j.Date → Option Days)
    (local : j.TimeZone) where
  -- When the daemon first tells an agent of a block, the notice that appears on the desktop has the
  -- English text of the reason as its body, whatever the language of the session, under a summary in
  -- that language; the widget shows the same refusal in that language.
  pub refusal_in_english :
      (shared : Shared) (subject : Text) (now : Timestamp) (s : AgentState) (last_id : ℕ)
      (locale : Locale)
      → (state_for j date_text since local shared subject now).blocked ≡ true
      → s.blocked_announced ≡ false
      → let told = state_for j date_text since local shared subject now in
        (reason : Reason) × (told.reason ≡ some reason)
        × (deliver last_id locale (ingest s told).0
            ≡ some (
                notice last_id blocked_kind
                  (blocked_summary locale)
                  (deny_text reason told.retry english)
                  locale))
        × (message_text (ingest s told).1.daemon locale ≡ deny_text reason told.retry locale)
  refusal_in_english shared subject now s last_id locale blocked quiet =
      let told = state_for j date_text since local shared subject now in
      let (reason, because, message) =
        state_for-message j date_text since local shared subject now blocked in
      let (shown, widget_text) =
        refused_as_told s told reason last_id locale blocked because message quiet in
      (reason, because, shown, widget_text)
