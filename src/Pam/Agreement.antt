-- ===== src/Pam/Agreement.antt =====
-- The daemon's two halves agree: the loop of tick.rs and the answer to the PAM module, given the same
-- answers of the store and the group database.
use time_bandits.Base.{
  ◌≡◌, refl, Bool, true, false, ◌&&◌, ◌||◌, Option, some, List, arith, Bool-cases, Option-cases,
  inl, inr,
}
use time_bandits.Jiff.{Jiff, Timestamp}
use time_bandits.Policy.{Policy}
use time_bandits.Schedule.{PolicyDay}
use time_bandits.Engine.{DenyReason, Allowance, evaluate}
use time_bandits.Logind.{SessionInfo}
use time_bandits.Ticker.State.{Answers, UserState, Effect}
use time_bandits.Ticker.Effects.{count, is_closing, is_lock, is_termination}
use time_bandits.Ticker.Enforce.{enforce}
use time_bandits.Ticker.Warnings.{on_allowed, announce_crossed}
use time_bandits.Ticker.Decide.{decide, apply_verdict, is_managed, locks_immediately}
use time_bandits.Pam.Protocol.{is_deny}
use time_bandits.Pam.Server.{Days, answer}
use time_bandits.Pam.Login.{Verdict-cases, answer-Refuses, Refuses-answer}

-- The effects of an escalation: an announced closing, a lock or an end.
abbrev pub is_escalation : Effect → Bool
is_escalation e = is_closing e || is_lock e || is_termination e

module _ (j : Jiff) (since : j.Date → j.Date → Option Days) (local : j.TimeZone)
    (answers : Answers j) (now : Timestamp) (policy : Policy) (sessions : List SessionInfo)
    (at_work blind : Bool) (state : UserState j) where
  on_allowed_escalates_not :
      (day : PolicyDay j) (a : Allowance)
      → count is_escalation (on_allowed j policy day at_work a state).effects ≡ 0
  unfolding on_allowed announce_crossed
  on_allowed_escalates_not day a = ground arith

  -- For whom the daemon refuses a login, the loop escalates: it runs `enforce` for the reason of
  -- some denial, if it does so at all without a blind agent.
  pub refused_then_enforced :
      answers.policy ≡ some (some policy)
      → (blind && locks_immediately policy.on_tamper) ≡ false
      → is_deny (answer j since local true answers now).0.decision ≡ true
      → (reason : DenyReason) × (decide j sessions policy at_work blind now answers state
          ≡ enforce j sessions policy reason now answers.event_written state)
  unfolding decide apply_verdict
  refused_then_enforced known seen h =
      let (off, held, member, (p, snapshot, day, d, e, s, v)) =
        answer-Refuses j since local true answers now h in
      (d.reason, ground arith)

  -- For whom the daemon does not refuse a login, a loop that sees the child announces no closing
  -- and locks and ends nothing.
  pub welcome_then_left :
      answers.policy ≡ some (some policy)
      → (blind && locks_immediately policy.on_tamper) ≡ false
      → is_deny (answer j since local true answers now).0.decision ≡ false
      → count is_escalation (decide j sessions policy at_work blind now answers state).effects ≡ 0
  unfolding decide apply_verdict
  welcome_then_left known seen h = elim (Option-cases answers.snapshot) [
    | inl s ↦ ground arith
    | inr ((snapshot, day), s) ↦ elim (Verdict-cases (evaluate j policy snapshot now)) [
      | inl (a, v) ↦ let quiet = on_allowed_escalates_not day a in ground arith
      | inr (d, v) ↦ elim (Bool-cases answers.disabled) [
        | inl off ↦ ground arith
        | inr off ↦ elim (Bool-cases (is_managed answers.member)) [
          | inr m ↦ ground arith
          | inl m ↦
              let refused =
                Refuses-answer j since local true answers now
                  (off, refl, ground arith, (policy, snapshot, day, d, known, s, v)) in
              ground arith
        ]
      ]
    ]
  ]
