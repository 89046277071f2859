-- ===== src/AgentServer/Verdicts.antt =====
-- crates/tb-daemon/src/agentserver.rs: what an agent is told of the verdict.
use time_bandits.Base.{
  ◌≡◌, refl, true, false, Option, none, some, Text, arith, Option-cases, inl, inr, sym, ap, subst,
  ◌∙◌,
}
use time_bandits.Jiff.{Jiff, Timestamp}
use time_bandits.Policy.{Policy}
use time_bandits.Schedule.{PolicyDay}
use time_bandits.Engine.{UsageSnapshot, evaluate, zone_of}
use time_bandits.Ticker.State.{Answers}
use time_bandits.Ticker.Decide.{is_managed}
use time_bandits.Store.Tables.{snapshot}
use time_bandits.Pam.Protocol.{
  Answer, no_retry, Reason, answer_allow, answer_deny, with_reason, with_retry_in, is_deny,
}
use time_bandits.Pam.Texts.{english, deny_text}
use time_bandits.Pam.Server.{Days, answer, refuse, seconds_until, deny_facts}
use time_bandits.Pam.Login.{Verdict-cases}
use time_bandits.AgentServer.Messages.{State}
use time_bandits.AgentServer.Receiver.{Shared, with_verdict, state_before, managed_state, state_for}

-- The agent is told what a login would be told.
abbrev pub Tells : State → Answer → Type 0
Tells state pam =
    (state.blocked ≡ is_deny pam.decision)
    × (state.message ≡ pam.message)
    × (state.reason ≡ pam.reason)
    × (state.retry ≡ pam.retry)

-- The reason is given, and the message is the English text of it.
abbrev pub IsTold : State → Type 0
IsTold state =
    (reason : Reason) × (state.reason ≡ some reason)
    × (state.message ≡ some (deny_text reason state.retry english))

module _ (j : Jiff) (date_text : j.Date → Text) (since : j.Date → j.Date → Option Days)
    (local : j.TimeZone) where
  with_verdict-Tells :
      (policy : Policy) (usage : UsageSnapshot) (day : PolicyDay j) (answers : Answers j)
      (now : Timestamp) (state : State)
      → state.blocked ≡ false
      → state.message ≡ none
      → state.reason ≡ none
      → state.retry ≡ no_retry
      → answers.disabled ≡ false
      → is_managed answers.member ≡ true
      → answers.policy ≡ some (some policy)
      → answers.snapshot ≡ some (usage, day)
      → Tells
          (with_verdict j date_text since local policy usage now state)
          (answer j since local true answers now).0
  unfolding with_verdict answer refuse answer_allow answer_deny with_reason with_retry_in
  with_verdict-Tells policy usage day answers now state b m r t on member found seen =
      elim (Verdict-cases (evaluate j policy usage now)) [
        | inl (a, v) ↦ (ground arith, ground arith, ground arith, ground arith)
        | inr (d, v) ↦ elim (Option-cases (seconds_until d now)) [
          | inl e ↦ (ground arith, ground arith, ground arith, ground arith)
          | inr (n, e) ↦ (ground arith, ground arith, ground arith, ground arith)
        ]
      ]

  with_verdict-message :
      (policy : Policy) (usage : UsageSnapshot) (now : Timestamp) (state : State)
      → state.blocked ≡ false
      → (with_verdict j date_text since local policy usage now state).blocked ≡ true
      → IsTold (with_verdict j date_text since local policy usage now state)
  unfolding with_verdict
  with_verdict-message policy usage now state unblocked blocked =
      elim (Verdict-cases (evaluate j policy usage now)) [
        | inl (a, v) ↦ absurd (ground arith)
        | inr (d, v) ↦
            let (reason, retry) = deny_facts j since local d (zone_of j policy) now in
            (reason, rw (v, with_verdict) refl, rw (v, with_verdict) refl)
      ]

  managed_state_counted :
      (shared : Shared) (subject : Text) (policy : Policy) (now : Timestamp) (usage : UsageSnapshot)
      (day : PolicyDay j)
      → snapshot j date_text shared.tables policy now ≡ some (usage, day)
      → managed_state j date_text since local shared.tables subject policy now
        ≡ with_verdict j date_text since local policy usage now
            (state_before j date_text since local shared.tables subject policy usage now)
  unfolding managed_state
  managed_state_counted shared subject policy now usage day counts = rw (counts, managed_state) refl

  -- If the store can be used, has a policy of the user and can count the usage, enforcement is not
  -- disabled and the group database names the user a member, then an agent is told of a block, a message, a reason and a
  -- retry time exactly as the PAM module is when the user logs in at that moment.
  pub state_for-Tells :
      (shared : Shared) (subject : Text) (policy : Policy) (answers : Answers j) (now : Timestamp)
      (usage : UsageSnapshot) (day : PolicyDay j)
      → shared.lock_held ≡ true
      → shared.readable ≡ true
      → shared.policies subject ≡ some (some policy)
      → answers.disabled ≡ false
      → is_managed answers.member ≡ true
      → answers.policy ≡ some (some policy)
      → snapshot j date_text shared.tables policy now ≡ some (usage, day)
      → answers.snapshot ≡ some (usage, day)
      → Tells
          (state_for j date_text since local shared subject now)
          (answer j since local true answers now).0
  unfolding state_for
  state_for-Tells shared subject policy answers now usage day held readable known on member found
        counts seen =
      rw (held, known, readable, managed_state_counted shared subject policy now usage day counts)
        (with_verdict-Tells policy usage day answers now
          (state_before j date_text since local shared.tables subject policy usage now) refl refl
          refl refl on member found seen)

  managed_state_uncounted :
      (shared : Shared) (subject : Text) (policy : Policy) (now : Timestamp)
      → snapshot j date_text shared.tables policy now ≡ none
      → (managed_state j date_text since local shared.tables subject policy now).blocked ≡ true
      → ⊥
  unfolding managed_state
  managed_state_uncounted shared subject policy now e blocked = ground arith

  managed_state-message :
      (shared : Shared) (subject : Text) (policy : Policy) (now : Timestamp)
      → (managed_state j date_text since local shared.tables subject policy now).blocked ≡ true
      → IsTold (managed_state j date_text since local shared.tables subject policy now)
  managed_state-message shared subject policy now blocked =
      elim (Option-cases (snapshot j date_text shared.tables policy now)) [
        | inl e ↦ absurd (managed_state_uncounted shared subject policy now e blocked)
        | inr ((usage, day), e) ↦
            let is = managed_state_counted shared subject policy now usage day e in
            subst IsTold (sym is) (
              with_verdict-message policy usage now
                (state_before j date_text since local shared.tables subject policy usage now) refl
                (ap (λ (s : State). s.blocked) (sym is) ∙ blocked))
      ]

  -- Whenever the daemon tells an agent of a block, it gives a reason and the English text of it.
  pub state_for-message :
      (shared : Shared) (subject : Text) (now : Timestamp)
      → (state_for j date_text since local shared subject now).blocked ≡ true
      → IsTold (state_for j date_text since local shared subject now)
  unfolding state_for
  state_for-message shared subject now blocked = elim (Option-cases (shared.policies subject)) [
    | inl e ↦ absurd (ground arith)
    | inr (none, e) ↦ absurd (ground arith)
    | inr (some policy, e) ↦
        let m = managed_state j date_text since local shared.tables subject policy now in
        let same : state_for j date_text since local shared subject now ≡ m = ground arith in
        subst IsTold (sym same) (
          managed_state-message shared subject policy now
            (ap (λ (s : State). s.blocked) (sym same) ∙ blocked))
  ]
