-- ===== src/Pam/Login.antt =====
-- When the module of crates/tb-pam refuses: with the daemon's answer, and without one.
use time_bandits.Base.{
  ◌≡◌, ◌≢◌, ◌↔◌, ◌⊎◌, inl, inr, Option-cases, refl, ap, ◌∙◌, ℕ, Bool, true, false, Option, some,
  none, Text, arith, if◌then◌else◌,
}
use time_bandits.Jiff.{Jiff, Timestamp}
use time_bandits.Policy.{Policy}
use time_bandits.Schedule.{PolicyDay}
use time_bandits.Engine.{
  UsageSnapshot, Allowance, Verdict, Denial, denied, allowed, evaluate, zone_of,
}
use time_bandits.Ticker.State.{Answers}
use time_bandits.Pam.Protocol.{
  Phase, auth, account, Answer, new_query, with_retry_in, answer_deny, with_reason, is_deny,
  answer_ignore, answer_allow,
}
use time_bandits.Pam.Server.{Days, answer, refuse, add_retry_in, seconds_until}
use time_bandits.Pam.Module.{
  Config, Environment, ClientError, replied, no_reply, decide, decide_reply, is_refusal,
  deny_managed, ignored, run, guard, pam_success, code_of, refusal_result,
}

pub Verdict-cases :
    (v : Verdict) → ((a : Allowance) × (v ≡ allowed a)) ⊎ ((d : Denial) × (v ≡ denied d))
Verdict-cases (allowed a) = inl (a, refl)
Verdict-cases (denied d) = inr (d, refl)

module _ (j : Jiff) (since : j.Date → j.Date → Option Days) (local : j.TimeZone) where
  -- The brake is off, the store works, the user has a policy and is in the managed group, and the
  -- rules deny.
  abbrev pub Refuses : Bool → Answers j → Timestamp → Type 0
  Refuses lock_held answers now =
      (answers.disabled ≡ false)
      × (lock_held ≡ true)
      × (answers.member ≡ some true)
      × ((policy : Policy) × (snapshot : UsageSnapshot) × (day : PolicyDay j) × (d : Denial)
          × (answers.policy ≡ some (some policy))
          × (answers.snapshot ≡ some (snapshot, day))
          × (evaluate j policy snapshot now ≡ denied d))

  add_retry_in-decision :
      (secs : Option ℕ) (a : Answer) → (add_retry_in j since local secs a).decision ≡ a.decision
  unfolding with_retry_in
  add_retry_in-decision none a = refl
  add_retry_in-decision (some n) a = refl

  pub refuse-is_deny :
      (d : Denial) (tz : j.TimeZone) (now : Timestamp)
      → is_deny (refuse j since local d tz now).decision ≡ true
  unfolding refuse answer_deny with_reason
  refuse-is_deny d tz now = ap is_deny (add_retry_in-decision (seconds_until d now) _)

  pub answer-Refuses :
      (lock_held : Bool) (answers : Answers j) (now : Timestamp)
      → is_deny (answer j since local lock_held answers now).0.decision ≡ true
      → Refuses lock_held answers now
  unfolding answer answer_ignore answer_allow
  answer-Refuses lock_held answers now h = elim (Option-cases answers.policy) [
    | inl e ↦ ground arith
    | inr (p, e) ↦ elim (Option-cases p) [
      | inl e' ↦ ground arith
      | inr (policy, e') ↦ elim (Option-cases answers.snapshot) [
        | inl s ↦ ground arith
        | inr ((snapshot, day), s) ↦ elim (Verdict-cases (evaluate j policy snapshot now)) [
          | inl (a, v) ↦ ground arith
          | inr (d, v) ↦ (
            ground arith,
            ground arith,
            ground arith,
            (policy, snapshot, day, d, e ∙ ap some e', s, v),
          )
        ]
      ]
    ]
  ]

  pub Refuses-answer :
      (lock_held : Bool) (answers : Answers j) (now : Timestamp)
      → Refuses lock_held answers now
      → is_deny (answer j since local lock_held answers now).0.decision ≡ true
  unfolding answer
  Refuses-answer lock_held answers now (off, held, member, (policy, snapshot, day, d, e, s, v)) =
      let deny = refuse-is_deny d (zone_of j policy) now in ground arith

module _ (cfg : Config) (env : Environment) (user service : Text) (phase : Phase) where
  -- A module that hears the daemon's answer refuses exactly if the user is not root and surely not
  -- exempt, the brake is off, the store works, the user has a policy and is surely in the managed
  -- group, and the rules deny at this moment.
  pub decide-Refuses_iff :
      (j : Jiff) (since : j.Date → j.Date → Option Days) (local : j.TimeZone) (lock_held : Bool)
      (answers : Answers j) (now : Timestamp)
      → env.ask (new_query user service phase)
        ≡ replied (answer j since local lock_held answers now).0
      → (is_refusal (decide cfg env user service phase) ≡ true) ↔ (
          (env.is_root user ≡ false)
          × (env.user_in_group user cfg.exempt_group ≡ some false)
          × Refuses j since local lock_held answers now)
  unfolding decide decide_reply
  decide-Refuses_iff j since local lock_held answers now heard =
      let to = answer-Refuses j since local lock_held answers now in
      let from = Refuses-answer j since local lock_held answers now in
      (
        λ h. (ground arith, ground arith, to (ground arith)),
        λ (root, exempt, r). let d = from r in ground arith,
      )

  -- A module that hears nothing from the daemon refuses exactly if the user is not root, surely not
  -- exempt and surely managed, and the fallback denies.
  pub decide_alone_iff :
      (error : ClientError)
      → env.ask (new_query user service phase) ≡ no_reply error
      → (is_refusal (decide cfg env user service phase) ≡ true) ↔ (
          (env.is_root user ≡ false)
          × (env.user_in_group user cfg.exempt_group ≡ some false)
          × (env.user_in_group user cfg.managed_group ≡ some true)
          × (cfg.fallback ≡ deny_managed))
  unfolding decide decide_reply
  decide_alone_iff error heard = (λ h. ground arith, λ (a, b, c, d). ground arith)

-- Whatever libpam says and even if the body panics, an entry point of the module returns the code
-- for staying out or the error of its stack, and so never success.
pub entry_vetoes :
    (cfg : Config) (env : Environment) (user service : Option Text) (phase : Phase) (panics : Bool)
    → let code = guard (if panics then none else some (run cfg env user service phase)) in
      ((code ≡ code_of ignored) ⊎ (code ≡ code_of (refusal_result phase))) × (code ≢ pam_success)
unfolding run guard
entry_vetoes cfg env none service phase panics = ground arith
entry_vetoes cfg env (some user) service auth panics = ground arith
entry_vetoes cfg env (some user) service account panics = ground arith
