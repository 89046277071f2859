-- ===== src/Cli/Checked.antt =====
-- An installation that `tbctl doctor` finds nothing wrong with.
use time_bandits.Base.{
  ◌≡◌, ◌≢◌, refl, sym, ap, ◌∙◌, Bool, true, false, ◌&&◌, not, Option, none, some, List, [], ◌∷◌,
  map, Text, ◌=t◌, text-eq, any, any-sort_by, all, all-append, keep, text_le, arith, Bool-cases,
  Option-cases, inl, inr,
}
use time_bandits.Jiff.{Jiff, Timestamp}
use time_bandits.Policy.{Policy, is_empty}
use time_bandits.Schedule.{PolicyDay}
use time_bandits.Engine.{UsageSnapshot, evaluate, is_allowed}
use time_bandits.Store.Files.{Files, File, read, load, starts_with_dot}
use time_bandits.Ticker.State.{Answers}
use time_bandits.Pam.Protocol.{is_deny}
use time_bandits.Pam.Server.{Days, answer}
use time_bandits.Pam.Login.{Verdict-cases, Refuses-answer}
use time_bandits.Pam.Protocol.{answer_allow}
use time_bandits.Cli.Doctor.{
  ok, Check, Environment, Machine, check_policy, check_policies, check_pam, check_disable_flag,
  run_with, worst, subjects, load_all, doctor_level,
}

abbrev is_ok : Check → Bool
is_ok c = elim c.level [ ok ↦ true | _ ↦ false ]

all-worst : (cs : List Check) → worst cs ≡ ok → all is_ok cs ≡ true
unfolding worst
all-worst [] h = refl
all-worst (c ∷ cs) h = let rest = all-worst cs in ground arith

-- Whether a text is among others.
abbrev pub mentions : Text → List Text → Bool
mentions s = any (λ t. t =t s)

read_of_owner :
    (files : Files) (s : Text)
    → mentions s (map (λ (f : File). f.owner) files) ≡ true
    → read files s ≢ none
unfolding read
read_of_owner [] s h e = ground arith
read_of_owner (f ∷ fs) s h e = let rest = read_of_owner fs s in ground arith

mentions-keep :
    (p : Text → Bool) (s : Text) (ts : List Text)
    → mentions s (keep p ts) ≡ true
    → mentions s ts ≡ true
mentions-keep p s [] h = h
mentions-keep p s (t ∷ ts) h = let rest = mentions-keep p s ts in ground arith

read_of_subject :
    (files : Files) (s : Text) → mentions s (subjects files) ≡ true → read files s ≢ none
unfolding subjects
read_of_subject files s h =
    let owners = map (λ (f : File). f.owner) files in
    let plain : Text → Bool = λ t. not (is_empty t) && not (starts_with_dot t) in
    read_of_owner files s (
      mentions-keep plain s owners
        (sym (any-sort_by text_le (λ t. t =t s) (keep plain owners)) ∙ h))

module _ (j : Jiff) where
  load_of_subject :
      (files : Files) (s : Text) → mentions s (subjects files) ≡ true → load j files s ≢ some none
  unfolding load
  load_of_subject files s h e = let there = read_of_subject files s h in ground arith

  pub load-subject :
      (files : Files) (s : Text) (p : Policy) → load j files s ≡ some (some p) → p.subject ≡ s
  unfolding load
  load-subject files s p e = elim (Option-cases (read files s)) [
    | inl r ↦ absurd (ground arith)
    | inr (none, r) ↦ absurd (ground arith)
    | inr (some q, r) ↦ let same = text-eq q.subject s in ground arith
  ]

  load_all-check :
      (files : Files) (group : Text) (machine : Machine) (ss : List Text) (s : Text)
      → (load_all j machine files ss).1 ≡ false
      → all is_ok (map (check_policy j machine group) (load_all j machine files ss).0) ≡ true
      → mentions s ss ≡ true
      → load j files s ≢ some none
      → (p : Policy) × (load j files s ≡ some (some p))
        × (is_ok (check_policy j machine group p) ≡ true)
  unfolding load_all
  load_all-check files group machine [] s r h m there = ground arith
  load_all-check files group machine (t ∷ rest) s r h m there =
      let later = load_all-check files group machine rest s in
      elim (Option-cases (load j files t)) [
        | inl e ↦ absurd (ground arith)
        | inr (none, e) ↦ elim (Bool-cases (t =t s)) [
          | inl same ↦ absurd (there (ap (load j files) (sym (text-eq t s same)) ∙ e))
          | inr other ↦ later (ground arith) (ground arith) (ground arith) there
        ]
        | inr (some p, e) ↦ elim (Bool-cases (t =t s)) [
          | inl same ↦ (p, ap (load j files) (sym (text-eq t s same)) ∙ e, ground arith)
          | inr other ↦ later (ground arith) (ground arith) (ground arith) there
        ]
      ]

  check_policy-ok :
      (machine : Machine) (group : Text) (p : Policy)
      → is_ok (check_policy j machine group p) ≡ true
      → (p.enforcement ≡ true) × (machine.is_member p.subject group ≡ some true)
  unfolding check_policy
  check_policy-ok machine group p h = (ground arith, ground arith)

  check_policies-ok :
      (machine : Machine) (group : Text) (ps : List Policy)
      → all is_ok (check_policies j machine group ps) ≡ true
      → all is_ok (map (check_policy j machine group) ps) ≡ true
  unfolding check_policies
  check_policies-ok machine group [] h = refl
  check_policies-ok machine group (p ∷ ps) h = h

  -- What the doctor's best verdict says of the machine: the brake is off, the module is found, the
  -- daemon answers, the PAM files carry the module, and the policies are in order.
  record IsSound (machine : Machine) (env : Environment) (files : Files) : Type 0 where
    brake_off : machine.exists env.disable_flag ≡ false
    readable : (load_all j machine files (subjects files)).1 ≡ false
    policies_ok :
        all is_ok (
          map
            (check_policy j machine env.managed_group)
            (load_all j machine files (subjects files)).0)
        ≡ true

  doctor-IsSound :
      (machine : Machine) (env : Environment) (files : Files)
      → doctor_level j machine env files ≡ ok
      → IsSound machine env files
  unfolding doctor_level run_with check_disable_flag
  doctor-IsSound machine env files h =
      elim (Bool-cases (load_all j machine files (subjects files)).1) [
        | inl r ↦ absurd (ground arith)
        | inr r ↦
            let policies = (load_all j machine files (subjects files)).0 in
            let fine = all-worst (run_with j machine env policies) (ground arith) in
            let split =
              all-append is_ok (check_pam machine env.pam)
                (check_policies j machine env.managed_group policies) in
            record {
              brake_off = ground arith;
              readable = r;
              policies_ok = check_policies-ok machine env.managed_group policies (ground arith);
            }
      ]

module _ (j : Jiff) (since : j.Date → j.Date → Option Days) (local : j.TimeZone) where
  -- Where the doctor finds everything in order, every managed user has a policy that loads, and the
  -- daemon, if it sees the same files, brake and groups and can compute the usage, refuses the user
  -- at a login exactly if the policy denies access by that usage.
  pub checked_then_enforced :
      (machine : Machine) (env : Environment) (files : Files) (subject : Text) (answers : Answers j)
      (now : Timestamp) (usage : UsageSnapshot) (day : PolicyDay j)
      → doctor_level j machine env files ≡ ok
      → mentions subject (subjects files) ≡ true
      → answers.policy ≡ load j files subject
      → answers.disabled ≡ machine.exists env.disable_flag
      → answers.member ≡ machine.is_member subject env.managed_group
      → answers.snapshot ≡ some (usage, day)
      → (policy : Policy) × (load j files subject ≡ some (some policy))
        × (policy.enforcement ≡ true)
        × (is_deny (answer j since local true answers now).0.decision
            ≡ not (is_allowed (evaluate j policy usage now)))
  unfolding answer answer_allow
  checked_then_enforced machine env files subject answers now usage day fine named loads brake
        grouped snapped =
      let sound = doctor-IsSound j machine env files fine in
      let (policy, loaded, passed) =
        load_all-check j files env.managed_group machine (subjects files) subject sound.readable
          sound.policies_ok named (load_of_subject j files subject named) in
      let (enforced, member) = check_policy-ok j machine env.managed_group policy passed in
      let named_so = load-subject j files subject policy loaded in
      let joined : answers.member ≡ some true =
        grouped ∙ ap (λ s. machine.is_member s env.managed_group) (sym named_so) ∙ member in
      let known = loads ∙ loaded in
      let off = brake ∙ sound.brake_off in
      (
        policy,
        loaded,
        enforced,
        elim (Verdict-cases (evaluate j policy usage now)) [
          | inl (a, v) ↦ ground arith
          | inr (d, v) ↦
              let refused =
                Refuses-answer j since local true answers now
                  (off, refl, joined, (policy, usage, day, d, known, snapped, v)) in
              ground arith
        ],
      )
