-- ===== src/Cli/Importing.antt =====
-- crates/tb-cli/src/main.rs: what `tbctl policy import` leaves.
use time_bandits.Base.{
  ℕ, ◌+◌, ◌-◌, ◌^◌, ◌<◌, ◌≡◌, sym, ap, ◌∙◌, Bool, false, Option, none, some, Text, ◌=t◌, text-eq,
  text_refl, arith, Option-cases, inl, inr, subst,
}
use time_bandits.Jiff.{Jiff}
use time_bandits.Policy.{Policy, validate}
use time_bandits.Store.Files.{Files, load, save, save_policy}
use time_bandits.Store.Versions.{saved_or_kept, load-save, load_other-save}
use time_bandits.PolicyEdit.Edit.{next_version}
use time_bandits.Cli.Commands.{policy_import}

-- The version of what is there, and 0 where there is nothing.
abbrev pub current_version : Option Policy → ℕ
current_version none = 0
current_version (some p) = p.version

module _ (j : Jiff) (reread : Policy → Option (Option Policy)) (writable : Bool) (files : Files)
    (user : Text) where
  abbrev numbered : Policy → Option Policy → Policy
  numbered given existing = record given { version = next_version (current_version existing) }

  saves_newer :
      (given : Policy) (existing : Option Policy) (files' : Files)
      → given.subject ≡ user
      → load j files user ≡ some existing
      → current_version existing < 2 ^ 64 - 1
      → save_policy j reread writable files (numbered given existing) ≡ some (false, files')
      → ⊥
  unfolding save_policy
  saves_newer given none files' owner loads room s =
      let there = ap (load j files) owner ∙ loads in
      elim (Option-cases (save j reread writable files (numbered given none))) [
        | inl e ↦ ground arith
        | inr (x, e) ↦ ground arith
      ]
  saves_newer given (some e) files' owner loads room s =
      let there = ap (load j files) owner ∙ loads in ground arith

  -- An import that reports a policy.
  record IsImported (given : Policy) (p : Policy) (files' : Files) : Type 0 where
    owner : given.subject ≡ user
    existing : Option Policy
    loads : load j files user ≡ some existing
    is_numbered : p ≡ numbered given existing
    written : Bool
    call : save_policy j reread writable files p ≡ some (written, files')

  policy_import-IsImported :
      (given p : Policy) (files' : Files)
      → policy_import j reread writable files user (some given) ≡ (some p, files')
      → IsImported given p files'
  unfolding policy_import
  policy_import-IsImported given p files' h =
      let owned = text-eq given.subject user in
      elim (Option-cases (load j files user)) [
        | inl e ↦ absurd (ground arith)
        | inr (none, e) ↦
            elim (Option-cases (save_policy j reread writable files (numbered given none))) [
              | inl s ↦ absurd (ground arith)
              | inr ((b, x), s) ↦ record {
                owner = ground arith;
                existing = none;
                loads = e;
                is_numbered = ground arith;
                written = b;
                call = ground arith;
              }
            ]
        | inr (some q, e) ↦
            elim (Option-cases (save_policy j reread writable files (numbered given (some q)))) [
              | inl s ↦ absurd (ground arith)
              | inr ((b, x), s) ↦ record {
                owner = ground arith;
                existing = some q;
                loads = e;
                is_numbered = ground arith;
                written = b;
                call = ground arith;
              }
            ]
      ]

  saved-IsStored :
      (given : Policy) (existing : Option Policy) (files' : Files) (other : Text)
      → given.subject ≡ user
      → load j files user ≡ some existing
      → current_version existing < 2 ^ 64 - 1
      → reread (numbered given existing) ≡ some (some (numbered given existing))
      → (user =t other) ≡ false
      → (written : Bool)
      → save_policy j reread writable files (numbered given existing) ≡ some (written, files')
      → (load j files' user ≡ some (some (numbered given existing)))
        × (load j files' other ≡ load j files other)
  saved-IsStored given existing files' other owner loads room faithful apart written call =
      let p = numbered given existing in
      elim (saved_or_kept j reread writable files p) [
        | inl failed ↦ absurd (ground arith)
        | inr (inl kept) ↦ absurd (saves_newer given existing files owner loads room kept)
        | inr (inr (x, s, c)) ↦
            let same : x ≡ files' = ground arith in
            (
              ap (λ f. load j f user) (sym same)
                  ∙ ap (load j x) (sym owner)
                  ∙ load-save j reread writable files x p faithful s,
              ap (λ f. load j f other) (sym same)
                  ∙ load_other-save j reread writable files x p other
                      (ap (λ u. u =t other) owner ∙ apart) s,
            )
      ]

  -- If the rules that are there are not at the last version and the policy that is reported reads
  -- back from what is written for it as it was, then whatever import reports success, the rules that the user has afterwards are those
  -- of the file, with a version one higher than before, or 1 where there were none; and the rules of
  -- every other user are as before.
  pub import_takes_effect :
      (given p : Policy) (files' : Files) (other : Text)
      → policy_import j reread writable files user (some given) ≡ (some p, files')
      → ((existing : Option Policy)
          → load j files user ≡ some existing
          → current_version existing < 2 ^ 64 - 1)
      → reread p ≡ some (some p)
      → (user =t other) ≡ false
      → (existing : Option Policy) × (load j files user ≡ some existing)
        × (p ≡ record given { version = current_version existing + 1 })
        × (load j files' user ≡ some (some p))
        × (load j files' other ≡ load j files other)
  import_takes_effect given p files' other h room faithful apart =
      let i = policy_import-IsImported given p files' h in
      let small = room i.existing i.loads in
      let is_next : next_version (current_version i.existing) ≡ current_version i.existing + 1 =
        omega arith in
      let call = ap (save_policy j reread writable files) (sym i.is_numbered) ∙ i.call in
      let (stored, others) =
        saved-IsStored given i.existing files' other i.owner i.loads small
          (subst (λ q. reread q ≡ some (some q)) i.is_numbered faithful) apart i.written call in
      (
        i.existing,
        i.loads,
        i.is_numbered ∙ ap (λ v. record given { version = v }) is_next,
        stored ∙ ap (λ q. some (some q)) (sym i.is_numbered),
        others,
      )

  -- Where the rules that are there have the last version, an import of a valid policy for the user
  -- reports success and changes nothing.
  pub import_unnoticed :
      (given existing : Policy)
      → given.subject ≡ user
      → validate j given ≡ none
      → load j files user ≡ some (some existing)
      → existing.version ≡ 2 ^ 64 - 1
      → (p : Policy) × (policy_import j reread writable files user (some given) ≡ (some p, files))
  unfolding policy_import save_policy
  import_unnoticed given existing owner valid loads last =
      let named = text_refl user in
      let there = ap (load j files) owner ∙ loads in (numbered given (some existing), ground arith)
