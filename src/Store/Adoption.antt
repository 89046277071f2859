-- ===== src/Store/Adoption.antt =====
-- crates/tb-daemon/src/store.rs: `adopt_policies_from_database`.
use time_bandits.Base.{
  ◌≡◌, sym, ap, ◌∙◌, Bool, true, false, Option, none, some, List, [], ◌∷◌, Text, ◌=t◌, text-eq, All,
  arith, if◌then◌else◌, Bool-cases, Option-cases, inl, inr,
}
use time_bandits.Jiff.{Jiff}
use time_bandits.Policy.{Policy, validate}
use time_bandits.Store.Files.{Files, is_usable, write, load, save}
use time_bandits.Store.Versions.{load-save, load_other-save}

-- A row of the old table: a subject, and what the JSON reader makes of its policy.
pub record OldRow : Type 0 where
  pub subject : Text
  pub policy : Option Policy

-- `load(…).is_ok_and(|p| p.is_some())`.
abbrev pub is_loaded : Option (Option Policy) → Bool
is_loaded (some (some _)) = true
is_loaded _ = false

module _ (j : Jiff) (reread : Policy → Option (Option Policy)) where
  -- One round of the loop; nothing stands for an error.
  unfoldable pub adopt_row : Bool → Files → OldRow → Option Files
  unfolding load save
  adopt_row writable files row =
      if is_loaded (load j files row.subject)
      then some files
      else elim row.policy [ none ↦ none | some policy ↦ save j reread writable files policy ]

  -- The loop, which stops at the first error: whether it came to its end, and the files.
  unfoldable pub adopt : Bool → Files → List OldRow → Bool × Files
  unfolding adopt_row
  adopt writable files [] = (true, files)
  adopt writable files (row ∷ rest) = elim (adopt_row writable files row) [
    | none ↦ (false, files)
    | some files' ↦ adopt writable files' rest
  ]

  -- The policy of a row is that of its subject.
  abbrev pub IsOwn : OldRow → Type 0
  IsOwn row = (policy : Policy) → row.policy ≡ some policy → policy.subject ≡ row.subject

  adopt_row_keeps :
      (writable : Bool) (files files' : Files) (row : OldRow) (subject : Text) (p : Policy)
      → IsOwn row
      → load j files subject ≡ some (some p)
      → adopt_row writable files row ≡ some files'
      → load j files' subject ≡ some (some p)
  unfolding adopt_row
  adopt_row_keeps writable files files' row subject p own loaded h =
      elim (Bool-cases (row.subject =t subject)) [
        | inl same ↦
            let there = ap (load j files) (text-eq row.subject subject same) ∙ loaded in
            ground arith
        | inr other ↦ elim (Bool-cases (is_loaded (load j files row.subject))) [
          | inl skipped ↦ ground arith
          | inr absent ↦ elim (Option-cases row.policy) [
            | inl e ↦ ground arith
            | inr (policy, e) ↦
                let apart = ap (λ s. s =t subject) (own policy e) ∙ other in
                let saved : save j reread writable files policy ≡ some files' = ground arith in
                load_other-save j reread writable files files' policy subject apart saved ∙ loaded
          ]
        ]
      ]

  adopt_stops :
      (writable : Bool) (files : Files) (row : OldRow) (rest : List OldRow)
      → adopt_row writable files row ≡ none
      → (adopt writable files (row ∷ rest)).1 ≡ files
  unfolding adopt
  adopt_stops writable files row rest e = ground arith

  adopt_goes_on :
      (writable : Bool) (files files' : Files) (row : OldRow) (rest : List OldRow)
      → adopt_row writable files row ≡ some files'
      → adopt writable files (row ∷ rest) ≡ adopt writable files' rest
  unfolding adopt
  adopt_goes_on writable files files' row rest e = ground arith

  -- Where the policies of the old table are those of their subjects, a policy that could be loaded
  -- before the adoption is what is loaded after it, whatever the table says of it and however the
  -- adoption ends.
  pub adopt_keeps :
      (rows : List OldRow) (writable : Bool) (files : Files) (subject : Text) (p : Policy)
      → All IsOwn rows
      → load j files subject ≡ some (some p)
      → load j (adopt writable files rows).1 subject ≡ some (some p)
  unfolding adopt
  adopt_keeps [] writable files subject p own loaded = loaded
  adopt_keeps (row ∷ rest) writable files subject p (first, own) loaded =
      elim (Option-cases (adopt_row writable files row)) [
        | inl e ↦ ap (λ f. load j f subject) (adopt_stops writable files row rest e) ∙ loaded
        | inr (files', e) ↦
            ap (λ r. load j r.1 subject) (adopt_goes_on writable files files' row rest e)
            ∙ adopt_keeps rest writable files' subject p own
                (adopt_row_keeps writable files files' row subject p first loaded e)
      ]

  save_works :
      (files : Files) (policy content : Policy)
      → is_usable policy.subject ≡ true
      → validate j policy ≡ none
      → reread policy ≡ some (some content)
      → save j reread true files policy ≡ some (write files policy.subject (some content))
  unfolding save
  save_works files policy content usable valid printed = ground arith

  adopt_row_broken :
      (files : Files) (row : OldRow) (policy : Policy)
      → load j files row.subject ≡ none
      → row.policy ≡ some policy
      → adopt_row true files row ≡ save j reread true files policy
  unfolding adopt_row
  adopt_row_broken files row policy broken e = ground arith

  -- A file that is there but cannot be loaded is replaced: if a row has a valid policy of its subject
  -- that is read back as written, then after the adoption of that row the file holds it.
  pub adopt_replaces_broken :
      (files : Files) (row : OldRow) (policy : Policy)
      → load j files row.subject ≡ none
      → is_usable row.subject ≡ true
      → row.policy ≡ some policy
      → policy.subject ≡ row.subject
      → validate j policy ≡ none
      → reread policy ≡ some (some policy)
      → load j (adopt true files (row ∷ [])).1 row.subject ≡ some (some policy)
  unfolding adopt
  adopt_replaces_broken files row policy broken usable e own valid faithful =
      let files' = write files policy.subject (some policy) in
      let saved = save_works files policy policy (ap is_usable own ∙ usable) valid faithful in
      let adopted : adopt_row true files row ≡ some files' =
        adopt_row_broken files row policy broken e ∙ saved in
      ap (λ r. load j r.1 row.subject) (adopt_goes_on true files files' row [] adopted)
      ∙ ap (load j files') (sym own)
      ∙ load-save j reread true files files' policy faithful saved
