-- ===== src/Store/Versions.antt =====
-- The version rule of `save_policy`.
use time_bandits.Base.{
  ◌≤◌, ◌≡◌, ◌⊎◌, sym, ap, ◌∙◌, Bool, true, false, Option, none, some, [], ◌∷◌, Text, leb, ◌=t◌,
  text-eq, text_refl, arith, Bool-cases, Option-cases, inl, inr,
}
use time_bandits.Jiff.{Jiff}
use time_bandits.Policy.{Policy}
use time_bandits.Store.Files.{Files, read, write, load, save, save_policy, files_after}

read-write :
    (files : Files) (subject : Text) (content : Option Policy)
    → read (write files subject content) subject ≡ some content
unfolding read write
read-write [] subject content = let same = text_refl subject in ground arith
read-write (f ∷ fs) subject content =
    let same = text_refl subject in let rest = read-write fs subject content in ground arith

read_other-write :
    (files : Files) (subject other : Text) (content : Option Policy)
    → (subject =t other) ≡ false
    → read (write files subject content) other ≡ read files other
unfolding read write
read_other-write [] subject other content h = ground arith
read_other-write (f ∷ fs) subject other content h =
    let rest = read_other-write fs subject other content h in
    let same = text-eq f.owner subject in
    elim (Bool-cases (f.owner =t subject)) [
      | inl e ↦ let owner = same e in ground arith
      | inr e ↦ ground arith
    ]

module _ (j : Jiff) (reread : Policy → Option (Option Policy)) where
  -- What was saved and is read back as printed is what `load` then gives.
  pub load-save :
      (writable : Bool) (files files' : Files) (policy : Policy)
      → reread policy ≡ some (some policy)
      → save j reread writable files policy ≡ some files'
      → load j files' policy.subject ≡ some (some policy)
  unfolding load save
  load-save writable files files' policy faithful h =
      let back = read-write files policy.subject (some policy) in
      let same = text_refl policy.subject in ground arith

  pub load_other-save :
      (writable : Bool) (files files' : Files) (policy : Policy) (other : Text)
      → (policy.subject =t other) ≡ false
      → save j reread writable files policy ≡ some files'
      → load j files' other ≡ load j files other
  unfolding load save
  load_other-save writable files files' policy other h s = elim (Option-cases (reread policy)) [
    | inl e ↦ ground arith
    | inr (content, e) ↦
        let kept = read_other-write files policy.subject other content h in ground arith
  ]

  pub saved_or_kept :
      (writable : Bool) (files : Files) (policy : Policy)
      → (save_policy j reread writable files policy ≡ none)
        ⊎ (save_policy j reread writable files policy ≡ some (false, files))
        ⊎ ((files' : Files) × (save j reread writable files policy ≡ some files')
            × (save_policy j reread writable files policy ≡ some (true, files')))
  unfolding save_policy
  saved_or_kept writable files policy = elim (Option-cases (save j reread writable files policy)) [
    | inl s ↦ ground arith
    | inr (files', s) ↦ elim (Option-cases (load j files policy.subject)) [
      | inl l ↦ inl (ground arith)
      | inr (none, l) ↦ inr (inr (files', s, ground arith))
      | inr (some existing, l) ↦ elim (Bool-cases (leb policy.version existing.version)) [
        | inl old ↦ inr (inl (ground arith))
        | inr new ↦ inr (inr (files', s, ground arith))
      ]
    ]
  ]

  saved-newer :
      (writable : Bool) (files files' : Files) (policy existing : Policy)
      → load j files policy.subject ≡ some (some existing)
      → save_policy j reread writable files policy ≡ some (true, files')
      → existing.version ≤ policy.version
  unfolding save_policy
  saved-newer writable files files' policy existing l s = ground arith

  -- A saved policy takes the place of its user's, which was no newer, and of no other.
  saved-version :
      (writable : Bool) (files files' : Files) (policy : Policy) (subject : Text) (current : Policy)
      → reread policy ≡ some (some policy)
      → load j files subject ≡ some (some current)
      → save j reread writable files policy ≡ some files'
      → save_policy j reread writable files policy ≡ some (true, files')
      → (later : Policy) × (load j files' subject ≡ some (some later))
        × (current.version ≤ later.version)
  saved-version writable files files' policy subject current faithful h s written =
      elim (Bool-cases (policy.subject =t subject)) [
        | inl e ↦
            let same : policy.subject ≡ subject = text-eq policy.subject subject e in
            (
              policy,
              ap (λ x. load j files' x) (sym same)
                  ∙ load-save writable files files' policy faithful s,
              saved-newer writable files files' policy current (ap (λ x. load j files x) same ∙ h)
                  written,
            )
        | inr e ↦
            (current, load_other-save writable files files' policy subject e s ∙ h, omega arith)
      ]

  -- If the reader reads back what the writer prints for the policy that is given, no call of `save_policy`, for whatever user and
  -- whether it succeeds, lowers the version of a policy that loads: it still loads, at that version
  -- or a later one.
  pub save_policy-version :
      (writable : Bool) (files : Files) (policy : Policy) (subject : Text) (current : Policy)
      → reread policy ≡ some (some policy)
      → load j files subject ≡ some (some current)
      → (later : Policy) × (load j
            (files_after files (save_policy j reread writable files policy))
            subject
          ≡ some (some later))
        × (current.version ≤ later.version)
  save_policy-version writable files policy subject current faithful h =
      elim (saved_or_kept writable files policy) [
        | inl e ↦ (current, ap (λ r. load j (files_after files r) subject) e ∙ h, omega arith)
        | inr (inl e) ↦ (current, ap (λ r. load j (files_after files r) subject) e ∙ h, omega arith)
        | inr (inr (files', s, e)) ↦
            let (later, l, le) =
              saved-version writable files files' policy subject current faithful h s e in
            (later, ap (λ r. load j (files_after files r) subject) e ∙ l, le)
      ]
