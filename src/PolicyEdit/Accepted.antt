-- ===== src/PolicyEdit/Accepted.antt =====
-- crates/tb-cli/src/policyedit.rs: an edit that is accepted, and the store.
use time_bandits.Base.{
  ℕ, ◌-◌, ◌<◌, ◌^◌, ◌≡◌, refl, ap, ◌∙◌, sym, true, Option, none, some, Text, text-eq, arith,
}
use time_bandits.Jiff.{Jiff}
use time_bandits.Policy.{
  Policy, validate, check_days, check_day, check_weekly, all_days_limited, max_daily,
}
use time_bandits.Store.Files.{Files, is_usable, write, load, save, save_policy}
use time_bandits.Store.Versions.{load-save}
use time_bandits.PolicyEdit.Edit.{PolicyEdit, edited, apply, next_version}

module _ (j : Jiff) where
  -- The check does not look at the version.
  validate_version : (p : Policy) (v : ℕ) → validate j (record p { version = v }) ≡ validate j p
  unfolding validate check_days check_day check_weekly all_days_limited max_daily
  validate_version p v = refl

  apply_lem :
      (e : PolicyEdit) (base p : Policy)
      → apply j e base ≡ some p
      → (validate j p ≡ none) × (p.subject ≡ base.subject) × (p.version ≡ next_version base.version)
  unfolding apply edited
  apply_lem e base p h =
      let same = validate_version (edited e base) (next_version base.version) in
      (ground arith, ground arith, ground arith)

  loaded_lem :
      (files : Files) (subject : Text) (base : Policy)
      → load j files subject ≡ some (some base)
      → (is_usable subject ≡ true) × (base.subject ≡ subject)
  unfolding load
  loaded_lem files subject base h =
      let owner = text-eq base.subject subject in (ground arith, ground arith)

module _ (j : Jiff) (reread : Policy → Option (Option Policy)) where
  -- If the store has a policy of the subject, an edit of it is accepted, the version is not at its
  -- maximum and a policy that is written can be read back as it was, then the edited policy is written
  -- and is what the store has afterwards.
  pub edit_takes_effect :
      (files : Files) (subject : Text) (e : PolicyEdit) (base p : Policy)
      → load j files subject ≡ some (some base)
      → apply j e base ≡ some p
      → base.version < 2 ^ 64 - 1
      → reread p ≡ some (some p)
      → (files' : Files) × (save_policy j reread true files p ≡ some (true, files'))
        × (load j files' subject ≡ some (some p))
  unfolding save_policy save
  edit_takes_effect files subject e base p loaded accepted room faithful =
      let (valid, subject_kept, version) = apply_lem j e base p accepted in
      let (usable, owner) = loaded_lem j files subject base loaded in
      let files' = write files p.subject (some p) in
      let name : p.subject ≡ subject = subject_kept ∙ owner in
      let stored : load j files p.subject ≡ some (some base) = ap (load j files) name ∙ loaded in
      let saved : save j reread true files p ≡ some files' = ground arith in
      let back = load-save j reread true files files' p faithful saved in
      (files', ground arith, ap (load j files') (sym name) ∙ back)
