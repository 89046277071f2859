-- ===== src/PamConf/Backups.antt =====
-- crates/tb-cli/src/pamconf.rs: what the tool does to backups, and in a dry run.
use time_bandits.Base.{
  ◌≡◌, refl, Bool, true, none, some, List, [], ◌∷◌, Text, ◌=t◌, arith, if◌then◌else◌, entry_of,
  entry_of_other-put_entry, Bool-cases, Option-cases, inl, inr, text-eq, if_elim,
}
use time_bandits.PamConf.Block.{ServiceSpec, managed, insert_block, remove_block}
use time_bandits.PamConf.Directory.{
  PamDir, Disk, Change, modified, Changed, resolve, backup_once, commit, enable_file, enable_one,
  disable_one, change_all, enable, disable,
}

module _ (disk : Disk) where
  resolve_dry : (dir : PamDir) (service : Text) → (resolve disk true dir service).1 ≡ dir
  unfolding resolve
  resolve_dry dir service = ground arith

  enable_file_dry : (dir : PamDir) (spec : ServiceSpec) → (enable_file disk true dir spec).1 ≡ dir
  unfolding enable_file
  enable_file_dry dir spec = ground arith

  enable_one_dry : (dir : PamDir) (spec : ServiceSpec) → (enable_one disk true dir spec).1 ≡ dir
  unfolding enable_one
  enable_one_dry dir spec =
      let same = resolve_dry dir spec.service in
      let kept = enable_file_dry (resolve disk true dir spec.service).1 spec in ground arith

  disable_one_dry : (dir : PamDir) (spec : ServiceSpec) → (disable_one disk true dir spec).1 ≡ dir
  unfolding disable_one
  disable_one_dry dir spec = ground arith

change_all_keeps :
    (one : PamDir → ServiceSpec → Changed)
    → ((dir : PamDir) (spec : ServiceSpec) → (one dir spec).1 ≡ dir)
    → (specs : List ServiceSpec) (dir : PamDir) → (change_all one specs dir).1 ≡ dir
unfolding change_all
change_all_keeps one h [] dir = refl
change_all_keeps one h (spec ∷ rest) dir =
    let here = h dir spec in
    let later = change_all_keeps one h rest (one dir spec).1 in ground arith

module _ (disk : Disk) (dry_run : Bool) (key body : Text) where
  -- The backup of a service is there, with this text.
  abbrev Saved : PamDir → Type 0
  Saved dir = entry_of key dir.backups ≡ some body

  backup_once-Saved :
      (dir dir' : PamDir) (service content : Text)
      → Saved dir
      → backup_once disk dir service content ≡ some dir'
      → Saved dir'
  unfolding backup_once
  backup_once-Saved dir dir' service content h e = elim (Bool-cases (service =t key)) [
    | inl t ↦ let eq = text-eq service key t in ground arith
    | inr t ↦ let other = entry_of_other-put_entry key service content dir.backups t in ground arith
  ]

  commit-Saved :
      (dir : PamDir) (service content updated : Text) (change : Change)
      → Saved dir
      → Saved (commit disk dry_run dir service content updated change).1
  unfolding commit
  commit-Saved dir service content updated change h =
      elim (Option-cases (backup_once disk dir service content)) [
        | inl e ↦ ground arith
        | inr (dir', e) ↦ let kept = backup_once-Saved dir dir' service content h e in ground arith
      ]

  enable_file-Saved :
      (dir : PamDir) (spec : ServiceSpec) → Saved dir → Saved (enable_file disk dry_run dir spec).1
  unfolding enable_file
  enable_file-Saved dir spec h = elim (Option-cases (entry_of spec.service dir.files)) [
    | inl e ↦ ground arith
    | inr (content, e) ↦
        let kept =
          commit-Saved dir spec.service content (insert_block content spec).0
            (modified spec.service (some (insert_block content spec).1)) h in
        ground arith
  ]

  enable_one-Saved :
      (dir : PamDir) (spec : ServiceSpec) → Saved dir → Saved (enable_one disk dry_run dir spec).1
  unfolding enable_one resolve
  enable_one-Saved dir spec h =
      let resolved = (resolve disk dry_run dir spec.service).1 in
      let same : Saved resolved = ground arith in
      let kept = enable_file-Saved resolved spec same in ground arith

  disable_one-Saved :
      (dir : PamDir) (spec : ServiceSpec) → Saved dir → Saved (disable_one disk dry_run dir spec).1
  unfolding disable_one
  disable_one-Saved dir spec h = elim (Option-cases (entry_of spec.service dir.files)) [
    | inl e ↦ ground arith
    | inr (content, e) ↦
        let kept =
          commit-Saved dir spec.service content (remove_block content) (modified spec.service none)
            h in
        ground arith
  ]

  change_all-Saved :
      (one : PamDir → ServiceSpec → Changed)
      → ((dir : PamDir) (spec : ServiceSpec) → Saved dir → Saved (one dir spec).1)
      → (specs : List ServiceSpec) (dir : PamDir) → Saved dir
      → Saved (change_all one specs dir).1
  unfolding change_all
  change_all-Saved one step [] dir h = h
  change_all-Saved one step (spec ∷ rest) dir h =
      let here = step dir spec h in
      let later = change_all-Saved one step rest (one dir spec).1 here in ground arith

-- A call of `tbctl pam`: whether it enables, in a dry run, and what the file system does.
pub record Run : Type 0 where
  pub enables : Bool
  pub dry_run : Bool
  pub disk : Disk

abbrev pub run_one : PamDir → Run → PamDir
run_one dir run =
    if run.enables
    then (enable run.disk run.dry_run dir).1
    else (disable run.disk run.dry_run dir).1

unfoldable pub run_all : PamDir → List Run → PamDir
run_all dir [] = dir
run_all dir (run ∷ rest) = run_all (run_one dir run) rest

run_one-keeps :
    (key body : Text) (dir : PamDir) (run : Run)
    → entry_of key dir.backups ≡ some body
    → entry_of key (run_one dir run).backups ≡ some body
unfolding enable disable
run_one-keeps key body dir run h =
    let on =
      change_all-Saved run.disk run.dry_run key body (enable_one run.disk run.dry_run)
        (enable_one-Saved run.disk run.dry_run key body) managed dir h in
    let off =
      change_all-Saved run.disk run.dry_run key body (disable_one run.disk run.dry_run)
        (disable_one-Saved run.disk run.dry_run key body) managed dir h in
    if_elim (λ (d : PamDir). entry_of key d.backups ≡ some body) run.enables
      (enable run.disk run.dry_run dir).1 (disable run.disk run.dry_run dir).1 (λ _. on) (λ _. off)

-- However often the tool enables and disables afterwards, and whatever fails on the way, a backup that
-- was once taken of a service keeps its text.
pub run_all-keeps_backup :
    (runs : List Run) (dir : PamDir) (service body : Text)
    → entry_of service dir.backups ≡ some body
    → entry_of service (run_all dir runs).backups ≡ some body
unfolding run_all
run_all-keeps_backup [] dir service body h = h
run_all-keeps_backup (run ∷ rest) dir service body h =
    run_all-keeps_backup rest (run_one dir run) service body (run_one-keeps service body dir run h)

-- A dry run, of whichever kind, leaves every file and every backup as it is.
pub dry_run_keeps :
    (disk : Disk) (dir : PamDir)
    → ((enable disk true dir).1 ≡ dir) × ((disable disk true dir).1 ≡ dir)
unfolding enable disable
dry_run_keeps disk dir = (
  change_all_keeps (enable_one disk true) (enable_one_dry disk) managed dir,
  change_all_keeps (disable_one disk true) (disable_one_dry disk) managed dir,
)
