-- ===== src/PamConf/Directory.antt =====
-- crates/tb-cli/src/pamconf.rs: the files under /etc/pam.d, and what `tbctl pam` does to them.
use time_bandits.Base.{
  Bool, true, false, ◌&&◌, not, Option, none, some, List, [], ◌∷◌, ◌++◌, Text, codes, ◌=t◌, is_some,
  if◌then◌else◌, and_then, entry_of, put_entry,
}
use time_bandits.PamConf.Block.{
  ServiceSpec, Placement, adopted_from_vendor, has_block, insert_block, remove_block, managed,
}

-- The files of `root` and their backups by service, and those of the vendor, if it is looked at. A
-- backup is a file beside the original with another name.
pub record PamDir : Type 0 where
  pub files : List (Text × Text)
  pub backups : List (Text × Text)
  pub vendor : Option (List (Text × Text))

-- Whether the file system does what a call asks: to read, to write and to copy.
pub record Disk : Type 0 where
  pub reads : Bool
  pub writes : Bool
  pub copies : Bool

pub data Change : Type 0 where
  service_absent already_present nothing_to_remove : Text → Change
  modified : Text → Option Placement → Change

-- `Result<Change>`, with the directory as it is left.
abbrev pub Changed : Type 0
Changed = Option Change × PamDir

-- `VENDOR_DIR`.
abbrev vendor_dir : Text
vendor_dir = codes "/usr/lib/pam.d"

abbrev pub vendor_file : PamDir → Text → Option Text
vendor_file dir service = and_then dir.vendor (entry_of service)

unfoldable pub adopted_text : Text → Text → Text
adopted_text service body =
    codes "# Copied from "
    ++ vendor_dir
    ++ codes "/"
    ++ service
    ++ codes " by tbctl, because a rule added to the vendor file\n"
    ++ codes "# would be lost on the next package update. Files here override\n"
    ++ codes "# same-named ones there.\n"
    ++ body

-- What `resolve` returns: an error, no file, or a file and whether it was adopted.
pub data Resolved : Type 0 where
  failed absent : Resolved
  found : Bool → Resolved

unfoldable pub resolve : Disk → Bool → PamDir → Text → Resolved × PamDir
unfolding adopted_text
resolve disk dry_run dir service = elim (entry_of service dir.files) [
  | some _ ↦ (found false, dir)
  | none ↦ elim (vendor_file dir service) [
    | none ↦ (absent, dir)
    | some body ↦
        if dry_run
        then (found true, dir)
        else if not disk.reads
        then (failed, dir)
        else if not disk.writes
        then (failed, dir)
        else (
          found true,
          record dir { files = put_entry service (adopted_text service body) dir.files },
        )
  ]
]

-- `backup_once`.
unfoldable pub backup_once : Disk → PamDir → Text → Text → Option PamDir
backup_once disk dir service content =
    if is_some (entry_of service dir.backups)
    then some dir
    else if disk.copies
    then some (record dir { backups = put_entry service content dir.backups })
    else none

-- The writing of a changed file, after the backup.
unfoldable pub commit : Disk → Bool → PamDir → Text → Text → Text → Change → Changed
unfolding backup_once
commit disk dry_run dir service content updated change =
    if dry_run then (some change, dir) else elim (backup_once disk dir service content) [
      | none ↦ (none, dir)
      | some dir' ↦
          if disk.writes
          then (some change, record dir' { files = put_entry service updated dir'.files })
          else (none, dir')
    ]

-- `enable_one` once the file is resolved.
unfoldable pub enable_file : Disk → Bool → PamDir → ServiceSpec → Changed
unfolding commit
enable_file disk dry_run dir spec = elim (entry_of spec.service dir.files) [
  | none ↦ (none, dir)
  | some content ↦
      if not disk.reads
      then (none, dir)
      else let (updated, placement) = insert_block content spec in
        if updated =t content
        then (some (already_present spec.service), dir)
        else commit disk dry_run dir spec.service content updated
            (modified spec.service (some placement))
]

unfoldable pub enable_one : Disk → Bool → PamDir → ServiceSpec → Changed
unfolding resolve enable_file
enable_one disk dry_run dir spec =
    let (resolved, dir') = resolve disk dry_run dir spec.service in
    elim resolved [
      | failed ↦ (none, dir')
      | absent ↦ (some (service_absent spec.service), dir')
      | found adopted ↦
          if adopted && dry_run
          then (some (modified spec.service (some adopted_from_vendor)), dir')
          else enable_file disk dry_run dir' spec
    ]

unfoldable pub disable_one : Disk → Bool → PamDir → ServiceSpec → Changed
unfolding commit
disable_one disk dry_run dir spec = elim (entry_of spec.service dir.files) [
  | none ↦ (some (service_absent spec.service), dir)
  | some content ↦
      if not disk.reads
      then (none, dir)
      else if not (has_block content)
      then (some (nothing_to_remove spec.service), dir)
      else commit disk dry_run dir spec.service content (remove_block content)
          (modified spec.service none)
]

-- `map(…).collect()`: the changes, or an error, after which the loop stops.
unfoldable pub change_all :
    (PamDir → ServiceSpec → Changed) → List ServiceSpec → PamDir → Option (List Change) × PamDir
change_all one [] dir = (some [], dir)
change_all one (spec ∷ rest) dir =
    let (change, dir') = one dir spec in
    let later = change_all one rest dir' in
    elim change [
      | none ↦ (none, dir')
      | some c ↦ (elim later.0 [ none ↦ none | some cs ↦ some (c ∷ cs) ], later.1)
    ]

unfoldable pub enable : Disk → Bool → PamDir → Option (List Change) × PamDir
unfolding enable_one change_all
enable disk dry_run dir = change_all (enable_one disk dry_run) managed dir

unfoldable pub disable : Disk → Bool → PamDir → Option (List Change) × PamDir
unfolding disable_one change_all
disable disk dry_run dir = change_all (disable_one disk dry_run) managed dir

pub data ServiceState : Type 0 where
  configured not_configured missing : ServiceState

-- `status` of one service: the file of the administrator, or else that of the vendor.
unfoldable pub status_one : PamDir → ServiceSpec → ServiceState
status_one dir spec =
    let content : Option Text = elim (entry_of spec.service dir.files) [
      | some content ↦ some content
      | none ↦ vendor_file dir spec.service
    ] in
    elim content [ none ↦ missing | some c ↦ if has_block c then configured else not_configured ]
