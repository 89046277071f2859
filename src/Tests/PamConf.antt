-- ===== src/Tests/PamConf.antt =====
-- A short PAM file and the rule of the lock screen.
use time_bandits.Base.{
  ◌≡◌, refl, true, false, some, none, List, [], ◌∷◌, Text, codes, find, entry_of, trim,
  is_whitespace,
}
use time_bandits.PamConf.Lines.{lines, ends_with_newline}
use time_bandits.PamConf.Block.{
  ServiceSpec, auth, auth_control, is_of, rule_line, insert_block, block_lines, inner_lines,
}
use time_bandits.PamConf.Directory.{PamDir, enable_one, disable_one}
use time_bandits.PamConf.First.{insert_block_first}
use time_bandits.PamConf.Switching.{working, enable_then_disable}
use time_bandits.PamConf.Backups.{Run, run_all, run_all-keeps_backup}

abbrev lock_screen : ServiceSpec
lock_screen = record {
  service = codes "kde";
  stack = auth;
  control = auth_control;
  why = codes "the lock screen";
}

abbrev pam_file : Text
pam_file = codes "#%PAM-1.0\naccount include system-auth\nauth include system-auth\n"

insert_block_first_example :
    find (is_of auth) (lines (insert_block pam_file lock_screen).0) ≡ some (rule_line lock_screen)
unfolding lines block_lines inner_lines trim is_whitespace entry_of
insert_block_first_example = insert_block_first pam_file lock_screen refl refl

abbrev pam_dir : PamDir
pam_dir = record { files = (codes "kde", pam_file) ∷ []; backups = []; vendor = none }

enable_then_disable_example :
    entry_of
      (codes "kde")
      (disable_one working false
        (enable_one working false pam_dir lock_screen).1
        lock_screen).1.files
    ≡ some pam_file
unfolding lines block_lines inner_lines trim is_whitespace entry_of ends_with_newline
enable_then_disable_example =
    enable_then_disable lock_screen pam_dir pam_file refl refl refl refl refl

abbrev saved_dir : PamDir
saved_dir = record pam_dir { backups = (codes "kde", codes "auth required\n") ∷ [] }

abbrev on_and_off : List Run
on_and_off =
    record { enables = true; dry_run = false; disk = working }
    ∷ record { enables = false; dry_run = false; disk = record working { writes = false } }
    ∷ []

run_all-keeps_backup_example :
    entry_of (codes "kde") (run_all saved_dir on_and_off).backups ≡ some (codes "auth required\n")
unfolding entry_of
run_all-keeps_backup_example =
    run_all-keeps_backup on_and_off saved_dir (codes "kde") (codes "auth required\n") refl
