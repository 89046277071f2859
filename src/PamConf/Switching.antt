-- ===== src/PamConf/Switching.antt =====
-- crates/tb-cli/src/pamconf.rs: enabling one service and disabling it again, on files.
use mathlib.Core.List.{append_assoc}
use time_bandits.Base.{
  ◌≡◌, refl, ap, ◌∙◌, true, false, some, List, ◌++◌, Text, ◌=t◌, any, any-append, all, arith,
  entry_of, entry_of-put_entry, Bool-cases, inl, inr, text-eq, trim, is_whitespace,
}
use time_bandits.PamConf.Lines.{lines, has_return, lines_are_plain, is_line, ends_with_newline}
use time_bandits.PamConf.Dropping.{
  is_marker, is_plain_spec, cleaned_lines, drop_block-is_line, all_lines-placed,
}
use time_bandits.PamConf.Placing.{place_block_lem, lines-unlines}
use time_bandits.PamConf.Roundtrip.{remove_block_restores}
use time_bandits.PamConf.Block.{
  ServiceSpec, insert_block, remove_block, has_block, is_begin, block_lines,
}
use time_bandits.PamConf.Directory.{
  PamDir, Disk, resolve, backup_once, commit, enable_file, enable_one, disable_one,
}

any-block_lines :
    (spec : ServiceSpec) (rest : List Text) → any is_begin (block_lines spec ++ rest) ≡ true
unfolding block_lines trim is_whitespace
any-block_lines spec rest = refl

has_block-insert_block :
    (content : Text) (spec : ServiceSpec)
    → is_plain_spec spec ≡ true
    → has_return content ≡ false
    → has_block (insert_block content spec).0 ≡ true
unfolding has_block insert_block remove_block
has_block-insert_block content spec p h =
    let ls = cleaned_lines content in
    let plain = drop_block-is_line false (lines content) (lines_are_plain content h) in
    let (before, after, parts, first, placed) = place_block_lem ls spec plain in
    let lined =
      lines-unlines (before ++ block_lines spec ++ after)
        (all_lines-placed spec before after p (ap (all is_line) parts ∙ plain)) in
    let split = any-append is_begin before (block_lines spec ++ after) in
    let marked = any-block_lines spec after in
    ap (λ t. any is_begin (lines t)) placed
    ∙ ap (any is_begin) (lined ∙ append_assoc before (block_lines spec) after)
    ∙ ground arith

-- A disk on which everything works.
abbrev pub working : Disk
working = record { reads = true; writes = true; copies = true }

module _ (spec : ServiceSpec) where
  enable_one-fresh :
      (dir : PamDir) (content : Text)
      → entry_of spec.service dir.files ≡ some content
      → has_return content ≡ false
      → entry_of spec.service (enable_one working false dir spec).1.files
        ≡ some (insert_block content spec).0
  unfolding enable_one resolve enable_file commit backup_once
  enable_one-fresh dir content e h =
      let same = text-eq (insert_block content spec).0 content in
      let stored = entry_of-put_entry spec.service (insert_block content spec).0 dir.files in
      elim (Bool-cases ((insert_block content spec).0 =t content)) [
        | inl t ↦ let eq = same t in ground arith
        | inr t ↦ ground arith
      ]

  disable_one-marked :
      (dir : PamDir) (content : Text)
      → entry_of spec.service dir.files ≡ some content
      → has_block content ≡ true
      → entry_of spec.service (disable_one working false dir spec).1.files
        ≡ some (remove_block content)
  unfolding disable_one commit backup_once
  disable_one-marked dir content e h =
      let stored = entry_of-put_entry spec.service (remove_block content) dir.files in ground arith

-- On a working file system, if the text of the rule is plain and the file of a service has no block,
-- no carriage returns and an end to its last line, then disabling the service after enabling it
-- gives the file back as it was.
pub enable_then_disable :
    (spec : ServiceSpec) (dir : PamDir) (content : Text)
    → is_plain_spec spec ≡ true
    → entry_of spec.service dir.files ≡ some content
    → has_return content ≡ false
    → any is_marker (lines content) ≡ false
    → ends_with_newline content ≡ true
    → let on = (enable_one working false dir spec).1 in
      entry_of spec.service (disable_one working false on spec).1.files ≡ some content
enable_then_disable spec dir content p e h m t =
    disable_one-marked spec (enable_one working false dir spec).1 (insert_block content spec).0
      (enable_one-fresh spec dir content e h) (has_block-insert_block content spec p h)
    ∙ ap some (remove_block_restores content spec p h m t)
