-- ===== src/PamConf/Roundtrip.antt =====
-- crates/tb-cli/src/pamconf.rs: adding the block and removing it again.
use time_bandits.Base.{◌≡◌, refl, ap, ◌∙◌, true, false, ◌++◌, Text, any, all, trim, is_whitespace}
use time_bandits.PamConf.Dropping.{
  is_marker, is_plain_spec, cleaned_lines, drop_block-is_line, drop_block-placed,
  drop_block_unmarked, drop_block_clean, all_lines-placed,
}
use time_bandits.PamConf.Placing.{place_block_lem, lines-unlines}
use time_bandits.PamConf.Lines.{
  lines, unlines, ends_with_newline, is_line, has_return, lines_are_plain, unlines-lines,
}
use time_bandits.PamConf.Block.{
  ServiceSpec, managed, block_lines, inner_lines, drop_block, remove_block, place_block,
  insert_block,
}

-- If the text of the rule is plain and the file has no carriage returns, removing the block after
-- adding it gives what removing the block before would have given.
pub remove_block-insert_block :
    (content : Text) (spec : ServiceSpec)
    → is_plain_spec spec ≡ true
    → has_return content ≡ false
    → remove_block (insert_block content spec).0 ≡ remove_block content
unfolding remove_block insert_block
remove_block-insert_block content spec p h =
    let ls = cleaned_lines content in
    let plain = drop_block-is_line false (lines content) (lines_are_plain content h) in
    let (before, after, parts, _, placed) = place_block_lem ls spec plain in
    let unmarked = ap (any is_marker) parts ∙ drop_block_unmarked false (lines content) in
    let lined =
      lines-unlines (before ++ block_lines spec ++ after)
        (all_lines-placed spec before after p (ap (all is_line) parts ∙ plain)) in
    ap remove_block placed
    ∙ ap unlines
        (ap (drop_block false) lined ∙ drop_block-placed spec before after p unmarked ∙ parts)

-- Under the same conditions, adding the block to a file that already has it leaves the file as it is,
-- so that running the tool again changes nothing.
pub insert_block_idempotent :
    (content : Text) (spec : ServiceSpec)
    → is_plain_spec spec ≡ true
    → has_return content ≡ false
    → (insert_block (insert_block content spec).0 spec).0 ≡ (insert_block content spec).0
unfolding insert_block
insert_block_idempotent content spec p h =
    ap (λ cleaned. (place_block cleaned spec).0) (remove_block-insert_block content spec p h)

-- A file without markers and carriage returns, whose last line ends, is restored exactly by removing
-- the block again.
pub remove_block_restores :
    (content : Text) (spec : ServiceSpec)
    → is_plain_spec spec ≡ true
    → has_return content ≡ false
    → any is_marker (lines content) ≡ false
    → ends_with_newline content ≡ true
    → remove_block (insert_block content spec).0 ≡ content
unfolding remove_block
remove_block_restores content spec p h m e =
    remove_block-insert_block content spec p h
    ∙ ap unlines (drop_block_clean (lines content) m)
    ∙ unlines-lines content h e

-- The services that the tool manages have plain rules.
pub managed_is_plain : all is_plain_spec managed ≡ true
unfolding block_lines inner_lines trim is_whitespace
managed_is_plain = refl
