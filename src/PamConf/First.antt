-- ===== src/PamConf/First.antt =====
-- crates/tb-cli/src/pamconf.rs: where the rule stands in its stack.
use time_bandits.Base.{
  ℕ, ◌≡◌, refl, ap, ◌∙◌, Bool, true, false, none, some, List, [], ◌∷◌, ◌++◌, Text, codes, any, all,
  find, arith, ◌==◌, trim, trim_start, trim_end, is_whitespace,
}
use mathlib.Core.List.{append_assoc}
use time_bandits.PamConf.Lines.{lines, is_line, has_return, lines_are_plain}
use time_bandits.PamConf.Dropping.{
  is_plain_spec, cleaned_lines, drop_block-is_line, all_lines-placed,
}
use time_bandits.PamConf.Placing.{place_block_lem, lines-unlines}
use time_bandits.PamConf.Block.{
  ServiceSpec, Stack, auth, account, keyword, block_lines, inner_lines, comment_lines, rule_line,
  is_of, line_stack, stack_of, begin_marker, insert_block, remove_block, end_marker,
}

find-before :
    (p : Text → Bool) (before rest : List Text)
    → any p before ≡ false
    → find p (before ++ rest) ≡ find p rest
find-before p [] rest h = refl
find-before p (l ∷ ls) rest h = let tail = find-before p ls rest (ground arith) in ground arith

-- A text whose end does not change keeps its end behind any start.
trim_end-append :
    (s t : Text) (c : ℕ) (cs : Text) → trim_end t ≡ c ∷ cs → trim_end (s ++ t) ≡ s ++ (c ∷ cs)
unfolding trim_end
trim_end-append [] t c cs h = h
trim_end-append (d ∷ []) t c cs h = ground arith
trim_end-append (d ∷ e ∷ s) t c cs h = let tail = trim_end-append (e ∷ s) t c cs h in ground arith

-- A comment is of no stack.
trim-comment : (rest : Text) → (r : Text) × (trim (b'#' ∷ rest) ≡ b'#' ∷ r)
unfolding trim trim_start trim_end is_whitespace
trim-comment rest =
    elim (trim_end rest)
      as (λ t.
        (r : Text) × (◌≡◌ {A = Text}
          (elim t as (λ _. Text) [ [] ↦ b'#' ∷ [] | d ∷ ds ↦ b'#' ∷ d ∷ ds ]) (b'#' ∷ r))) [
            | [] ↦ ([], refl)
            | d ∷ ds ↦ (d ∷ ds, refl)
          ]

stack_of-comment : (r : Text) → stack_of (b'#' ∷ r) ≡ none
unfolding stack_of
stack_of-comment r = refl

is_of-comment : (stack : Stack) (rest : Text) → is_of stack (b'#' ∷ rest) ≡ false
unfolding line_stack
is_of-comment stack rest =
    let (r, e) = trim-comment rest in
    let none_at = ap stack_of e ∙ stack_of-comment r in ground arith

abbrev module_text : Text
module_text = codes " pam_timebandits.so"

trim_end-rule : (start : Text) → trim_end (start ++ module_text) ≡ start ++ module_text
unfolding trim_end is_whitespace
trim_end-rule start = trim_end-append start module_text _ _ refl

trim_start-rule_line : (spec : ServiceSpec) → trim_start (rule_line spec) ≡ rule_line spec
unfolding rule_line trim_start is_whitespace
trim_start-rule_line spec =
    elim spec.stack
      as (λ s.
        let line = keyword s ++ codes " " ++ spec.control ++ module_text in
        trim_start line ≡ line) [ auth ↦ refl | account ↦ refl ]

trim-rule_line : (spec : ServiceSpec) → trim (rule_line spec) ≡ rule_line spec
unfolding trim
trim-rule_line spec =
    ap trim_end (trim_start-rule_line spec)
    ∙ unfold rule_line in trim_end-rule (keyword spec.stack ++ codes " " ++ spec.control)

stack_of-rule_line : (spec : ServiceSpec) → stack_of (rule_line spec) ≡ some spec.stack
unfolding stack_of rule_line
stack_of-rule_line spec =
    elim spec.stack
      as (λ s. stack_of (keyword s ++ codes " " ++ spec.control ++ module_text) ≡ some s) [
        | auth ↦ refl
        | account ↦ refl
      ]

is_of-rule_line : (spec : ServiceSpec) → is_of spec.stack (rule_line spec) ≡ true
unfolding line_stack
is_of-rule_line spec =
    let found = ap stack_of (trim-rule_line spec) ∙ stack_of-rule_line spec in ground arith

abbrev is_comment : Text → Bool
is_comment [] = false
is_comment (c ∷ _) = c == b'#'

any-is_comment :
    (stack : Stack) (ls : List Text) → all is_comment ls ≡ true → any (is_of stack) ls ≡ false
any-is_comment stack [] h = refl
any-is_comment stack ([] ∷ ls) h = ground arith
any-is_comment stack ((c ∷ r) ∷ ls) h =
    let rest = any-is_comment stack ls (ground arith) in
    let here = is_of-comment stack r in ground arith

comments_are_comments :
    (spec : ServiceSpec) → all is_comment (begin_marker ∷ comment_lines spec) ≡ true
unfolding comment_lines
comments_are_comments spec = refl

block_lines_shape :
    (spec : ServiceSpec) (rest : List Text)
    → block_lines spec ++ rest
      ≡ (begin_marker ∷ comment_lines spec) ++ (rule_line spec ∷ end_marker ∷ rest)
unfolding block_lines inner_lines
block_lines_shape spec rest = refl

find-rule_line :
    (spec : ServiceSpec) (ls : List Text)
    → find (is_of spec.stack) (rule_line spec ∷ ls) ≡ some (rule_line spec)
find-rule_line spec ls = let own = is_of-rule_line spec in ground arith

-- In the block itself the rule is the first line that is no comment.
find-block_lines :
    (spec : ServiceSpec) (rest : List Text)
    → find (is_of spec.stack) (block_lines spec ++ rest) ≡ some (rule_line spec)
find-block_lines spec rest =
    let comments = begin_marker ∷ comment_lines spec in
    ap (find (is_of spec.stack)) (block_lines_shape spec rest)
    ∙ find-before (is_of spec.stack) comments (rule_line spec ∷ end_marker ∷ rest)
        (any-is_comment spec.stack comments (comments_are_comments spec))
    ∙ find-rule_line spec (end_marker ∷ rest)

-- If the text of the rule is plain and the file has no carriage returns, the first line of the stack
-- in the file with the block is the rule, so nothing of that stack is asked before it.
pub insert_block_first :
    (content : Text) (spec : ServiceSpec)
    → is_plain_spec spec ≡ true
    → has_return content ≡ false
    → find (is_of spec.stack) (lines (insert_block content spec).0) ≡ some (rule_line spec)
unfolding insert_block remove_block
insert_block_first content spec p h =
    let ls = cleaned_lines content in
    let plain = drop_block-is_line false (lines content) (lines_are_plain content h) in
    let (before, after, parts, first, placed) = place_block_lem ls spec plain in
    let lined =
      lines-unlines (before ++ block_lines spec ++ after)
        (all_lines-placed spec before after p (ap (all is_line) parts ∙ plain)) in
    ap (λ t. find (is_of spec.stack) (lines t)) placed
    ∙ ap (find (is_of spec.stack)) (lined ∙ append_assoc before (block_lines spec) after)
    ∙ find-before (is_of spec.stack) before (block_lines spec ++ after) first
    ∙ find-block_lines spec after
