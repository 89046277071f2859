-- ===== src/PamConf/Dropping.antt =====
-- The loop of `remove_block` on lines without markers, on a block, and on both.
use mathlib.Core.List.{append_assoc}
use time_bandits.Base.{
  ◌≡◌, refl, sym, ap, ◌∙◌, Bool, true, false, ◌&&◌, ◌||◌, not, List, [], ◌∷◌, ◌++◌, Text, any,
  any-append, all, all-append, arith, if◌then◌else◌, trim, is_whitespace,
}
use time_bandits.PamConf.Lines.{newline, lines, unlines, is_line}
use time_bandits.PamConf.Block.{
  ServiceSpec, block_lines, inner_lines, begin_marker, end_marker, is_begin, is_end, drop_block,
}

abbrev pub is_marker : Text → Bool
is_marker l = is_begin l || is_end l

-- The block is made of plain lines, and none between its markers looks like the closing one.
abbrev pub is_plain_spec : ServiceSpec → Bool
is_plain_spec spec = all is_line (block_lines spec) && not (any is_end (inner_lines spec))

pub unlines-append : (xs ys : List Text) → unlines (xs ++ ys) ≡ unlines xs ++ unlines ys
unfolding unlines
unlines-append [] ys = refl
unlines-append (x ∷ xs) ys =
    ap (λ t. x ++ newline ∷ t) (unlines-append xs ys)
    ∙ sym (append_assoc x (newline ∷ unlines xs) (unlines ys))

pub drop_block-inside :
    (inner rest : List Text)
    → any is_end inner ≡ false
    → drop_block true (inner ++ rest) ≡ drop_block true rest
unfolding drop_block
drop_block-inside [] rest h = refl
drop_block-inside (l ∷ ls) rest h =
    let tail = drop_block-inside ls rest (ground arith) in ground arith

pub drop_block-before :
    (before rest : List Text)
    → any is_marker before ≡ false
    → drop_block false (before ++ rest) ≡ before ++ drop_block false rest
unfolding drop_block
drop_block-before [] rest h = refl
drop_block-before (l ∷ ls) rest h =
    let tail = drop_block-before ls rest (ground arith) in ground arith

pub drop_block-begin :
    (inside : Bool) (rest : List Text)
    → drop_block inside (begin_marker ∷ rest) ≡ drop_block true rest
unfolding drop_block trim is_whitespace
drop_block-begin inside rest = refl

pub drop_block-end :
    (inside : Bool) (rest : List Text)
    → drop_block inside (end_marker ∷ rest) ≡ drop_block false rest
unfolding drop_block trim is_whitespace
drop_block-end inside rest = refl

-- A block is dropped whole.
pub drop_block-block_lines :
    (spec : ServiceSpec) (rest : List Text)
    → any is_end (inner_lines spec) ≡ false
    → drop_block false (block_lines spec ++ rest) ≡ drop_block false rest
unfolding block_lines
drop_block-block_lines spec rest h =
    drop_block-begin false ((inner_lines spec ++ end_marker ∷ []) ++ rest)
    ∙ ap (drop_block true) (append_assoc (inner_lines spec) (end_marker ∷ []) rest)
    ∙ drop_block-inside (inner_lines spec) (end_marker ∷ rest) h
    ∙ drop_block-end true rest

pub drop_block_unmarked :
    (inside : Bool) (ls : List Text) → any is_marker (drop_block inside ls) ≡ false
unfolding drop_block
drop_block_unmarked inside [] = refl
drop_block_unmarked inside (l ∷ ls) =
    let within = if is_begin l then true else if is_end l then false else inside in
    let tail = drop_block_unmarked within ls in ground arith

pub drop_block-is_line :
    (inside : Bool) (ls : List Text)
    → all is_line ls ≡ true
    → all is_line (drop_block inside ls) ≡ true
unfolding drop_block
drop_block-is_line inside [] h = refl
drop_block-is_line inside (l ∷ ls) h =
    let within = if is_begin l then true else if is_end l then false else inside in
    let tail = drop_block-is_line within ls (ground arith) in ground arith

pub drop_block_clean : (ls : List Text) → any is_marker ls ≡ false → drop_block false ls ≡ ls
unfolding drop_block
drop_block_clean [] h = refl
drop_block_clean (l ∷ ls) h = let tail = drop_block_clean ls (ground arith) in ground arith

pub drop_block-placed :
    (spec : ServiceSpec) (before after : List Text)
    → is_plain_spec spec ≡ true
    → any is_marker (before ++ after) ≡ false
    → drop_block false (before ++ block_lines spec ++ after) ≡ before ++ after
drop_block-placed spec before after p h =
    let marks = any-append is_marker before after in
    ap (drop_block false) (append_assoc before (block_lines spec) after)
    ∙ drop_block-before before (block_lines spec ++ after) (ground arith)
    ∙ ap (λ ls. before ++ ls)
        (drop_block-block_lines spec after (ground arith) ∙ drop_block_clean after (ground arith))

pub all_lines-placed :
    (spec : ServiceSpec) (before after : List Text)
    → is_plain_spec spec ≡ true
    → all is_line (before ++ after) ≡ true
    → all is_line (before ++ block_lines spec ++ after) ≡ true
all_lines-placed spec before after p h =
    let whole = all-append is_line (before ++ block_lines spec) after in
    let front = all-append is_line before (block_lines spec) in
    let parts = all-append is_line before after in ground arith

-- The lines of a file without its old block.
abbrev pub cleaned_lines : Text → List Text
cleaned_lines content = drop_block false (lines content)
