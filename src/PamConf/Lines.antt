-- ===== src/PamConf/Lines.antt =====
-- Texts as lines: `str::lines`, and the loop of crates/tb-cli/src/pamconf.rs that writes lines back.
use mathlib.Core.List.{append_assoc}
use time_bandits.Base.{
  ℕ, ◌≡◌, refl, ap, ◌∙◌, Bool, true, false, ◌&&◌, not, List, [], ◌∷◌, ◌++◌, Text, ◌==◌, any, all,
  arith, if◌then◌else◌, Bool-cases, inl, inr,
}

abbrev pub newline : ℕ
newline = 10

abbrev pub carriage_return : ℕ
carriage_return = 13

abbrev pub starts_with_newline : Text → Bool
starts_with_newline [] = false
starts_with_newline (c ∷ _) = c == newline

-- The first line with one more character.
abbrev pub extend_first : ℕ → List Text → List Text
extend_first c [] = (c ∷ []) ∷ []
extend_first c (l ∷ ls) = (c ∷ l) ∷ ls

-- `str::lines`: a line ends at a newline, which a carriage return may precede; the last line needs
-- no end.
unfoldable pub lines : Text → List Text
lines [] = []
lines (c ∷ cs) =
    let rest = lines cs in
    if c == newline
    then [] ∷ rest
    else if c == carriage_return && starts_with_newline cs
    then rest
    else extend_first c rest

-- Each line with `out.push_str(line); out.push('\n')`.
unfoldable pub unlines : List Text → Text
unlines [] = []
unlines (l ∷ ls) = l ++ newline ∷ unlines ls

-- A line as it stands in a file with plain ends of lines.
abbrev pub is_line : Text → Bool
is_line l = all (λ c. not (c == newline) && not (c == carriage_return)) l

lines-char : (l rest : Text) → is_line l ≡ true → lines (l ++ newline ∷ rest) ≡ l ∷ lines rest
unfolding lines
lines-char [] rest h = refl
lines-char (c ∷ l) rest h = let tail = lines-char l rest (ground arith) in ground arith

-- Lines written back are read again as they were.
pub lines-unlines_append :
    (ls : List Text) (rest : Text)
    → all is_line ls ≡ true
    → lines (unlines ls ++ rest) ≡ ls ++ lines rest
unfolding unlines
lines-unlines_append [] rest h = refl
lines-unlines_append (l ∷ ls) rest h =
    ap lines (append_assoc l (newline ∷ unlines ls) rest)
    ∙ lines-char l (unlines ls ++ rest) (ground arith)
    ∙ ap (λ m. l ∷ m) (lines-unlines_append ls rest (ground arith))

abbrev pub has_return : Text → Bool
has_return s = any (λ c. c == carriage_return) s

-- `ends_with('\n')`.
unfoldable pub ends_with_newline : Text → Bool
ends_with_newline [] = false
ends_with_newline (c ∷ []) = c == newline
ends_with_newline (_ ∷ c ∷ cs) = ends_with_newline (c ∷ cs)

extend_first-lines :
    (c : ℕ) (ls : List Text)
    → not (c == newline) && not (c == carriage_return) ≡ true
    → all is_line ls ≡ true
    → all is_line (extend_first c ls) ≡ true
extend_first-lines c [] h a = ground arith
extend_first-lines c (l ∷ ls) h a = ground arith

-- A text without carriage returns has plain lines.
pub lines_are_plain : (s : Text) → has_return s ≡ false → all is_line (lines s) ≡ true
unfolding lines
lines_are_plain [] h = refl
lines_are_plain (c ∷ cs) h =
    let rest = lines_are_plain cs (ground arith) in
    elim (Bool-cases (c == newline)) [
      | inl e ↦ ground arith
      | inr e ↦ let longer = extend_first-lines c (lines cs) (ground arith) rest in ground arith
    ]

unlines-extend_first :
    (c d : ℕ) (s : Text) (ls : List Text)
    → unlines ls ≡ d ∷ s
    → unlines (extend_first c ls) ≡ c ∷ d ∷ s
unfolding unlines
unlines-extend_first c d s [] h = ground arith
unlines-extend_first c d s (l ∷ ls) h = ap (λ t. c ∷ t) h

lines_nil : lines [] ≡ []
unfolding lines
lines_nil = refl

lines-step :
    (c : ℕ) (cs : Text)
    → (c == carriage_return) ≡ false
    → lines (c ∷ cs) ≡ (if c == newline then [] ∷ lines cs else extend_first c (lines cs))
unfolding lines
lines-step c cs h = ground arith

-- A text without carriage returns whose last line ends is the text of its lines.
pub unlines-lines :
    (s : Text) → has_return s ≡ false → ends_with_newline s ≡ true → unlines (lines s) ≡ s
unfolding unlines ends_with_newline
unlines-lines [] h e = ground arith
unlines-lines (c ∷ []) h e = let step = lines-step c [] (ground arith) in ground (arith, lines_nil)
unlines-lines (c ∷ d ∷ cs) h e =
    let rest = unlines-lines (d ∷ cs) (ground arith) e in
    let step = lines-step c (d ∷ cs) (ground arith) in
    let longer = unlines-extend_first c d cs (lines (d ∷ cs)) rest in
    elim (Bool-cases (c == newline)) [ inl n ↦ ground arith | inr n ↦ ground arith ]
