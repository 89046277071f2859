-- ===== src/AppId/Trimming.antt =====
-- `str::trim_end_matches`, whose loop has fuel in the model.
use mathlib.Core.List.{reverse, reverse-cons, reverse-reverse}
use time_bandits.Base.{
  ℕ, zero, suc, ◌+◌, ◌≤◌, ◌≡◌, refl, ap, ◌∙◌, none, some, [], ◌∷◌, ◌++◌, Text, length, arith,
  Option-cases, inl, inr,
}
use time_bandits.AppId.{strip_prefix, strip_all, trim_end_matches}

length-strip_prefix :
    (p s rest : Text) → strip_prefix p s ≡ some rest → length s ≡ length p + length rest
length-strip_prefix [] s rest h = ground arith
length-strip_prefix (p ∷ ps) [] rest h = ground arith
length-strip_prefix (p ∷ ps) (c ∷ cs) rest h = elim (Option-cases (strip_prefix ps cs)) [
  | inl e ↦ ground arith
  | inr (r, e) ↦ let shorter = length-strip_prefix ps cs r e in ground arith
]

strip_all-none : (fuel : ℕ) (p s : Text) → strip_prefix p s ≡ none → strip_all (suc fuel) p s ≡ s
unfolding strip_all
strip_all-none fuel p s e = ground arith

strip_all-some :
    (fuel : ℕ) (p s rest : Text)
    → strip_prefix p s ≡ some rest
    → strip_all (suc fuel) p s ≡ strip_all fuel p rest
unfolding strip_all
strip_all-some fuel p s rest e = ground arith

-- As many rounds as the text is long leave no prefix.
strip_all_ends :
    (fuel : ℕ) (p s : Text)
    → 1 ≤ length p
    → length s ≤ fuel
    → strip_prefix p (strip_all fuel p s) ≡ none
strip_all_ends zero [] s q l = ground arith
strip_all_ends zero (p ∷ ps) [] q l = unfold strip_all in refl
strip_all_ends zero (p ∷ ps) (c ∷ cs) q l = ground arith
strip_all_ends (suc fuel) p s q l = elim (Option-cases (strip_prefix p s)) [
  | inl e ↦ ap (strip_prefix p) (strip_all-none fuel p s e) ∙ e
  | inr (rest, e) ↦
      let shorter = length-strip_prefix p s rest e in
      ap (strip_prefix p) (strip_all-some fuel p s rest e)
      ∙ strip_all_ends fuel p rest q (omega (arith, shorter))
]

length-snoc : (s : Text) (c : ℕ) → length (s ++ c ∷ []) ≡ suc (length s)
length-snoc [] c = refl
length-snoc (d ∷ ds) c = ap suc (length-snoc ds c)

length-reversed : (s : Text) → length (reverse s) ≡ length s
length-reversed [] = refl
length-reversed (c ∷ cs) =
    ap length (reverse-cons c cs) ∙ length-snoc (reverse cs) c ∙ ap suc (length-reversed cs)

-- Whatever the text, the loop of `trim_end_matches` ends within as many rounds as the text has
-- characters: if the pattern is not empty, the result does not end with it.
pub trim_end_matches_ends :
    (pattern s : Text)
    → 1 ≤ length pattern
    → strip_prefix (reverse pattern) (reverse (trim_end_matches pattern s)) ≡ none
unfolding trim_end_matches
trim_end_matches_ends pattern s q =
    ap (strip_prefix (reverse pattern))
      (reverse-reverse (strip_all (length s) (reverse pattern) (reverse s)))
    ∙ strip_all_ends (length s) (reverse pattern) (reverse s)
        (omega (arith, length-reversed pattern, q)) (omega (arith, length-reversed s))
