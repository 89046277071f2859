-- ===== src/Store/Permuted.antt =====
-- Lists of rows that differ in their order only.
use mathlib.Core.List.{Permᴰ}
use time_bandits.Base.{
  ℕ, ◌≡◌, refl, sym, ap, ◌∙◌, Bool, ◌||◌, List, [], ◌∷◌, ◌++◌, map, keep, sum, any, arith,
}

module _ {ℓ} {A : Type ℓ} (p : A → Bool) where
  pub sum-perm :
      (f : A → ℕ) (xs ys : List A) → Permᴰ xs ys → sum (map f (keep p xs)) ≡ sum (map f (keep p ys))
  sum-perm f _ _ Permᴰ.nil = refl
  sum-perm f _ _ (Permᴰ.cons {a = a} {l₁ = xs} {l₂ = ys} e d) =
      rw (sym e) (let rest = sum-perm f xs ys d in ground arith)
  sum-perm f _ _ (Permᴰ.swap {a = a} {b = b} {l = xs} e d) = rw (sym e, sym d) (ground arith)
  sum-perm f xs ys (Permᴰ.trans {l₂ = zs} d e) = sum-perm f xs zs d ∙ sum-perm f zs ys e

  pub any-perm : (xs ys : List A) → Permᴰ xs ys → any p xs ≡ any p ys
  any-perm _ _ Permᴰ.nil = refl
  any-perm _ _ (Permᴰ.cons {a = a} {l₁ = xs} {l₂ = ys} e d) =
      rw (sym e) (ap (λ b. p a || b) (any-perm xs ys d))
  any-perm _ _ (Permᴰ.swap {a = a} {b = b} {l = xs} e d) = rw (sym e, sym d) (ground arith)
  any-perm xs ys (Permᴰ.trans {l₂ = zs} d e) = any-perm xs zs d ∙ any-perm zs ys e

module _ {ℓ} {A : Type ℓ} where
  pub snoc_swap :
      (xs : List A) (y z : A) → Permᴰ ((xs ++ y ∷ []) ++ z ∷ []) ((xs ++ z ∷ []) ++ y ∷ [])
  snoc_swap [] y z = Permᴰ.swap refl refl
  snoc_swap (x ∷ xs) y z = Permᴰ.cons refl (snoc_swap xs y z)
