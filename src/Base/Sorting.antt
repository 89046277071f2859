-- ===== src/Base/Sorting.antt =====
-- `slice::sort_by` as a stable insertion sort, for any comparison given as a Boolean `≤`.
use mathlib.Core.Path.{◌≡◌, refl}
use mathlib.Core.Bool.{Bool, true, false, ◌||◌}
use mathlib.Core.List.{List, [], ◌∷◌, map}
use Prim.Native.Nat.{ℕ, ◌+◌}
use native.Mathlib.Omega.{arith}
use time_bandits.Base.Tests.{if◌then◌else◌}
use time_bandits.Base.Lists.{any, All, sum}

module _ {ℓ} {A : Type ℓ} (le : A → A → Bool) where
  unfoldable pub insert_by : A → List A → List A
  insert_by x [] = x ∷ []
  insert_by x (y ∷ ys) = if le x y then x ∷ y ∷ ys else y ∷ insert_by x ys

  unfoldable pub sort_by : List A → List A
  unfolding insert_by
  sort_by [] = []
  sort_by (x ∷ xs) = insert_by x (sort_by xs)

  -- An item of the sorted list is an item of the list.
  pub any-insert_by :
      (p : A → Bool) (x : A) (xs : List A) → any p (insert_by x xs) ≡ p x || any p xs
  unfolding insert_by
  any-insert_by p x [] = refl
  any-insert_by p x (y ∷ ys) = ground (arith, any-insert_by p x ys)

  pub any-sort_by : (p : A → Bool) (xs : List A) → any p (sort_by xs) ≡ any p xs
  unfolding sort_by
  any-sort_by p [] = refl
  any-sort_by p (x ∷ xs) = ground (arith, any-insert_by p x (sort_by xs), any-sort_by p xs)

module _ {ℓ κ} {A : Type ℓ} (le : A → A → Bool) (P : A → Type κ) where
  All-insert_by : (x : A) (xs : List A) → P x → All P xs → All P (insert_by le x xs)
  unfolding insert_by
  All-insert_by x [] p h = (p, tt)
  All-insert_by x (y ∷ ys) p h =
      elim (le x y) as (λ b. All P (if b then x ∷ y ∷ ys else y ∷ insert_by le x ys)) [
        | true ↦ (p, h)
        | false ↦ (h.0, All-insert_by x ys p h.1)
      ]

  pub All-sort_by : (xs : List A) → All P xs → All P (sort_by le xs)
  unfolding sort_by
  All-sort_by [] h = tt
  All-sort_by (x ∷ xs) h = All-insert_by x (sort_by le xs) h.0 (All-sort_by xs h.1)

-- Each item is `≤` the next.
abbrev pub HeadLe {ℓ} : {A : Type ℓ} → (A → A → Bool) → A → List A → Type 0
HeadLe le x [] = Unit
HeadLe le x (y ∷ ys) = le x y ≡ true

abbrev pub IsSorted {ℓ} : {A : Type ℓ} → (A → A → Bool) → List A → Type 0
IsSorted le [] = Unit
IsSorted le (x ∷ xs) = HeadLe le x xs × IsSorted le xs

module _ {ℓ} {A : Type ℓ} (le : A → A → Bool)
    (le_total : (x y : A) → le x y ≡ false → le y x ≡ true) where
  HeadLe-insert_by :
      (y x : A) (ys : List A) → le y x ≡ true → HeadLe le y ys → HeadLe le y (insert_by le x ys)
  unfolding insert_by
  HeadLe-insert_by y x [] e h = e
  HeadLe-insert_by y x (z ∷ zs) e h =
      elim (le x z) as (λ b. HeadLe le y (if b then x ∷ z ∷ zs else z ∷ insert_by le x zs)) [
        | true ↦ e
        | false ↦ h
      ]

  IsSorted-insert_by : (x : A) (ys : List A) → IsSorted le ys → IsSorted le (insert_by le x ys)
  unfolding insert_by
  IsSorted-insert_by x [] s = (tt, tt)
  IsSorted-insert_by x (y ∷ ys) s =
      (elim (le x y)
          as (λ b. le x y ≡ b → IsSorted le (if b then x ∷ y ∷ ys else y ∷ insert_by le x ys)) [
            | true ↦ λ e. (e, s)
            | false ↦
                λ e. (HeadLe-insert_by y x ys (le_total x y e) s.0, IsSorted-insert_by x ys s.1)
          ])
        refl

  -- Sorting by a total comparison gives a sorted list.
  pub IsSorted-sort_by : (xs : List A) → IsSorted le (sort_by le xs)
  unfolding sort_by
  IsSorted-sort_by [] = tt
  IsSorted-sort_by (x ∷ xs) = IsSorted-insert_by x (sort_by le xs) (IsSorted-sort_by xs)

-- A sum over the items is kept by sorting.
module _ {ℓ} {A : Type ℓ} (le : A → A → Bool) (f : A → ℕ) where
  sum-insert_by : (x : A) (ys : List A) → sum (map f (insert_by le x ys)) ≡ f x + sum (map f ys)
  unfolding insert_by
  sum-insert_by x [] = refl
  sum-insert_by x (y ∷ ys) =
      elim (le x y)
        as (λ b.
          sum (map f (if b then x ∷ y ∷ ys else y ∷ insert_by le x ys))
          ≡ f x + (f y + sum (map f ys))) [
            | true ↦ refl
            | false ↦ omega (arith, sum-insert_by x ys)
          ]

  pub sum-sort_by : (xs : List A) → sum (map f (sort_by le xs)) ≡ sum (map f xs)
  unfolding sort_by
  sum-sort_by [] = refl
  sum-sort_by (x ∷ xs) = omega (arith, sum-insert_by x (sort_by le xs), sum-sort_by xs)
