-- ===== src/Policy/Warnings.antt =====
-- The warning thresholds in the order in which they are crossed.
use time_bandits.Base.{
  ◌<◌, ◌≤◌, ◌≡◌, refl, ◌∙◌, Bool, true, any, find, ltb, some, none, List, [], ◌∷◌, arith, ◌==◌,
  any-sort_by, IsSorted, HeadLe, IsSorted-sort_by, Bool-cases, inl, inr,
}
use time_bandits.Duration.{DurationSpec}
use time_bandits.Policy.{Policy, dedup_from, dedup, descending, sorted_warnings}

-- Each threshold is larger than the next.
abbrev pub Descends : List DurationSpec → Type 0
Descends [] = Unit
Descends (x ∷ []) = Unit
Descends (x ∷ y ∷ ys) = (y < x) × Descends (y ∷ ys)

abbrev pub has : DurationSpec → List DurationSpec → Bool
has v = any (λ w. w == v)

dedup_from-Descends :
    (x : DurationSpec) (ys : List DurationSpec)
    → HeadLe descending x ys
    → IsSorted descending ys
    → Descends (x ∷ dedup_from x ys)
unfolding dedup_from
dedup_from-Descends x [] h s = tt
dedup_from-Descends x (y ∷ ys) h s = elim (Bool-cases (x == y)) [
  | inl e ↦ rw e (let q : x ≡ y = ground arith in rw q (dedup_from-Descends y ys s.0 s.1))
  | inr e ↦ rw e (ground arith, dedup_from-Descends y ys s.0 s.1)
]

has-dedup_from :
    (v x : DurationSpec) (ys : List DurationSpec) → has v (x ∷ dedup_from x ys) ≡ has v (x ∷ ys)
unfolding dedup_from
has-dedup_from v x [] = refl
has-dedup_from v x (y ∷ ys) = ground (arith, has-dedup_from v y ys)

dedup-Descends : (xs : List DurationSpec) → IsSorted descending xs → Descends (dedup xs)
unfolding dedup
dedup-Descends [] s = tt
dedup-Descends (x ∷ xs) s = dedup_from-Descends x xs s.0 s.1

has-dedup : (v : DurationSpec) (xs : List DurationSpec) → has v (dedup xs) ≡ has v xs
unfolding dedup
has-dedup v [] = refl
has-dedup v (x ∷ xs) = has-dedup_from v x xs

-- The sorted warnings are strictly descending, so none is there twice, and they are the configured
-- thresholds: none is lost and none is added.
pub sorted_warnings_lem :
    (p : Policy)
    → Descends (sorted_warnings p)
      × ((v : DurationSpec) → has v (sorted_warnings p) ≡ has v p.warnings)
unfolding sorted_warnings
sorted_warnings_lem p = (
  dedup-Descends _ (IsSorted-sort_by descending (λ x y h. ground arith) p.warnings),
  λ v. has-dedup v _ ∙ any-sort_by descending (λ w. w == v) p.warnings,
)

Descends-tail : (x : DurationSpec) (xs : List DurationSpec) → Descends (x ∷ xs) → Descends xs
Descends-tail x [] d = tt
Descends-tail x (y ∷ ys) d = d.1

-- The head of a descending list is the largest threshold in it.
has-le :
    (x : DurationSpec) (xs : List DurationSpec)
    → Descends (x ∷ xs)
    → (v : DurationSpec) → has v (x ∷ xs) ≡ true
    → v ≤ x
has-le x [] d v m = ground arith
has-le x (y ∷ ys) d v m = elim (Bool-cases (x == v)) [
  | inl s ↦ ground arith
  | inr s ↦ omega (arith, has-le y ys d.1 v (ground arith), d.0)
]

-- The first threshold below `r` in a descending list is the largest one below it.
pub find-Descends :
    (r : DurationSpec) (xs : List DurationSpec)
    → Descends xs
    → (w : DurationSpec) → find (λ x. ltb x r) xs ≡ some w
    → (w < r) × ((v : DurationSpec) → has v xs ≡ true → v < r → v ≤ w)
find-Descends r [] d w e = absurd (ground arith)
find-Descends r (x ∷ xs) d w e = elim (Bool-cases (ltb x r)) [
  | inl q ↦
      let same : x ≡ w = ground arith in (ground arith, λ v m l. rw (← same) (has-le x xs d v m))
  | inr q ↦
      let ih = find-Descends r xs (Descends-tail x xs d) w (ground arith) in
      (
        ih.0,
        λ v m l. elim (Bool-cases (x == v)) [
          | inl s ↦ absurd (ground arith)
          | inr s ↦ ih.1 v (ground arith) l
        ],
      )
]

-- The first threshold below `r` is missing only where none is below it.
pub find-none-Descends :
    (r : DurationSpec) (xs : List DurationSpec)
    → find (λ x. ltb x r) xs ≡ none
    → (v : DurationSpec) → has v xs ≡ true
    → r ≤ v
find-none-Descends r [] e v m = absurd (ground arith)
find-none-Descends r (x ∷ xs) e v m = elim (Bool-cases (x == v)) [
  | inl s ↦ ground arith
  | inr s ↦ find-none-Descends r xs (ground arith) v (ground arith)
]

pub has-find :
    (r : DurationSpec) (xs : List DurationSpec) (w : DurationSpec)
    → find (λ x. ltb x r) xs ≡ some w
    → has w xs ≡ true
has-find r [] w e = absurd (ground arith)
has-find r (x ∷ xs) w e = elim (Bool-cases (ltb x r)) [
  | inl q ↦ ground arith
  | inr q ↦ let rest = has-find r xs w (ground arith) in ground arith
]
