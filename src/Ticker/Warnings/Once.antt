-- ===== src/Ticker/Warnings/Once.antt =====
-- A threshold is warned of once.
use time_bandits.Base.{
  ℕ, ◌≤◌, ◌≡◌, refl, sym, ◌∙◌, Bool, true, false, ◌&&◌, not, some, List, [], ◌∷◌, any, leb, ◌==◌,
  arith, Bool-cases, inl, inr,
}
use time_bandits.Jiff.{Jiff, IsLawful}
use time_bandits.Duration.{DurationSpec, as_secs}
use time_bandits.Schedule.{PolicyDay}
use time_bandits.Policy.{Policy, sorted_warnings}
use time_bandits.Policy.Warnings.{has, sorted_warnings_lem}
use time_bandits.Engine.{Allowance}
use time_bandits.Ticker.State.{UserState}
use time_bandits.Ticker.Warnings.{cross, restore, announce_crossed, on_allowed, same_date}

-- The threshold's seconds are among those warned of.
abbrev pub told : List ℕ → DurationSpec → Bool
told warned threshold = any (λ s. s == as_secs threshold) warned

-- Every threshold that is crossed has been told.
abbrev pub AllTold : DurationSpec → List DurationSpec → List ℕ → Type 0
AllTold remaining [] warned = Unit
AllTold remaining (t ∷ rest) warned =
    (remaining ≤ t → told warned t ≡ true) × AllTold remaining rest warned

-- What is told stays told.
told-cross :
    (remaining : DurationSpec) (ts : List DurationSpec) (warned : List ℕ) (announce : Bool)
    (t : DurationSpec)
    → told warned t ≡ true
    → told (cross remaining ts warned announce).0 t ≡ true
unfolding cross
told-cross remaining [] warned announce t h = h
told-cross remaining (x ∷ rest) warned announce t h = told-cross remaining rest _ _ t (ground arith)

cross-AllTold :
    (remaining : DurationSpec) (ts : List DurationSpec) (warned : List ℕ) (announce : Bool)
    → AllTold remaining ts (cross remaining ts warned announce).0
unfolding cross
cross-AllTold remaining [] warned announce = tt
cross-AllTold remaining (x ∷ rest) warned announce =
    (λ h. told-cross remaining rest _ _ x (ground arith), cross-AllTold remaining rest _ _)

-- If every crossed threshold is told, nothing is announced and nothing changes.
cross_quiet :
    (remaining : DurationSpec) (ts : List DurationSpec) (warned : List ℕ)
    → AllTold remaining ts warned
    → cross remaining ts warned false ≡ (warned, false)
unfolding cross
cross_quiet remaining [] warned h = refl
cross_quiet remaining (x ∷ rest) warned h =
    let old : leb remaining x && not (told warned x) ≡ false = elim (Bool-cases (leb remaining x)) [
      | inl e ↦ let t = h.0 (ground arith) in ground arith
      | inr e ↦ rw e
    ] in
    rw old (cross_quiet remaining rest warned h.1)

AllTold-fewer :
    (remaining remaining' : DurationSpec) (ts : List DurationSpec) (warned : List ℕ)
    → ((t : DurationSpec) → has t ts ≡ true → remaining' ≤ t → remaining ≤ t)
    → AllTold remaining ts warned
    → AllTold remaining' ts warned
AllTold-fewer remaining remaining' [] warned h a = tt
AllTold-fewer remaining remaining' (x ∷ rest) warned h a = (
  λ l. a.0 (h x (ground arith) l),
  AllTold-fewer remaining remaining' rest warned (λ t m l. h t (ground (arith, m)) l) a.1,
)

module _ (j : Jiff) (lawful : IsLawful j) (policy : Policy) (day : PolicyDay j) where
  same_date-restore :
      (state : UserState j) → same_date j (restore j day state).warned_on day.date ≡ true
  unfolding restore
  same_date-restore state = ground (arith, lawful.date_eq-refl day.date)

  warned-restore :
      (state : UserState j)
      → same_date j state.warned_on day.date ≡ true
      → (restore j day state).warned ≡ state.warned
  unfolding restore
  warned-restore state e = ground arith

  -- What an allowed tick with a remaining time leaves, and what it does.
  on_allowed-eq :
      (a : Allowance) (state : UserState j) (r : DurationSpec)
      → a.remaining ≡ some r
      → on_allowed j policy day true a state ≡ announce_crossed j policy r (restore j day state)
  unfolding on_allowed
  on_allowed-eq a state r e = ground arith

  -- On one policy day, if an allowed tick of a child at work is followed by one that crosses no
  -- threshold which the first had not crossed, the second gives no warning.
  pub warn_once :
      (a a' : Allowance) (state : UserState j) (r r' : DurationSpec)
      → a.remaining ≡ some r
      → a'.remaining ≡ some r'
      → ((t : DurationSpec) → has t policy.warnings ≡ true → r' ≤ t → r ≤ t)
      → (on_allowed j policy day true a' (on_allowed j policy day true a state).state).effects ≡ []
  unfolding announce_crossed
  warn_once a a' state r r' e e' h =
      let ts = sorted_warnings policy in
      let first = restore j day state in
      let warned = (cross r ts first.warned false).0 in
      let next = record first { warned = warned } in
      let all_told =
        AllTold-fewer r r' ts warned (λ t m. h t (sym ((sorted_warnings_lem policy).1 t) ∙ m))
          (cross-AllTold r ts first.warned false) in
      rw (on_allowed-eq a state r e) (
        rw (on_allowed-eq a' next r' e') (
          rw (warned-restore next (same_date-restore state))
            (rw (cross_quiet r' ts warned all_told))))
