-- ===== src/Base/Maps.antt =====
-- Maps from texts as lists of entries; the first entry of a key counts.
use mathlib.Core.Path.{◌≡◌}
use mathlib.Core.Bool.{false}
use mathlib.Core.List.{List, [], ◌∷◌}
use mathlib.Core.Option.{Option, none, some}
use native.Mathlib.Omega.{arith}
use mathlib.Core.Logic.{inl, inr}
use time_bandits.Base.Tests.{if◌then◌else◌, Bool-cases}
use time_bandits.Base.Texts.{Text, ◌=t◌, text-eq, text_refl}

module _ {ℓ} {V : Type ℓ} where
  unfoldable pub entry_of : Text → List (Text × V) → Option V
  entry_of key [] = none
  entry_of key (e ∷ rest) = let later = entry_of key rest in if e.0 =t key then some e.1 else later

  unfoldable pub put_entry : Text → V → List (Text × V) → List (Text × V)
  put_entry key v [] = (key, v) ∷ []
  put_entry key v (e ∷ rest) =
      let later = put_entry key v rest in if e.0 =t key then (key, v) ∷ rest else e ∷ later

  pub entry_of-put_entry :
      (key : Text) (v : V) (m : List (Text × V)) → entry_of key (put_entry key v m) ≡ some v
  unfolding entry_of put_entry
  entry_of-put_entry key v [] = let same = text_refl key in ground arith
  entry_of-put_entry key v (e ∷ rest) =
      let same = text_refl key in let later = entry_of-put_entry key v rest in ground arith

  pub entry_of_other-put_entry :
      (key other : Text) (v : V) (m : List (Text × V))
      → (other =t key) ≡ false
      → entry_of key (put_entry other v m) ≡ entry_of key m
  unfolding entry_of put_entry
  entry_of_other-put_entry key other v [] h = ground arith
  entry_of_other-put_entry key other v (e ∷ rest) h =
      let later = entry_of_other-put_entry key other v rest h in
      let same = text-eq e.0 other in
      elim (Bool-cases (e.0 =t other)) [
        | inl t ↦ let eq = same t in ground arith
        | inr t ↦ ground arith
      ]

  -- Writing again what stands there changes nothing.
  pub put_entry_same :
      (key : Text) (v : V) (m : List (Text × V)) → entry_of key m ≡ some v → put_entry key v m ≡ m
  unfolding entry_of put_entry
  put_entry_same key v [] h = ground arith
  put_entry_same key v (e ∷ rest) h =
      let later = put_entry_same key v rest in
      elim (Bool-cases (e.0 =t key)) [
        | inl t ↦ let eq = text-eq e.0 key t in ground arith
        | inr t ↦ let kept = later (ground arith) in ground arith
      ]
