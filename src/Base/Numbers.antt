-- ===== src/Base/Numbers.antt =====
-- Numbers in decimal: `u64::from_str` and `{}` of a `u64`.
use Prim.Native.Nat.{ℕ, zero, suc, ◌+◌, ◌-◌, ◌*◌, ◌/◌, ◌%◌, ◌^◌, ◌<◌}
use mathlib.Core.Path.{◌≡◌, refl, ap, ◌∙◌}
use mathlib.Core.Bool.{true, false, ◌&&◌}
use mathlib.Core.List.{List, [], ◌∷◌, ◌++◌, append_assoc}
use mathlib.Core.Option.{Option, none, some}
use native.Mathlib.Omega.{arith}
use time_bandits.Base.Tests.{ltb, ◌==◌, if◌then◌else◌, Bool-cases}
use mathlib.Core.Logic.{inl, inr}
use time_bandits.Base.Lists.{all, all-append}
use time_bandits.Base.Texts.{Text, is_ascii_digit}

-- The digits of `u64::from_str`, which fails on another character and beyond the range.
unfoldable pub parse_digits : ℕ → Text → Option ℕ
parse_digits n [] = some n
parse_digits n (c ∷ cs) =
    let next = n * 10 + (c - b'0') in
    let later = parse_digits next cs in
    if is_ascii_digit c && ltb next (2 ^ 64) then later else none

unfoldable pub parse_unsigned : Text → Option ℕ
unfolding parse_digits
parse_unsigned [] = none
parse_unsigned (c ∷ cs) =
    if c == b'+'
    then elim cs [ [] ↦ none | d ∷ ds ↦ parse_digits 0 (d ∷ ds) ]
    else parse_digits 0 (c ∷ cs)

-- The decimal digits, of which `fuel` are enough below `10 ^ fuel`.
unfoldable pub show_digits : ℕ → ℕ → Text
show_digits zero n = []
show_digits (suc fuel) n =
    let front = show_digits fuel (n / 10) in
    (if ltb n 10 then [] else front) ++ (b'0' + n % 10) ∷ []

-- A `u64` has at most 20 digits.
unfoldable pub decimal : ℕ → Text
unfolding show_digits
decimal n = show_digits 20 n

-- `10 ^ n`, by recursion.
unfoldable pub power_of_ten : ℕ → ℕ
power_of_ten zero = 1
power_of_ten (suc n) = 10 * power_of_ten n

pub show_digits_are_digits : (fuel n : ℕ) → all is_ascii_digit (show_digits fuel n) ≡ true
unfolding show_digits
show_digits_are_digits zero n = refl
show_digits_are_digits (suc fuel) n =
    let front = show_digits_are_digits fuel (n / 10) in
    let split = all-append is_ascii_digit (show_digits fuel (n / 10)) ((b'0' + n % 10) ∷ []) in
    ground arith

-- A text with another character than a digit is no number.
pub parse_digits-none : (n : ℕ) (s : Text) → all is_ascii_digit s ≡ false → parse_digits n s ≡ none
unfolding parse_digits
parse_digits-none n [] h = ground arith
parse_digits-none n (c ∷ cs) h =
    let later = parse_digits-none (n * 10 + (c - b'0')) cs in
    elim (Bool-cases (all is_ascii_digit cs)) [
      | inl t ↦ ground arith
      | inr f ↦ let failed = later f in ground arith
    ]

pub parse_unsigned-none :
    (c : ℕ) (cs : Text)
    → is_ascii_digit c ≡ true
    → all is_ascii_digit cs ≡ false
    → parse_unsigned (c ∷ cs) ≡ none
unfolding parse_unsigned
parse_unsigned-none c cs d h =
    let failed = parse_digits-none 0 (c ∷ cs) (ground arith) in ground arith

pub show_one :
    (fuel n : ℕ) (rest : Text) → n < 10 → show_digits (suc fuel) n ++ rest ≡ (b'0' + n) ∷ rest
unfolding show_digits
show_one fuel n rest h = ground arith

pub show_more :
    (fuel n : ℕ) (rest : Text)
    → ltb n 10 ≡ false
    → show_digits (suc fuel) n ++ rest ≡ show_digits fuel (n / 10) ++ (b'0' + n % 10) ∷ rest
unfolding show_digits
show_more fuel n rest h =
    let assoc = append_assoc (show_digits fuel (n / 10)) ((b'0' + n % 10) ∷ []) rest in ground arith

parse_one_digit :
    (m d n : ℕ) (rest : Text)
    → d < 10
    → n ≡ m * 10 + d
    → n < 2 ^ 64
    → parse_digits m ((b'0' + d) ∷ rest) ≡ parse_digits n rest
unfolding parse_digits
parse_one_digit m d n rest h e l = ground arith

-- The printed digits of a number are read as that number.
pub parse_digits-show_digits :
    (fuel n : ℕ) (rest : Text)
    → n < power_of_ten (suc fuel)
    → n < 2 ^ 64
    → parse_digits 0 (show_digits (suc fuel) n ++ rest) ≡ parse_digits n rest
unfolding power_of_ten
parse_digits-show_digits zero n rest b l =
    ap (parse_digits 0) (show_one zero n rest (omega arith))
    ∙ parse_one_digit 0 n n rest (omega arith) (omega arith) l
parse_digits-show_digits (suc fuel) n rest b l = elim (Bool-cases (ltb n 10)) [
  | inl t ↦
      ap (parse_digits 0) (show_one (suc fuel) n rest (ground arith))
      ∙ parse_one_digit 0 n n rest (ground arith) (omega arith) l
  | inr t ↦
      ap (parse_digits 0) (show_more (suc fuel) n rest t)
      ∙ parse_digits-show_digits fuel (n / 10) ((b'0' + n % 10) ∷ rest) (omega arith) (omega arith)
      ∙ parse_one_digit (n / 10) (n % 10) n rest (omega arith) (omega arith) l
]

snoc_starts {ℓ} :
    {A : Type ℓ} (xs : List A) (y : A) → (c : A) × (cs : List A) × (xs ++ y ∷ [] ≡ c ∷ cs)
snoc_starts [] y = (y, [], refl)
snoc_starts (x ∷ xs) y = (x, xs ++ y ∷ [], refl)

-- There is at least one digit.
pub show_digits_starts : (fuel n : ℕ) → (c : ℕ) × (cs : Text) × (show_digits (suc fuel) n ≡ c ∷ cs)
unfolding show_digits
show_digits_starts fuel n =
    snoc_starts (if ltb n 10 then [] else show_digits fuel (n / 10)) (b'0' + n % 10)

pub parse_digits_end : (m : ℕ) → parse_digits m [] ≡ some m
unfolding parse_digits
parse_digits_end m = refl
