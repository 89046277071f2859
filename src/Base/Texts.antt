-- ===== src/Base/Texts.antt =====
-- Texts as lists of Unicode scalar values, with the operations of `str` that the program uses.
use Prim.Native.Nat.{ℕ}
use Prim.Native.Char.{code}
use Prim.Native.String.{String}
use mathlib.Core.Path.{◌≡◌, refl}
use mathlib.Core.Bool.{Bool, true, false, ◌&&◌, ◌||◌}
use mathlib.Core.List.{List, [], ◌∷◌}
use native.Mathlib.Omega.{arith}
use time_bandits.Base.Tests.{ltb, leb, ◌==◌, if◌then◌else◌}

abbrev pub Text : Type 0
Text = List ℕ

-- The text of a literal.
abbrev pub codes : String → Text
codes String.[] = []
codes (String.◌∷◌ c s) = code c ∷ codes s

infix 50 ◌=t◌
abbrev pub ◌=t◌ : Text → Text → Bool
[] =t [] = true
[] =t (b ∷ bs) = false
(a ∷ as') =t [] = false
(a ∷ as') =t (b ∷ bs) = a == b && as' =t bs

pub text-eq : (a b : Text) → (a =t b) ≡ true → a ≡ b
text-eq [] [] h = refl
text-eq [] (b ∷ bs) h = ground arith
text-eq (a ∷ as') [] h = ground arith
text-eq (a ∷ as') (b ∷ bs) h = ground (arith, text-eq as' bs)

pub text_refl : (a : Text) → (a =t a) ≡ true
text_refl [] = refl
text_refl (a ∷ as') = ground (arith, text_refl as')

-- `char::is_whitespace`, the White_Space property.
unfoldable pub is_whitespace : ℕ → Bool
is_whitespace c =
    (leb 9 c && leb c 13)
    || c == 32
    || c == 0x85
    || c == 0xa0
    || c == 0x1680
    || (leb 0x2000 c && leb c 0x200a)
    || c == 0x2028
    || c == 0x2029
    || c == 0x202f
    || c == 0x205f
    || c == 0x3000

-- `char::is_ascii_digit`.
abbrev pub is_ascii_digit : ℕ → Bool
is_ascii_digit c = leb b'0' c && leb c b'9'

-- `str::trim_start`, `str::trim_end` and `str::trim`.
unfoldable pub trim_start : Text → Text
trim_start [] = []
trim_start (c ∷ cs) = if is_whitespace c then trim_start cs else c ∷ cs

unfoldable pub trim_end : Text → Text
trim_end [] = []
trim_end (c ∷ cs) =
    let rest = trim_end cs in
    elim rest [ [] ↦ if is_whitespace c then [] else c ∷ [] | d ∷ ds ↦ c ∷ d ∷ ds ]

unfoldable pub trim : Text → Text
unfolding trim_start trim_end
trim s = trim_end (trim_start s)

-- The order of texts, item by item.
abbrev pub text_le : Text → Text → Bool
text_le [] b = true
text_le (a ∷ as') [] = false
text_le (a ∷ as') (b ∷ bs) = let rest = text_le as' bs in ltb a b || a == b && rest

pub text_le_total : (a b : Text) → text_le a b ≡ false → text_le b a ≡ true
text_le_total [] b h = ground arith
text_le_total (a ∷ as') [] h = refl
text_le_total (a ∷ as') (b ∷ bs) h = ground (arith, text_le_total as' bs)
