-- ===== src/AppId/Unescaping.antt =====
-- What `unescape_unit` of crates/tb-core/src/appid.rs gives for the names that systemd writes.
use time_bandits.Base.{
  ℕ, ◌+◌, ◌*◌, ◌<◌, ◌≡◌, ◌≢◌, refl, Bool, false, some, List, [], ◌∷◌, map, Text, all, ltb, utf8,
  arith, utf8_char, length, ◌++◌, ◌≤◌, ◌⊎◌, ◌↔◌, true, inl, inr, ap, Bool-cases, ◌∙◌,
}
use time_bandits.AppId.Units.{
  hex_value, hex_byte, continues, head_continues, as_char, unescape_unit,
}

-- How systemd may write bytes: an ASCII byte other than the backslash stands for itself, and any byte
-- may be written as a backslash, an x and two hexadecimal digits.
pub data Escapes : List ℕ → List ℕ → Type 0 where
  empty : Escapes [] []
  plain : (c : ℕ) (s t : List ℕ) → c < 0x80 → c ≢ b'\\' → Escapes s t → Escapes (c ∷ s) (c ∷ t)
  escaped :
      (h l m n : ℕ) (s t : List ℕ)
      → hex_value h ≡ some m
      → hex_value l ≡ some n
      → Escapes s t
      → Escapes ((m * 16 + n) ∷ s) (b'\\' ∷ b'x' ∷ h ∷ l ∷ t)

Escapes-head : (s t : List ℕ) → Escapes s t → head_continues t ≡ false
Escapes-head _ _ empty = refl
Escapes-head _ _ (plain c s t low apart e) = ground arith
Escapes-head _ _ (escaped h l m n s t a b e) = refl

unescape_plain :
    (c : ℕ) (s t : List ℕ)
    → c ≢ b'\\'
    → unescape_unit t ≡ some s
    → unescape_unit (c ∷ t) ≡ some (c ∷ s)
unfolding unescape_unit
unescape_plain c s [] apart e = ground arith
unescape_plain c s (x ∷ []) apart e = ground arith
unescape_plain c s (x ∷ y ∷ []) apart e = ground arith
unescape_plain c s (x ∷ y ∷ z ∷ t) apart e = ground arith

hex_value-ascii : (h m : ℕ) → hex_value h ≡ some m → continues h ≡ false
hex_value-ascii h m e = ground arith

hex_byte-digits :
    (h l m n : ℕ) → hex_value h ≡ some m → hex_value l ≡ some n → hex_byte h l ≡ some (m * 16 + n)
hex_byte-digits h l m n a b = ground arith

unescaped_bytes : (s t : List ℕ) → Escapes s t → unescape_unit t ≡ some (map as_char s)
unfolding unescape_unit
unescaped_bytes _ _ empty = refl
unescaped_bytes _ _ (plain c s t low apart e) =
    let rest = unescaped_bytes s t e in unescape_plain c (map as_char s) t apart rest
unescaped_bytes _ _ (escaped h l m n s t a b e) =
    let rest = unescaped_bytes s t e in
    let head = Escapes-head s t e in
    let digit = hex_value-ascii h m a in let byte = hex_byte-digits h l m n a b in ground arith

abbrev pub is_ascii_byte : ℕ → Bool
is_ascii_byte b = ltb b 0x80

length-utf8_char :
    (c : ℕ) (rest : List ℕ)
    → is_ascii_byte c ≡ false
    → length rest + 2 ≤ length (utf8_char c ++ rest)
length-utf8_char c rest h = ground arith

length-utf8_ascii :
    (c : ℕ) (rest : List ℕ)
    → is_ascii_byte c ≡ true
    → length (utf8_char c ++ rest) ≡ length rest + 1
length-utf8_ascii c rest h = ground arith

length-utf8 :
    (s : List ℕ)
    → (length s ≤ length (utf8 s)) × ((all is_ascii_byte s ≡ true) ⊎ (length s < length (utf8 s)))
unfolding utf8
length-utf8 [] = (omega arith, inl refl)
length-utf8 (c ∷ s) =
    let (rest, more) = length-utf8 s in
    elim (Bool-cases (is_ascii_byte c)) [
      | inl e ↦
          let here = length-utf8_ascii c (utf8 s) e in
          (omega arith, elim more [ inl a ↦ inl (ground arith) | inr longer ↦ inr (omega arith) ])
      | inr e ↦ let here = length-utf8_char c (utf8 s) e in (omega arith, inr (omega arith))
    ]

map-as_char : (s : List ℕ) → map as_char s ≡ s
map-as_char [] = refl
map-as_char (c ∷ s) = ap (λ rest. c ∷ rest) (map-as_char s)

utf8-ascii : (s : List ℕ) → all is_ascii_byte s ≡ true → utf8 s ≡ s
unfolding utf8
utf8-ascii [] h = refl
utf8-ascii (c ∷ s) h = let rest = utf8-ascii s (ground arith) in ground arith

-- However systemd writes a name, plainly or escaped, byte by byte, unescaping it does not fail; the
-- text that it gives is encoded as the bytes of the name exactly if these are all ASCII.
pub unescape_unit-Escapes :
    (s t : List ℕ)
    → Escapes s t
    → (text : Text) × (unescape_unit t ≡ some text)
      × ((utf8 text ≡ s) ↔ (all is_ascii_byte s ≡ true))
unescape_unit-Escapes s t e =
    let same = map-as_char s in
    (
      s,
      unescaped_bytes s t e ∙ ap some same,
      (
        λ back. elim (length-utf8 s).1 [
          | inl ascii ↦ ascii
          | inr longer ↦ absurd (let l = ap length back in omega arith)
        ],
        λ ascii. utf8-ascii s ascii,
      ),
    )
