-- ===== src/Hub/Digests.antt =====
-- Which tokens a stored digest lets in.
use time_bandits.Base.{
  ℕ, ◌/◌, ◌%◌, ◌<◌, ◌≡◌, ◌↔◌, refl, ap, ◌∙◌, true, List, [], ◌∷◌, All, ◌=t◌, text-eq, text_refl,
  utf8, arith,
}
use time_bandits.Hub.{hex_digit, hex, digest, matches, Token}

hex_digit-injective : (m n : ℕ) → m < 16 → n < 16 → hex_digit m ≡ hex_digit n → m ≡ n
hex_digit-injective m n a b h = ground arith

byte_from_digits :
    (a b : ℕ)
    → a < 256
    → b < 256
    → hex_digit (a / 16) ≡ hex_digit (b / 16)
    → hex_digit (a % 16) ≡ hex_digit (b % 16)
    → a ≡ b
byte_from_digits a b x y high low =
    let h = hex_digit-injective (a / 16) (b / 16) (omega arith) (omega arith) high in
    let l = hex_digit-injective (a % 16) (b % 16) (omega arith) (omega arith) low in omega arith

abbrev pub AreBytes : List ℕ → Type 0
AreBytes = All (λ b. b < 256)

hex-injective : (xs ys : List ℕ) → AreBytes xs → AreBytes ys → hex xs ≡ hex ys → xs ≡ ys
unfolding hex
hex-injective [] [] a b h = refl
hex-injective [] (y ∷ ys) a b h = ground arith
hex-injective (x ∷ xs) [] a b h = ground arith
hex-injective (x ∷ xs) (y ∷ ys) a b h =
    let first = byte_from_digits x y a.0 b.0 (ground arith) (ground arith) in
    let rest = hex-injective xs ys a.1 b.1 (ground arith) in ground arith

-- If the hash gives bytes, a token matches the digest that is stored for another token exactly if
-- the hashes of the two are the same: writing them in hexadecimal loses nothing, and in particular
-- every token matches its own digest.
pub matches-digest_iff :
    (sha256 : List ℕ → List ℕ) (token other : Token)
    → ((bytes : List ℕ) → AreBytes (sha256 bytes))
    → (matches sha256 token (digest sha256 other) ≡ true)
      ↔ (sha256 (utf8 token) ≡ sha256 (utf8 other))
unfolding matches digest
matches-digest_iff sha256 token other bytes =
    let ours = sha256 (utf8 token) in
    let theirs = sha256 (utf8 other) in
    (
      λ m.
          hex-injective ours theirs (bytes (utf8 token)) (bytes (utf8 other))
            (text-eq (hex ours) (hex theirs) m),
      λ e. ap (λ h. hex h =t hex theirs) e ∙ text_refl (hex theirs),
    )
