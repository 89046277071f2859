-- ===== src/Hub.antt =====
-- crates/tb-hub/src/auth.rs: passwords, session tokens and enrolment codes. The hash functions, the
-- reader of a stored hash and `str::to_lowercase` are arguments.
pub mod Digests
pub mod Passwords
use time_bandits.Base.{
  ℕ, ◌+◌, ◌-◌, ◌*◌, ◌/◌, ◌%◌, Bool, false, ◌&&◌, Option, none, some, List, [], ◌∷◌, Text, codes,
  ◌=t◌, any, leb, ltb, length, trim, utf8, if◌then◌else◌,
}

-- `{:x}` of a number below 16.
abbrev pub hex_digit : ℕ → ℕ
hex_digit n = if ltb n 10 then b'0' + n else b'a' + (n - 10)

-- `hex`.
unfoldable pub hex : List ℕ → Text
hex [] = []
hex (b ∷ bs) = hex_digit (b / 16) ∷ hex_digit (b % 16) ∷ hex bs

abbrev pub Token : Type 0
Token = Text

-- `Token::parse`; the length is that in bytes.
unfoldable pub parse_token : Text → Option Token
parse_token raw =
    let n = length (utf8 (trim raw)) in if leb 16 n && leb n 256 then some (trim raw) else none

module _ (sha256 : List ℕ → List ℕ) where
  -- `Token::digest`.
  unfoldable pub digest : Token → Text
  unfolding hex
  digest token = hex (sha256 (utf8 token))

  -- `Token::matches`: the bytes are equal where the texts are.
  unfoldable pub matches : Token → Text → Bool
  unfolding digest
  matches token stored_digest = digest token =t stored_digest

-- `{n:06}` of a number below a million.
abbrev pub six_digits : ℕ → Text
six_digits n =
    (b'0' + n / 100000)
    ∷ (b'0' + n / 10000 % 10)
    ∷ (b'0' + n / 1000 % 10)
    ∷ (b'0' + n / 100 % 10)
    ∷ (b'0' + n / 10 % 10)
    ∷ (b'0' + n % 10)
    ∷ []

-- `enrolment_code`, with the four random bytes, the highest first.
unfoldable pub enrolment_code : ℕ → ℕ → ℕ → ℕ → Text
enrolment_code a b c d = six_digits ((((a * 256 + b) * 256 + c) * 256 + d) % 1000000)

-- `verify_password`, with the reader of a stored hash and the verifier.
unfoldable pub verify_password :
    {Hash : Type 0} → (Text → Option Hash) → (Text → Hash → Bool) → Text → Text → Bool
verify_password parse verify password stored = elim (parse stored) [
  | none ↦ false
  | some hash ↦ verify password hash
]

pub data PasswordError : Type 0 where
  too_short : ℕ → PasswordError
  too_common : PasswordError

-- `MIN_PASSWORD_LEN` and `REFUSED`.
abbrev pub min_password_len : ℕ
min_password_len = 10

abbrev pub refused_passwords : List Text
refused_passwords =
    codes "password12"
    ∷ codes "passwort12"
    ∷ codes "1234567890"
    ∷ codes "qwertzuiop"
    ∷ codes "qwertyuiop"
    ∷ codes "passwordpassword"
    ∷ codes "administrator"
    ∷ []

-- `check_password`; nothing stands for `Ok(())`.
unfoldable pub check_password : (Text → Text) → Text → Option PasswordError
check_password to_lowercase password =
    if ltb (length password) min_password_len
    then some (too_short min_password_len)
    else if any (λ c. to_lowercase password =t c) refused_passwords
    then some too_common
    else none
