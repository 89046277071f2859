-- ===== src/Hub/Passwords.antt =====
-- Which passwords a parent may choose, and what an enrolment code looks like.
use time_bandits.Base.{
  ℕ, ◌+◌, ◌*◌, ◌%◌, ◌≤◌, ◌≡◌, ◌≢◌, ◌↔◌, refl, ap, true, false, none, List, [], ◌∷◌, All, Text, ◌=t◌,
  text-eq, text_refl, any, all, is_ascii_digit, length, arith, Bool-cases, inl, inr, ◌-◌,
}
use time_bandits.Hub.{check_password, refused_passwords, enrolment_code}

any_equal_iff : (t : Text) (cs : List Text) → (any (λ c. t =t c) cs ≡ false) ↔ All (λ c. t ≢ c) cs
any_equal_iff t [] = (λ h. tt, λ h. refl)
any_equal_iff t (c ∷ cs) =
    let (to, from) = any_equal_iff t cs in
    (
      λ h. (
        λ e. let same = ap (λ x. t =t x) e in let r = text_refl t in ground arith,
        to (ground arith),
      ),
      λ (apart, rest). elim (Bool-cases (t =t c)) [
        | inl same ↦ absurd (apart (text-eq t c same))
        | inr other ↦ let later = from rest in ground arith
      ],
    )

-- A password is accepted exactly if it has ten characters or more and, in lower case, is none of the
-- refused ones.
pub check_password_iff :
    (to_lowercase : Text → Text) (password : Text)
    → (check_password to_lowercase password ≡ none)
      ↔ ((10 ≤ length password) × All (λ c. to_lowercase password ≢ c) refused_passwords)
unfolding check_password
check_password_iff to_lowercase password =
    let (to, from) = any_equal_iff (to_lowercase password) refused_passwords in
    (
      λ h. (ground arith, to (ground arith)),
      λ (long, apart). let fresh = from apart in ground arith,
    )

-- The number that a row of digits shows.
abbrev pub number_shown : ℕ → Text → ℕ
number_shown n [] = n
number_shown n (c ∷ cs) = number_shown (n * 10 + (c - b'0')) cs

-- An enrolment code has six digits, leading zeros included, and they show the number that the four
-- bytes are, modulo a million.
pub enrolment_code_shows :
    (a b c d : ℕ)
    → let code = enrolment_code a b c d in
      (length code ≡ 6)
      × (all is_ascii_digit code ≡ true)
      × (number_shown 0 code ≡ (((a * 256 + b) * 256 + c) * 256 + d) % 1000000)
unfolding enrolment_code
enrolment_code_shows a b c d = (refl, ground arith, omega arith)
