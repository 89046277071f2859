-- ===== src/Duration/Minutes.antt =====
-- Bare numbers, which `from_str` takes for minutes, and the range of what it returns.
use mathlib.Core.List.{append-nil}
use time_bandits.Base.{
  ℕ, ◌*◌, ◌^◌, ◌<◌, ◌≤◌, ◌≡◌, refl, sym, ap, ◌∙◌, Bool, true, some, [], ◌∷◌, Text, is_ascii_digit,
  trim, all, arith, Option-cases, inl, inr, decimal, power_of_ten, parse_digits, parse_unsigned,
  show_digits, parse_digits-show_digits, parse_digits_end, ◌↔◌, ◌⊎◌, ◌%◌,
}
use time_bandits.Duration.{DurationSpec, as_secs, from_mins}
use time_bandits.Duration.Parse.{
  ParseDurationError, Parsed, refused, parsed, Scan, scan_char, close_unit, scan, start,
  parse_trimmed, from_str,
}
use time_bandits.Duration.Roundtrip.{
  trim_clean, digits_have_no_space, decimal_are_digits, decimal_starts,
}

-- A text of digits is read as a number by its digits.
parse_unsigned_digits :
    (c : ℕ) (cs : Text)
    → is_ascii_digit c ≡ true
    → parse_unsigned (c ∷ cs) ≡ parse_digits 0 (c ∷ cs)
unfolding parse_unsigned
parse_unsigned_digits c cs h = ground arith

parse_digits-decimal : (m : ℕ) → m < 2 ^ 64 → parse_digits 0 (decimal m) ≡ some m
unfolding decimal power_of_ten
parse_digits-decimal m l =
    ap (parse_digits 0) (sym (append-nil (show_digits 20 m)))
    ∙ parse_digits-show_digits 19 m [] (omega arith) l
    ∙ parse_digits_end m

Parsed-cases :
    {T : Type 0} (r : Parsed T)
    → ((e : ParseDurationError) × (r ≡ refused e)) ⊎ ((t : T) × (r ≡ parsed t))
Parsed-cases (refused e) = inl (e, refl)
Parsed-cases (parsed t) = inr (t, refl)

module _ (is_alphabetic : ℕ → Bool) where
  -- A number without a unit that fits a `u64` is read as minutes, and their seconds wrap: the
  -- duration has as many seconds as are asked for, less all multiples of 2 ^ 64, and so it is shorter
  -- than asked for exactly if the seconds do not fit.
  pub from_str_minutes :
      (m : ℕ)
      → m < 2 ^ 64
      → (d : DurationSpec) × (from_str is_alphabetic (decimal m) ≡ parsed d)
        × (as_secs d ≡ m * 60 % 2 ^ 64)
        × ((as_secs d < m * 60) ↔ (2 ^ 64 ≤ m * 60))
  unfolding from_str parse_trimmed
  from_str_minutes m l =
      let (c, cs, e) = decimal_starts m in
      let digits : all is_ascii_digit (c ∷ cs) ≡ true =
        ap (all is_ascii_digit) (sym e) ∙ decimal_are_digits m in
      let clean = digits_have_no_space (c ∷ cs) digits in
      let number : parse_unsigned (c ∷ cs) ≡ some m =
        parse_unsigned_digits c cs (ground arith)
        ∙ ap (parse_digits 0) (sym e)
        ∙ parse_digits-decimal m l in
      (
        from_mins m,
        ap (from_str is_alphabetic) e
            ∙ ap (parse_trimmed is_alphabetic) (trim_clean (c ∷ cs) clean)
            ∙ ground arith,
        omega arith,
        (λ short. omega arith, λ le. omega arith),
      )

  scan_char_total :
      (whole : Text) (st st' : Scan) (ch : ℕ)
      → st.total < 2 ^ 64
      → scan_char is_alphabetic whole st ch ≡ parsed st'
      → st'.total < 2 ^ 64
  unfolding scan_char close_unit
  scan_char_total whole st st' ch b h = ground arith

  scan_total :
      (whole : Text) (st st' : Scan) (s : Text)
      → st.total < 2 ^ 64
      → scan is_alphabetic whole st s ≡ parsed st'
      → st'.total < 2 ^ 64
  unfolding scan
  scan_total whole st st' [] b h = ground arith
  scan_total whole st st' (ch ∷ rest) b h =
      elim (Parsed-cases (scan_char is_alphabetic whole st ch)) [
        | inl (error, e) ↦ ground arith
        | inr (next, e) ↦
            scan_total whole next st' rest (scan_char_total whole st next ch b e) (ground arith)
      ]

  -- Whatever the text, a duration that is read fits: its seconds are a `u64`.
  pub from_str_bounded :
      (text : Text) (d : DurationSpec) → from_str is_alphabetic text ≡ parsed d → as_secs d < 2 ^ 64
  unfolding from_str parse_trimmed
  from_str_bounded text d h =
      let s = trim text in
      elim (Option-cases (parse_unsigned s)) [
        | inl e ↦ elim (Parsed-cases (scan is_alphabetic s start s)) [
          | inl (error, e') ↦ ground arith
          | inr (st, e') ↦ let fits = scan_total s start st s (omega arith) e' in ground arith
        ]
        | inr (minutes, e) ↦ ground arith
      ]
