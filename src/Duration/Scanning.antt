-- ===== src/Duration/Scanning.antt =====
-- What the loop of `FromStr` does on printed numbers and units.
use mathlib.Core.List.{append_assoc}
use time_bandits.Base.{
  ℕ, zero, suc, ◌+◌, ◌*◌, ◌/◌, ◌%◌, ◌^◌, ◌<◌, ◌≤◌, ◌≡◌, ap, ◌∙◌, Bool, true, false, ◌||◌, Option,
  none, some, [], ◌∷◌, ◌++◌, Text, ltb, ◌==◌, if◌then◌else◌, is_ascii_digit, is_whitespace, arith,
  Bool-cases, inl, inr, unwrap_or, show_digits, show_one, show_more, power_of_ten, decimal,
}
use time_bandits.Duration.Parse.{parsed, Scan, scan_char, close_unit, scan, unit_of}
use time_bandits.Duration.Print.{part}

module _ (is_alphabetic : ℕ → Bool) (whole : Text) where
  -- One character that the loop takes.
  pub scan_step :
      (st st' : Scan) (ch : ℕ) (rest : Text)
      → scan_char is_alphabetic whole st ch ≡ parsed st'
      → scan is_alphabetic whole st (ch ∷ rest) ≡ scan is_alphabetic whole st' rest
  unfolding scan
  scan_step st st' ch rest h = ground arith

  pub scan_digit :
      (total rank d n : ℕ) (value : Option ℕ) (rest : Text)
      → d < 10
      → n ≡ unwrap_or value 0 * 10 + d
      → n < 2 ^ 64
      → scan is_alphabetic whole
          (record { total = total; value = value; last_rank = rank })
          ((b'0' + d) ∷ rest)
        ≡ scan is_alphabetic whole (record { total = total; value = some n; last_rank = rank }) rest
  unfolding scan_char
  scan_digit total rank d n value rest h e l =
      scan_step _ (record { total = total; value = some n; last_rank = rank }) (b'0' + d) rest
        (ground arith)

  pub scan-show_digits :
      (fuel n total rank : ℕ) (rest : Text)
      → n < power_of_ten (suc fuel)
      → n < 2 ^ 64
      → scan is_alphabetic whole
          (record { total = total; value = none; last_rank = rank })
          (show_digits (suc fuel) n ++ rest)
        ≡ scan is_alphabetic whole (record { total = total; value = some n; last_rank = rank }) rest
  unfolding power_of_ten
  scan-show_digits zero n total rank rest b l =
      ap (scan is_alphabetic whole _) (show_one zero n rest (omega arith))
      ∙ scan_digit total rank n n none rest (omega arith) (omega arith) l
  scan-show_digits (suc fuel) n total rank rest b l = elim (Bool-cases (ltb n 10)) [
    | inl t ↦
        ap (scan is_alphabetic whole _) (show_one (suc fuel) n rest (ground arith))
        ∙ scan_digit total rank n n none rest (ground arith) (omega arith) l
    | inr t ↦
        ap (scan is_alphabetic whole _) (show_more (suc fuel) n rest t)
        ∙ scan-show_digits fuel (n / 10) total rank ((b'0' + n % 10) ∷ rest) (omega arith)
            (omega arith)
        ∙ scan_digit total rank (n % 10) n (some (n / 10)) rest (omega arith) (omega arith) l
  ]

  is_unit_char :
      (unit rank factor : ℕ)
      → unit_of unit ≡ some (rank, factor)
      → (is_ascii_digit unit ≡ false)
        × (is_whitespace unit ≡ false)
        × (factor ≤ 3600)
        × (0 < factor)
  unfolding is_whitespace
  is_unit_char unit rank factor u = (ground arith, ground arith, ground arith, ground arith)

  -- A unit after a number that is not too large, below the units before it.
  pub scan_unit :
      (total v rank last_rank factor unit : ℕ) (rest : Text)
      → unit_of unit ≡ some (rank, factor)
      → (last_rank == 0) || ltb rank last_rank ≡ true
      → total + v * factor < 2 ^ 64
      → scan is_alphabetic whole
          (record { total = total; value = some v; last_rank = last_rank })
          (unit ∷ rest)
        ≡ scan is_alphabetic whole
            (record { total = total + v * factor; value = none; last_rank = rank })
            rest
  unfolding scan_char close_unit
  scan_unit total v rank last_rank factor unit rest u o l =
      let (no_digit, no_space, _, _) = is_unit_char unit rank factor u in
      scan_step _ (record { total = total + v * factor; value = none; last_rank = rank }) unit rest
        (ground arith)

  enough_digits : (n : ℕ) → n < 2 ^ 64 → n < power_of_ten 20
  unfolding power_of_ten
  enough_digits n l = omega arith

  scan-decimal :
      (n total rank : ℕ) (rest : Text)
      → n < 2 ^ 64
      → scan is_alphabetic whole
          (record { total = total; value = none; last_rank = rank })
          (decimal n ++ rest)
        ≡ scan is_alphabetic whole (record { total = total; value = some n; last_rank = rank }) rest
  unfolding decimal
  scan-decimal n total rank rest l = scan-show_digits 19 n total rank rest (enough_digits n l) l

  -- A part of a printed duration adds its seconds.
  pub scan-part :
      (total n rank last_rank factor unit : ℕ) (rest : Text)
      → unit_of unit ≡ some (rank, factor)
      → (last_rank == 0) || ltb rank last_rank ≡ true
      → n < 2 ^ 64
      → total + n * factor < 2 ^ 64
      → scan is_alphabetic whole
          (record { total = total; value = none; last_rank = last_rank })
          (part n unit ++ rest)
        ≡ scan is_alphabetic whole
            (record {
              total = total + n * factor;
              value = none;
              last_rank = if ltb 0 n then rank else last_rank;
            })
            rest
  unfolding part
  scan-part total n rank last_rank factor unit rest u o small l =
      let assoc = append_assoc (decimal n) (unit ∷ []) rest in
      let digits = scan-decimal n total last_rank (unit ∷ rest) small in
      let closed = scan_unit total n rank last_rank factor unit rest u o l in
      elim (Bool-cases (ltb 0 n)) [ inl t ↦ ground arith | inr t ↦ ground arith ]
