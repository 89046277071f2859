-- ===== src/Duration/Roundtrip.antt =====
-- crates/tb-core/src/duration.rs: reading what `Display` prints.
use mathlib.Core.List.{append_assoc, append-nil}
use time_bandits.Base.{
  ℕ, ◌+◌, ◌*◌, ◌/◌, ◌%◌, ◌^◌, ◌<◌, ◌≡◌, refl, sym, ap, subst, ◌∙◌, Bool, true, false, not, [], ◌∷◌,
  ◌++◌, Text, codes, ltb, ◌==◌, if◌then◌else◌, is_ascii_digit, is_whitespace, trim, trim_start,
  trim_end, arith, all, all-append, Bool-cases, inl, inr, decimal, parse_unsigned,
  parse_unsigned-none, show_digits_are_digits, show_digits_starts,
}
use time_bandits.Duration.{DurationSpec, as_secs, from_secs}
use time_bandits.Duration.Parse.{parsed, scan_char, scan, start, finish, parse_trimmed, from_str}
use time_bandits.Duration.Scanning.{scan-part}
use time_bandits.Duration.Print.{part, to_text}

-- What `from_str` sees in a printed text: it starts with a digit, holds another character behind it,
-- and has no spaces.
abbrev pub no_space : ℕ → Bool
no_space c = not (is_whitespace c)

trim_end_clean : (s : Text) → all no_space s ≡ true → trim_end s ≡ s
unfolding trim_end
trim_end_clean [] h = refl
trim_end_clean (c ∷ cs) h = let rest = trim_end_clean cs (ground arith) in ground arith

pub trim_clean : (s : Text) → all no_space s ≡ true → trim s ≡ s
unfolding trim trim_start
trim_clean [] h = trim_end_clean [] h
trim_clean (c ∷ cs) h = let ends = trim_end_clean (c ∷ cs) h in ground arith

module _ (is_alphabetic : ℕ → Bool) where
  from_str-printed :
      (c : ℕ) (cs : Text)
      → all no_space (c ∷ cs) ≡ true
      → is_ascii_digit c ≡ true
      → all is_ascii_digit cs ≡ false
      → from_str is_alphabetic (c ∷ cs) ≡ finish (scan is_alphabetic (c ∷ cs) start (c ∷ cs))
  unfolding from_str parse_trimmed
  from_str-printed c cs clean d other =
      let trimmed = trim_clean (c ∷ cs) clean in
      let no_number = parse_unsigned-none c cs d other in
      ap (parse_trimmed is_alphabetic) trimmed ∙ ground arith

-- A text that `from_str` does not take for a number of minutes.
IsPrinted : Text → Type 0
IsPrinted t =
    (c : ℕ) × (cs : Text) × (t ≡ c ∷ cs)
    × (is_ascii_digit c ≡ true)
    × (all is_ascii_digit cs ≡ false)

digits_before :
    (s : Text) (unit : ℕ) (rest : Text)
    → all is_ascii_digit s ≡ true
    → is_ascii_digit unit ≡ false
    → all is_ascii_digit (s ++ unit ∷ rest) ≡ false
digits_before [] unit rest h u = ground arith
digits_before (c ∷ cs) unit rest h u =
    let tail = digits_before cs unit rest (ground arith) u in ground arith

pub decimal_starts : (n : ℕ) → (c : ℕ) × (cs : Text) × (decimal n ≡ c ∷ cs)
unfolding decimal
decimal_starts n = show_digits_starts 19 n

pub decimal_are_digits : (n : ℕ) → all is_ascii_digit (decimal n) ≡ true
unfolding decimal
decimal_are_digits n = show_digits_are_digits 20 n

decimal-IsPrinted :
    (n unit : ℕ) (rest : Text) → is_ascii_digit unit ≡ false → IsPrinted (decimal n ++ unit ∷ rest)
unfolding IsPrinted
decimal-IsPrinted n unit rest u =
    let (c, cs, e) = decimal_starts n in
    let digits = decimal_are_digits n in
    let all_digits : all is_ascii_digit (c ∷ cs) ≡ true =
      ap (all is_ascii_digit) (sym e) ∙ digits in
    (
      c,
      cs ++ unit ∷ rest,
      ap (λ s. s ++ unit ∷ rest) e,
      ground arith,
      digits_before cs unit rest (ground arith) u,
    )

part-positive : (n unit : ℕ) (rest : Text) → 0 < n → part n unit ++ rest ≡ decimal n ++ unit ∷ rest
unfolding part
part-positive n unit rest h = let assoc = append_assoc (decimal n) (unit ∷ []) rest in ground arith

part-zero : (n unit : ℕ) (rest : Text) → ltb 0 n ≡ false → part n unit ++ rest ≡ rest
unfolding part
part-zero n unit rest h = ground arith

-- A part that is not zero is printed, and one that is zero leaves what follows.
part-IsPrinted :
    (n unit : ℕ) (rest : Text)
    → is_ascii_digit unit ≡ false
    → (ltb 0 n ≡ false → IsPrinted rest)
    → IsPrinted (part n unit ++ rest)
part-IsPrinted n unit rest u h = elim (Bool-cases (ltb 0 n)) [
  | inl t ↦
      subst IsPrinted (sym (part-positive n unit rest (ground arith)))
        (decimal-IsPrinted n unit rest u)
  | inr t ↦ subst IsPrinted (sym (part-zero n unit rest t)) (h t)
]

pub digits_have_no_space : (s : Text) → all is_ascii_digit s ≡ true → all no_space s ≡ true
unfolding is_whitespace
digits_have_no_space [] h = refl
digits_have_no_space (c ∷ cs) h = let rest = digits_have_no_space cs (ground arith) in ground arith

part_has_no_space : (n unit : ℕ) → no_space unit ≡ true → all no_space (part n unit) ≡ true
unfolding part
part_has_no_space n unit u =
    let digits = digits_have_no_space (decimal n) (decimal_are_digits n) in
    let split = all-append no_space (decimal n) (unit ∷ []) in ground arith

-- The three parts of a duration that is not zero.
abbrev parts : ℕ → Text
parts secs =
    part (secs / 3600) b'h' ++ (part (secs % 3600 / 60) b'm' ++ (part (secs % 60) b's' ++ []))

parts-IsPrinted : (secs : ℕ) → 0 < secs → IsPrinted (parts secs)
parts-IsPrinted secs h = part-IsPrinted (secs / 3600) b'h' _ refl (λ no_hours.
    part-IsPrinted (secs % 3600 / 60) b'm' _ refl
      (λ no_minutes. part-IsPrinted (secs % 60) b's' [] refl (λ no_seconds. ground arith)))

parts_have_no_space : (secs : ℕ) → all no_space (parts secs) ≡ true
unfolding is_whitespace
parts_have_no_space secs =
    let h = part_has_no_space (secs / 3600) b'h' refl in
    let m = part_has_no_space (secs % 3600 / 60) b'm' refl in
    let s = part_has_no_space (secs % 60) b's' refl in
    let seconds = all-append no_space (part (secs % 60) b's') [] in
    let minutes =
      all-append no_space (part (secs % 3600 / 60) b'm') (part (secs % 60) b's' ++ []) in
    let hours =
      all-append no_space (part (secs / 3600) b'h')
        (part (secs % 3600 / 60) b'm' ++ (part (secs % 60) b's' ++ [])) in
    ground arith

to_text-parts : (d : DurationSpec) → (as_secs d == 0) ≡ false → to_text d ≡ parts (as_secs d)
unfolding to_text
to_text-parts d e = let tail = append-nil (part (as_secs d % 60) b's') in ground arith

to_text-zero : (d : DurationSpec) → (as_secs d == 0) ≡ true → to_text d ≡ codes "0s"
unfolding to_text
to_text-zero d e = ground arith

module _ (is_alphabetic : ℕ → Bool) where
  scan-parts :
      (whole : Text) (secs : ℕ)
      → secs < 2 ^ 64
      → finish (scan is_alphabetic whole start (parts secs)) ≡ parsed (from_secs secs)
  unfolding scan
  scan-parts whole secs l =
      let hours = secs / 3600 in
      let minutes = secs % 3600 / 60 in
      let seconds = secs % 60 in
      let rank : ℕ = if ltb 0 hours then 3 else 0 in
      let rank' : ℕ = if ltb 0 minutes then 2 else rank in
      ap finish (
        scan-part is_alphabetic whole 0 hours 3 0 3600 b'h' _ refl refl (omega arith) (omega arith)
        ∙ scan-part is_alphabetic whole (0 + hours * 3600) minutes 2 rank 60 b'm' _ refl
            (ground arith) (omega arith) (omega arith)
        ∙ scan-part is_alphabetic whole (0 + hours * 3600 + minutes * 60) seconds 1 rank' 1 b's' _
            refl (ground arith) (omega arith) (omega arith))
      ∙ ap (λ (t : ℕ). parsed (from_secs t)) (omega arith)

  from_str-parts :
      (secs : ℕ)
      → 0 < secs
      → secs < 2 ^ 64
      → from_str is_alphabetic (parts secs) ≡ parsed (from_secs secs)
  unfolding IsPrinted
  from_str-parts secs h l =
      let (c, cs, e, digit, other) = parts-IsPrinted secs h in
      let clean = parts_have_no_space secs in
      ap (from_str is_alphabetic) e
      ∙ from_str-printed is_alphabetic c cs (ap (all no_space) (sym e) ∙ clean) digit other
      ∙ ap (λ t. finish (scan is_alphabetic (c ∷ cs) start t)) (sym e)
      ∙ scan-parts (c ∷ cs) secs l

  from_str-zero : from_str is_alphabetic (codes "0s") ≡ parsed (from_secs 0)
  unfolding from_str trim is_whitespace parse_unsigned scan_char
  from_str-zero = refl

  -- Printed and read again, a duration comes back without the part of a second that it has.
  pub from_str-to_text :
      (d : DurationSpec)
      → as_secs d < 2 ^ 64
      → from_str is_alphabetic (to_text d) ≡ parsed (from_secs (as_secs d))
  from_str-to_text d l = elim (Bool-cases (as_secs d == 0)) [
    | inl e ↦
        let none_left : 0 ≡ as_secs d = ground arith in
        ap (from_str is_alphabetic) (to_text-zero d e)
        ∙ from_str-zero
        ∙ ap (λ (t : ℕ). parsed (from_secs t)) none_left
    | inr e ↦
        ap (from_str is_alphabetic) (to_text-parts d e)
        ∙ from_str-parts (as_secs d) (ground arith) l
  ]
