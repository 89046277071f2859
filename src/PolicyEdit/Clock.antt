-- ===== src/PolicyEdit/Clock.antt =====
-- crates/tb-cli/src/policyedit.rs: a time of day that is printed as hours and minutes and read again.
use time_bandits.Base.{
  ℕ, ◌*◌, ◌/◌, ◌%◌, ◌<◌, ◌≤◌, ◌≡◌, ap, ◌∙◌, some, [], ◌∷◌, ◌++◌, codes, arith, trim, trim_start,
  trim_end, is_whitespace, parse_unsigned, parse_digits,
}
use time_bandits.Jiff.{Time, nanos_per_sec}
use time_bandits.Pam.Server.{two_digits, clock_text}
use time_bandits.PolicyEdit.Parsing.{parse_part, parse_time, time_from, split_at, time_of_parts}

parse_unsigned-two_digits : (n : ℕ) → n < 100 → parse_unsigned (two_digits n) ≡ some n
unfolding parse_unsigned parse_digits
parse_unsigned-two_digits n l = ground arith

parse_part-two_digits :
    (limit n : ℕ) → n < limit → limit ≤ 60 → parse_part limit (two_digits n) ≡ some n
unfolding parse_part
parse_part-two_digits limit n l m =
    let number = parse_unsigned-two_digits n (omega arith) in ground arith

split_at-two_digits :
    (h m : ℕ)
    → split_at b':' (two_digits h ++ codes ":" ++ two_digits m) ≡ (two_digits h, two_digits m ∷ [])
unfolding split_at
split_at-two_digits h m = ground arith

trim-two_digits :
    (h m : ℕ)
    → trim (two_digits h ++ codes ":" ++ two_digits m) ≡ two_digits h ++ codes ":" ++ two_digits m
unfolding trim trim_start trim_end is_whitespace
trim-two_digits h m = ground arith

whole_minutes :
    (t : ℕ)
    → time_of_parts (t / (3600 * nanos_per_sec)) (t / (60 * nanos_per_sec) % 60) 0
      ≡ t / (60 * nanos_per_sec) * (60 * nanos_per_sec)
whole_minutes t = omega arith

time_from-two_digits :
    (h m : ℕ)
    → h < 24
    → m < 60
    → time_from (two_digits h, two_digits m ∷ []) ≡ some (time_of_parts h m 0)
unfolding time_from
time_from-two_digits h m l k =
    let hour = parse_part-two_digits 24 h l (omega arith) in
    let minute = parse_part-two_digits 60 m k (omega arith) in ground arith

-- The time of day that the daemon prints, in hours and minutes, is read back without its seconds.
pub parse_time-clock_text :
    (t : Time)
    → t < 86400 * nanos_per_sec
    → parse_time (clock_text t) ≡ some (t / (60 * nanos_per_sec) * (60 * nanos_per_sec))
unfolding parse_time
parse_time-clock_text t l =
    let h = t / (3600 * nanos_per_sec) in
    let m = t / (60 * nanos_per_sec) % 60 in
    ap (λ s. time_from (split_at b':' s)) (trim-two_digits h m)
    ∙ ap time_from (split_at-two_digits h m)
    ∙ time_from-two_digits h m (omega arith) (omega arith)
    ∙ ap some (whole_minutes t)
