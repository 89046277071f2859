-- ===== src/Cli/Layout.antt =====
-- crates/tb-cli/src/report.rs: what a report prints for durations, moments and shares.
use native.Mathlib.Nat.{div-mul-le_self, le_of_mul-le-mul_right, add-mul}
use time_bandits.Base.{
  ℕ, zero, suc, ◌+◌, ◌*◌, ◌/◌, ◌%◌, ◌^◌, ◌≤◌, ◌≡◌, ◌∙◌, refl, ap, true, List, [], ◌∷◌, ◌++◌, map,
  sum, Text, codes, decimal, ltb, ◌==◌, if◌then◌else◌, arith, unwrap_or, if_elim,
}
use time_bandits.Jiff.{Jiff, Timestamp}
use time_bandits.Duration.{DurationSpec, as_secs, from_secs}
use time_bandits.AppId.{AppId}
use time_bandits.Usage.{UsageSegment, duration}
use time_bandits.Usage.Totals.{totals_by_app, total, listed, spent, totals_by_app-spent}
use time_bandits.Pam.Server.{clock_text, weekday_name}

-- `human`.
unfoldable pub human : DurationSpec → Text
human d =
    let secs = as_secs d in
    let hours = secs / 3600 in
    let minutes = secs % 3600 / 60 in
    if secs == 0
    then codes "none"
    else if ltb secs 60
    then decimal secs ++ codes " s"
    else if hours == 0
    then decimal minutes ++ codes " min"
    else if minutes == 0
    then decimal hours ++ codes " h"
    else decimal hours ++ codes " h " ++ decimal minutes ++ codes " min"

module _ (j : Jiff) where
  -- `when`, with the zones of the two moments.
  unfoldable pub when : j.TimeZone → Timestamp → j.TimeZone → Timestamp → Text
  when tz target local now =
      let time = clock_text (j.time_of tz target) in
      let date = j.date_of tz target in
      let today = j.date_of local now in
      if j.date_eq date today
      then time
      else if j.date_eq date (unwrap_or (j.tomorrow today) date)
      then codes "tomorrow " ++ time
      else weekday_name (j.weekday date) ++ codes " " ++ time

-- The share of an entry in percent; the product of `u64`s wraps.
unfoldable pub share : DurationSpec → DurationSpec → ℕ
share total_time duration =
    if as_secs total_time == 0 then 0 else as_secs duration * 100 % 2 ^ 64 / as_secs total_time

-- One line of `usage_table`: the application, its time, the share and the length of the bar.
pub record Row : Type 0 where
  pub app : AppId
  pub time : Text
  pub percent : ℕ
  pub bar : ℕ

unfoldable pub row_of : DurationSpec → AppId × DurationSpec → Row
unfolding human share
row_of total_time (app, d) =
    let percent = share total_time d in
    record { app = app; time = human d; percent = percent; bar = percent / 4 }

-- The lines of `usage_table` without the last one, which shows the total.
unfoldable pub usage_rows : List (AppId × DurationSpec) → DurationSpec → List Row
unfolding row_of
usage_rows totals total_time = map (row_of total_time) totals

share_nonzero :
    (n : ℕ) (d : DurationSpec) → share (from_secs (suc n)) d ≡ as_secs d * 100 % 2 ^ 64 / suc n
unfolding share
share_nonzero n d =
    let back : as_secs (from_secs (suc n)) ≡ suc n = omega arith in
    rw (back, share)
      (if_elim (λ x. x ≡ as_secs d * 100 % 2 ^ 64 / suc n) (suc n == 0) _ _
        (λ e. absurd (ground arith)) (λ _. refl))

shares_at_most :
    (n : ℕ) (totals : List (AppId × DurationSpec))
    → sum (map (λ (r : Row). r.percent) (usage_rows totals (from_secs (suc n)))) * suc n
      ≤ sum (map (listed (λ app. true)) totals) * 100
unfolding usage_rows
shares_at_most n [] = omega arith
shares_at_most n ((app, d) ∷ rest) =
    let later = shares_at_most n rest in
    let percent = as_secs d * 100 % 2 ^ 64 / suc n in
    let others = sum (map (λ (r : Row). r.percent) (usage_rows rest (from_secs (suc n)))) in
    let here = div-mul-le_self (as_secs d * 100 % 2 ^ 64) (suc n) in
    let split = add-mul percent others (suc n) in
    let whole = ap (λ x. (x + others) * suc n) (share_nonzero n d) ∙ split in omega (arith, whole)

listed-all :
    (segments : List UsageSegment)
    → sum (map (spent (λ app. true)) segments)
      ≡ sum (map (λ (s : UsageSegment). as_secs (duration s)) segments)
listed-all [] = refl
listed-all (s ∷ rest) = let later = listed-all rest in omega arith

no_shares :
    (totals : List (AppId × DurationSpec))
    → sum (map (λ (r : Row). r.percent) (usage_rows totals (from_secs 0))) ≡ 0
unfolding usage_rows share
no_shares [] = refl
no_shares ((app, d) ∷ rest) = let later = no_shares rest in omega arith

shares_of :
    (secs : ℕ) (totals : List (AppId × DurationSpec))
    → sum (map (listed (λ app. true)) totals) ≡ secs
    → sum (map (λ (r : Row). r.percent) (usage_rows totals (from_secs secs))) ≤ 100
shares_of zero totals h = let none_at_all = no_shares totals in omega arith
shares_of (suc n) totals h =
    let bound = shares_at_most n totals in
    le_of_mul-le-mul_right {k = suc n} (omega arith) (omega arith)

-- The percentages that a report on segments prints add up to at most a hundred, whatever the segments
-- are.
pub usage_rows-percent :
    (segments : List UsageSegment)
    → sum (map (λ (r : Row). r.percent) (usage_rows (totals_by_app segments) (total segments)))
      ≤ 100
unfolding total
usage_rows-percent segments =
    shares_of (sum (map (λ (s : UsageSegment). as_secs (duration s)) segments))
      (totals_by_app segments) (totals_by_app-spent (λ app. true) segments ∙ listed-all segments)
