-- ===== src/Usage/Totals.antt =====
-- Sums over recorded segments: `totals_by_app` and `total`.
use time_bandits.Base.{
  ℕ, ◌+◌, ◌≡◌, refl, ap, Bool, true, false, ◌&&◌, ◌||◌, List, [], ◌∷◌, map, sum, ltb, ◌==◌, ◌=t◌,
  text-eq, text_le, text_le_total, if◌then◌else◌, sort_by, sum-sort_by, IsSorted, IsSorted-sort_by,
  arith, Bool-cases, inl, inr,
}
use time_bandits.Duration.{DurationSpec, as_secs, from_secs}
use time_bandits.AppId.{AppId}
use time_bandits.Usage.{UsageSegment, duration}

-- `*map.entry(app).or_default() += secs`, where the map is a list of its entries.
unfoldable pub add_to : AppId → ℕ → List (AppId × ℕ) → List (AppId × ℕ)
add_to app secs [] = (app, secs) ∷ []
add_to app secs ((key, n) ∷ rest) =
    if key =t app then (key, n + secs) ∷ rest else (key, n) ∷ add_to app secs rest

unfoldable pub tally : List (AppId × ℕ) → List UsageSegment → List (AppId × ℕ)
unfolding add_to
tally entries [] = entries
tally entries (s ∷ rest) = tally (add_to s.app (as_secs (duration s)) entries) rest

-- Longest first, ties by the identifier.
abbrev pub before : AppId × DurationSpec → AppId × DurationSpec → Bool
before (a, d) (b, e) = ltb e d || d == e && text_le a b

-- The seconds of the entries and of the segments stay below 2 ^ 64, so no sum wraps.
unfoldable pub totals_by_app : List UsageSegment → List (AppId × DurationSpec)
unfolding tally
totals_by_app segments = sort_by before (map (λ (a, secs). (a, from_secs secs)) (tally [] segments))

unfoldable pub total : List UsageSegment → DurationSpec
total segments = from_secs (sum (map (λ (s : UsageSegment). as_secs (duration s)) segments))

-- The seconds of the entries, and of the segments, whose application satisfies `p`.
abbrev pub listed : (AppId → Bool) → AppId × DurationSpec → ℕ
listed p (app, d) = if p app then as_secs d else 0

abbrev pub spent : (AppId → Bool) → UsageSegment → ℕ
spent p s = if p s.app then as_secs (duration s) else 0

abbrev counted : (AppId → Bool) → AppId × ℕ → ℕ
counted p (app, secs) = if p app then secs else 0

module _ (p : AppId → Bool) where
  counted-add_to :
      (app : AppId) (secs : ℕ) (entries : List (AppId × ℕ))
      → sum (map (counted p) (add_to app secs entries))
        ≡ (if p app then secs else 0) + sum (map (counted p) entries)
  unfolding add_to
  counted-add_to app secs [] = refl
  counted-add_to app secs ((key, n) ∷ rest) = elim (Bool-cases (key =t app)) [
    | inl e ↦ rw e (ground (arith, ap p (text-eq key app e)))
    | inr e ↦ rw e (omega (arith, counted-add_to app secs rest))
  ]

  counted-tally :
      (entries : List (AppId × ℕ)) (segments : List UsageSegment)
      → sum (map (counted p) (tally entries segments))
        ≡ sum (map (counted p) entries) + sum (map (spent p) segments)
  unfolding tally
  counted-tally entries [] = omega arith
  counted-tally entries (s ∷ rest) = omega (
    arith,
    counted-add_to s.app (as_secs (duration s)) entries,
    counted-tally (add_to s.app (as_secs (duration s)) entries) rest,
  )

  listed-from_secs :
      (entries : List (AppId × ℕ))
      → sum (map (listed p) (map (λ (app, secs). (app, from_secs secs)) entries))
        ≡ sum (map (counted p) entries)
  listed-from_secs [] = refl
  listed-from_secs ((app, secs) ∷ rest) = ground (arith, listed-from_secs rest)

  -- Whatever applications one asks for, the entries of `totals_by_app` that name them add up to the
  -- seconds of the segments that name them: nothing is dropped, counted twice or booked elsewhere.
  pub totals_by_app-spent :
      (segments : List UsageSegment)
      → sum (map (listed p) (totals_by_app segments)) ≡ sum (map (spent p) segments)
  unfolding totals_by_app
  totals_by_app-spent segments = omega (
    arith,
    sum-sort_by before (listed p) (map (λ (app, secs). (app, from_secs secs)) (tally [] segments)),
    listed-from_secs (tally [] segments),
    counted-tally [] segments,
  )

before_total : (x y : AppId × DurationSpec) → before x y ≡ false → before y x ≡ true
before_total (a, d) (b, e) h = ground (arith, text_le_total a b)

-- The report lists the longest total first, and equal totals by name.
pub totals_by_app-IsSorted :
    (segments : List UsageSegment) → IsSorted before (totals_by_app segments)
unfolding totals_by_app
totals_by_app-IsSorted segments = IsSorted-sort_by before before_total _
