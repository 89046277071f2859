-- ===== src/Windows/Merging.antt =====
-- Merging windows changes no answer: the merged intervals cover the same moments, in order and apart.
use time_bandits.Base.{
  ◌<◌, ◌≡◌, ◌&&◌, ◌||◌, refl, ap, ◌∙◌, Bool, true, false, List, [], ◌∷◌, any, filter_map, ltb, leb,
  any-sort_by, HeadLe, IsSorted, IsSorted-sort_by, arith,
}
use time_bandits.Jiff.{Jiff, Time, Timestamp}
use time_bandits.Schedule.{TimeWindow, PolicyDay}
use time_bandits.Windows.{
  Interval, starts_first, merge_from, merge, absorb, window_interval, concrete_windows,
}

-- Half-open: the start is inside, the end is not.
abbrev pub within : Timestamp → Interval → Bool
within t iv = leb iv.start t && ltb t iv.end

-- `intervals.iter().any(|iv| iv.start <= t && t < iv.end)`.
abbrev pub covered : Timestamp → List Interval → Bool
covered t = any (within t)

-- Each interval ends before the next one starts.
abbrev pub HeadAfter : Timestamp → List Interval → Type 0
HeadAfter b [] = Unit
HeadAfter b (a ∷ rest) = b < a.start

abbrev pub IsApart : List Interval → Type 0
IsApart [] = Unit
IsApart (a ∷ rest) = HeadAfter a.end rest × IsApart rest

absorb-starts_first :
    (last iv : Interval) (rest : List Interval)
    → leb last.start iv.start ≡ true
    → HeadLe starts_first iv rest
    → HeadLe starts_first (absorb last iv) rest
absorb-starts_first last iv [] e h = tt
absorb-starts_first last iv (x ∷ rest) e h = ground arith

within-absorb :
    (t : Timestamp) (last iv : Interval)
    → leb last.start iv.start ≡ true
    → leb iv.start last.end ≡ true
    → within t (absorb last iv) ≡ within t last || within t iv
within-absorb t last iv h e = ground arith

or_regroup : (a b c d : Bool) → a ≡ b || c → a || d ≡ b || (c || d)
or_regroup a b c d e = ground arith

covered-merge_from :
    (t : Timestamp) (last : Interval) (rest : List Interval)
    → HeadLe starts_first last rest
    → IsSorted starts_first rest
    → covered t (merge_from last rest) ≡ covered t (last ∷ rest)
unfolding merge_from
covered-merge_from t last [] h s = refl
covered-merge_from t last (iv ∷ rest) h s =
    (elim (leb iv.start last.end)
        as (λ x.
          leb iv.start last.end ≡ x
          → covered t (elim x as (λ _. List Interval) [
            | true ↦ merge_from (absorb last iv) rest
            | false ↦ last ∷ merge_from iv rest
          ])
            ≡ covered t (last ∷ iv ∷ rest)) [
              | true ↦ λ e.
                  covered-merge_from t (absorb last iv) rest
                    (absorb-starts_first last iv rest h s.0) s.1
                  ∙ or_regroup _ _ _ _ (within-absorb t last iv h e)
              | false ↦ λ e. ap (λ b. within t last || b) (covered-merge_from t iv rest s.0 s.1)
            ])
      refl

HeadAfter-merge_from :
    (b : Timestamp) (last : Interval) (rest : List Interval)
    → b < last.start
    → HeadAfter b (merge_from last rest)
unfolding merge_from
HeadAfter-merge_from b last [] h = h
HeadAfter-merge_from b last (iv ∷ rest) h =
    elim (leb iv.start last.end)
      as (λ x. HeadAfter b (elim x as (λ _. List Interval) [
        | true ↦ merge_from (absorb last iv) rest
        | false ↦ last ∷ merge_from iv rest
      ])) [ true ↦ HeadAfter-merge_from b (absorb last iv) rest (ground arith) | false ↦ h ]

IsApart-merge_from : (last : Interval) (rest : List Interval) → IsApart (merge_from last rest)
unfolding merge_from
IsApart-merge_from last [] = (tt, tt)
IsApart-merge_from last (iv ∷ rest) =
    (elim (leb iv.start last.end)
        as (λ x.
          leb iv.start last.end ≡ x
          → IsApart (elim x as (λ _. List Interval) [
            | true ↦ merge_from (absorb last iv) rest
            | false ↦ last ∷ merge_from iv rest
          ])) [
            | true ↦ λ e. IsApart-merge_from (absorb last iv) rest
            | false ↦ λ e.
                (HeadAfter-merge_from last.end iv rest (ground arith), IsApart-merge_from iv rest)
          ])
      refl

covered-merge :
    (t : Timestamp) (ivs : List Interval)
    → IsSorted starts_first ivs
    → covered t (merge ivs) ≡ covered t ivs
unfolding merge
covered-merge t [] s = refl
covered-merge t (iv ∷ rest) s = covered-merge_from t iv rest s.0 s.1

IsApart-merge : (ivs : List Interval) → IsApart (merge ivs)
unfolding merge
IsApart-merge [] = tt
IsApart-merge (iv ∷ rest) = IsApart-merge_from iv rest

module _ (j : Jiff) (pd : PolicyDay j) (windows : List TimeWindow) (day_start : Time)
    (tz : j.TimeZone) where
  -- The merged windows of a policy day cover exactly the moments that one of its windows, taken on
  -- its own, covers; and each ends before the next one starts, so touching windows are one.
  pub concrete_windows_lem :
      ((t : Timestamp)
        → covered t (concrete_windows j pd windows day_start tz)
          ≡ covered t (filter_map (window_interval j pd day_start tz) windows))
      × IsApart (concrete_windows j pd windows day_start tz)
  unfolding concrete_windows
  concrete_windows_lem = (
    λ t.
        covered-merge t _ (IsSorted-sort_by starts_first (λ x y h. ground arith) _)
        ∙ any-sort_by starts_first (within t) _,
    IsApart-merge _,
  )
