-- ===== src/Ticker/Effects.antt =====
-- Counting the effects of a tick by their kind.
use time_bandits.Base.{
  ℕ, ◌+◌, ◌≡◌, refl, Bool, true, false, List, [], ◌∷◌, ◌++◌, map, arith, Text, if◌then◌else◌,
}
use time_bandits.Usage.{UsageSegment}
use time_bandits.Ticker.State.{
  Effect, warn, closing, lock_session, terminate_session, insert_segment, record_event,
}

abbrev pub is_warning : Effect → Bool
is_warning (warn _) = true
is_warning _ = false

abbrev pub is_closing : Effect → Bool
is_closing (closing _ _) = true
is_closing _ = false

abbrev pub is_lock : Effect → Bool
is_lock (lock_session _) = true
is_lock _ = false

abbrev pub is_termination : Effect → Bool
is_termination (terminate_session _) = true
is_termination _ = false

-- What reaches the child or its sessions: all but the entries in the store.
abbrev pub is_intervention : Effect → Bool
is_intervention (insert_segment _) = false
is_intervention (record_event _) = false
is_intervention _ = true

-- The segments that the effects write.
abbrev pub recorded : List Effect → List UsageSegment
recorded [] = []
recorded (insert_segment segment ∷ rest) = segment ∷ recorded rest
recorded (_ ∷ rest) = recorded rest

-- How many of the effects are of a kind.
abbrev pub count : (Effect → Bool) → List Effect → ℕ
count p [] = 0
count p (e ∷ rest) = (if p e then 1 else 0) + count p rest

pub count-append :
    (p : Effect → Bool) (xs ys : List Effect) → count p (xs ++ ys) ≡ count p xs + count p ys
count-append p [] ys = omega arith
count-append p (x ∷ xs) ys = omega (arith, count-append p xs ys)

pub count-lock :
    (p : Effect → Bool)
    → ((t : Text) → p (lock_session t) ≡ false)
    → (ids : List Text) → count p (map lock_session ids) ≡ 0
count-lock p h [] = refl
count-lock p h (t ∷ rest) = let here = h t in ground (arith, count-lock p h rest)

pub count-terminate :
    (p : Effect → Bool)
    → ((t : Text) → p (terminate_session t) ≡ false)
    → (ids : List Text) → count p (map terminate_session ids) ≡ 0
count-terminate p h [] = refl
count-terminate p h (t ∷ rest) = let here = h t in ground (arith, count-terminate p h rest)
