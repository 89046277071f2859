-- ===== src/Session/Sets.antt =====
-- crates/tb-agent/src/state.rs: the set of announced thresholds.
use time_bandits.Base.{
  ℕ, ◌≡◌, refl, ap, ◌∙◌, Bool, true, ◌&&◌, ◌||◌, not, List, [], ◌∷◌, any, keep, leb, ◌==◌, arith,
  any-sort_by, Bool-cases, inl, inr,
}
use time_bandits.AgentServer.Messages.{State, crossed_thresholds}
use time_bandits.Session.AgentState.{has, insert_threshold, mark}

equal : (t u : ℕ) → (t == u) ≡ true → t ≡ u
equal t u same = ground arith

has-insert_threshold :
    (u t : ℕ) (set : List ℕ) → has u (insert_threshold t set) ≡ (t == u) || has u set
has-insert_threshold u t set = elim (Bool-cases (has t set)) [
  | inl there ↦ elim (Bool-cases (t == u)) [
    | inl same ↦ let kept = ap (λ v. has v set) (equal t u same) in ground arith
    | inr other ↦ ground arith
  ]
  | inr absent ↦ ground arith
]

-- After the loop the set has the thresholds too.
pub has-mark : (u : ℕ) (ts set : List ℕ) → has u (mark ts set).1 ≡ has u set || has u ts
unfolding mark
has-mark u [] set = ground arith
has-mark u (t ∷ ts) set =
    let later = has-mark u ts (insert_threshold t set) in
    let one = has-insert_threshold u t set in ground arith

-- There is a fresh one among the thresholds exactly when one is not in the set.
pub mark_fresh : (ts set : List ℕ) → (mark ts set).0 ≡ any (λ t. not (has t set)) ts
unfolding mark
mark_fresh [] set = refl
mark_fresh (t ∷ ts) set = elim (Bool-cases (has t set)) [
  | inl there ↦ let rest = mark_fresh ts set in rw (there) rest
  | inr absent ↦ rw (absent) refl
]

pub any-keep : (p q : ℕ → Bool) (ts : List ℕ) → any p (keep q ts) ≡ any (λ t. q t && p t) ts
any-keep p q [] = refl
any-keep p q (t ∷ ts) = let rest = any-keep p q ts in ground arith

-- An item is among the crossed thresholds exactly when it is among the thresholds and crossed.
pub any-crossed_thresholds :
    (p : ℕ → Bool) (state : State) (remaining : ℕ)
    → any p (crossed_thresholds state remaining)
      ≡ any (λ t. leb remaining t && p t) state.warn_at_secs
unfolding crossed_thresholds
any-crossed_thresholds p state remaining =
    any-sort_by _ p (keep (λ t. leb remaining t) state.warn_at_secs)
    ∙ any-keep p (λ t. leb remaining t) state.warn_at_secs
