-- ===== src/Session/Countdown.antt =====
-- crates/tb-agent/src/state.rs: what the agent says while the time runs down.
use time_bandits.Base.{
  ℕ, ◌≤◌, ◌≡◌, refl, sym, ap, subst, ◌∙◌, Bool, true, false, ◌&&◌, ◌||◌, not, Option, none, some,
  List, [], ◌∷◌, map, any, leb, ltb, ◌==◌, arith, if◌then◌else◌,
}
use time_bandits.AgentServer.Messages.{State, crossed_thresholds}
use time_bandits.Session.AgentState.{
  Announcement, warning, nothing, AgentState, has, mark, ingest, announcements, has_grown,
}
use time_bandits.Session.Sets.{has-mark, mark_fresh, any-crossed_thresholds}

-- The answer with so much time left.
abbrev pub with_remaining : State → ℕ → State
with_remaining base n = record base { remaining_secs = some n }

-- The time does not grow from `n` on.
abbrev pub Shrinks : ℕ → List ℕ → Type 0
Shrinks n [] = Unit
Shrinks n (m ∷ ms) = (m ≤ n) × Shrinks m ms

-- What is to be said: a warning where a threshold was passed since the last answer.
abbrev pub warned : List ℕ → ℕ → List ℕ → List Announcement
warned thresholds before [] = []
warned thresholds before (m ∷ ms) =
    let rest = warned thresholds m ms in
    (if any (λ t. leb m t && ltb t before) thresholds then warning m else nothing) ∷ rest

-- The agent has announced exactly the thresholds at or above the time left.
abbrev pub IsCaughtUp : List ℕ → ℕ → AgentState → Type 0
IsCaughtUp thresholds n s =
    (s.daemon.blocked ≡ false)
    × (s.last_remaining ≡ some n)
    × ((t : ℕ) → has t thresholds ≡ true → has t s.announced ≡ leb n t)

any_among :
    (p q : ℕ → Bool) (thresholds : List ℕ)
    → ((t : ℕ) → has t thresholds ≡ true → p t ≡ q t)
    → any p thresholds ≡ any q thresholds
any_among p q [] h = refl
any_among p q (t ∷ ts) h =
    let here = h t (ground arith) in
    let rest = any_among p q ts (λ u m. h u (ground arith)) in ground arith

ingest-nothing_grown :
    (s : AgentState) (base : State) (m : ℕ)
    → base.blocked ≡ false
    → s.daemon.blocked ≡ false
    → has_grown (some m) s.last_remaining ≡ false
    → let (fresh, set) = mark (crossed_thresholds (with_remaining base m) m) s.announced in
      ((ingest s (with_remaining base m)).0 ≡ (if fresh then warning m else nothing))
      × ((ingest s (with_remaining base m)).1.announced ≡ set)
      × ((ingest s (with_remaining base m)).1.last_remaining ≡ some m)
      × ((ingest s (with_remaining base m)).1.daemon.blocked ≡ false)
unfolding ingest
ingest-nothing_grown s base m free was grown =
    (ground arith, ground arith, ground arith, ground arith)

passed_among : (m t : ℕ) (ts : List ℕ) → any (λ u. leb m u && (u == t)) ts ≡ leb m t && has t ts
passed_among m t [] = ground arith
passed_among m t (u ∷ us) = let rest = passed_among m t us in ground arith

-- The thresholds that are fresh are those passed since.
fresh_passed :
    (thresholds announced : List ℕ) (base : State) (n m : ℕ)
    → base.warn_at_secs ≡ thresholds
    → ((t : ℕ) → has t thresholds ≡ true → has t announced ≡ leb n t)
    → (mark (crossed_thresholds (with_remaining base m) m) announced).0
      ≡ any (λ t. leb m t && ltb t n) thresholds
fresh_passed thresholds announced base n m at known =
    mark_fresh (crossed_thresholds (with_remaining base m) m) announced
    ∙ any-crossed_thresholds (λ t. not (has t announced)) (with_remaining base m) m
    ∙ ap (any (λ t. leb m t && not (has t announced))) at
    ∙ any_among (λ t. leb m t && not (has t announced)) (λ t. leb m t && ltb t n) thresholds
        (λ t there. let k = known t there in ground arith)

then_announced :
    (thresholds announced : List ℕ) (base : State) (n m : ℕ)
    → base.warn_at_secs ≡ thresholds
    → m ≤ n
    → ((t : ℕ) → has t thresholds ≡ true → has t announced ≡ leb n t)
    → (t : ℕ) → has t thresholds ≡ true
    → has t (mark (crossed_thresholds (with_remaining base m) m) announced).1 ≡ leb m t
then_announced thresholds announced base n m at le known t there =
    let k = known t there in
    let all_of = has-mark t (crossed_thresholds (with_remaining base m) m) announced in
    let crossed =
      any-crossed_thresholds (λ u. u == t) (with_remaining base m) m
      ∙ ap (any (λ u. leb m u && (u == t))) at
      ∙ passed_among m t thresholds in
    all_of ∙ ap (λ b. has t announced || b) crossed ∙ ground arith

ingest-IsCaughtUp :
    (thresholds : List ℕ) (s : AgentState) (base : State) (n m : ℕ)
    → base.blocked ≡ false
    → base.warn_at_secs ≡ thresholds
    → IsCaughtUp thresholds n s
    → m ≤ n
    → let (said, next) = ingest s (with_remaining base m) in
      (said ≡ (if any (λ t. leb m t && ltb t n) thresholds then warning m else nothing))
      × IsCaughtUp thresholds m next
ingest-IsCaughtUp thresholds s base n m free at (was, last, known) le =
    let (said, set, left, then_free) = ingest-nothing_grown s base m free was (ground arith) in
    (
      said
          ∙ ap (λ b. if b then warning m else nothing)
              (fresh_passed thresholds s.announced base n m at known),
      (
        then_free,
        left,
        λ t there.
            ap (has t) set ∙ then_announced thresholds s.announced base n m at le known t there,
      ),
    )

-- If the agent has announced just the thresholds at or above the time left, then over any sequence of
-- answers that do not refuse, with these thresholds and a time that never grows, it speaks exactly at
-- the answers where the time passed a threshold, once however many it passed.
pub announcements_warned :
    (times : List ℕ) (thresholds : List ℕ) (s : AgentState) (base : State) (n : ℕ)
    → base.blocked ≡ false
    → base.warn_at_secs ≡ thresholds
    → IsCaughtUp thresholds n s
    → Shrinks n times
    → announcements s (map (with_remaining base) times) ≡ warned thresholds n times
announcements_warned [] thresholds s base n free at caught shrinks = refl
announcements_warned (m ∷ ms) thresholds s base n free at caught (le, shrinks) =
    let (said, next) = ingest-IsCaughtUp thresholds s base n m free at caught le in
    let rest =
      announcements_warned ms thresholds (ingest s (with_remaining base m)).1 base m free at next
        shrinks in
    rw (said, rest) refl

abbrev AllAnnounced : List ℕ → AgentState → Type 0
AllAnnounced thresholds s = (t : ℕ) → has t thresholds ≡ true → has t s.announced ≡ true

abbrev ShrinksFrom : Option ℕ → List ℕ → Type 0
ShrinksFrom last [] = Unit
ShrinksFrom last (m ∷ ms) = (has_grown (some m) last ≡ false) × ShrinksFrom (some m) ms

Shrinks-ShrinksFrom : (n : ℕ) (times : List ℕ) → Shrinks n times → ShrinksFrom (some n) times
Shrinks-ShrinksFrom n [] h = tt
Shrinks-ShrinksFrom n (m ∷ ms) (le, h) = (ground arith, Shrinks-ShrinksFrom m ms h)

Shrinks-from_none : (n : ℕ) (times : List ℕ) → Shrinks n times → ShrinksFrom none times
Shrinks-from_none n [] h = tt
Shrinks-from_none n (m ∷ ms) (le, h) = (refl, Shrinks-ShrinksFrom m ms h)

any_never : (ts : List ℕ) → any (λ t. false) ts ≡ false
any_never [] = refl
any_never (t ∷ ts) = any_never ts

none_fresh :
    (announced : List ℕ) (base : State) (m : ℕ)
    → ((t : ℕ) → has t base.warn_at_secs ≡ true → has t announced ≡ true)
    → (mark (crossed_thresholds (with_remaining base m) m) announced).0 ≡ false
none_fresh announced base m known =
    mark_fresh (crossed_thresholds (with_remaining base m) m) announced
    ∙ any-crossed_thresholds (λ t. not (has t announced)) (with_remaining base m) m
    ∙ any_among (λ t. leb m t && not (has t announced)) (λ t. false) base.warn_at_secs
        (λ t there. let k = known t there in ground arith)
    ∙ any_never base.warn_at_secs

silent_while_announced :
    (times : List ℕ) (s : AgentState) (base : State)
    → base.blocked ≡ false
    → s.daemon.blocked ≡ false
    → AllAnnounced base.warn_at_secs s
    → ShrinksFrom s.last_remaining times
    → announcements s (map (with_remaining base) times) ≡ map (λ _. nothing) times
silent_while_announced [] s base free was known shrinks = refl
silent_while_announced (m ∷ ms) s base free was known (grown, shrinks) =
    let (said, set, left, then_free) = ingest-nothing_grown s base m free was grown in
    let quiet =
      said ∙ ap (λ b. if b then warning m else nothing) (none_fresh s.announced base m known) in
    let still = λ (t : ℕ) (there : has t base.warn_at_secs ≡ true).
      ap (has t) set
      ∙ has-mark t (crossed_thresholds (with_remaining base m) m) s.announced
      ∙ ap (λ b. b || has t (crossed_thresholds (with_remaining base m) m)) (known t there) in
    let rest =
      silent_while_announced ms (ingest s (with_remaining base m)).1 base free then_free still
        (subst (λ l. ShrinksFrom l ms) (sym left) shrinks) in
    rw (quiet, rest) refl

abbrev pub without_limit : State → State
without_limit base = record base { remaining_secs = none }

ingest-without_limit :
    (s : AgentState) (base : State)
    → base.blocked ≡ false
    → s.daemon.blocked ≡ false
    → let (said, next) = ingest s (without_limit base) in
      (said ≡ nothing)
      × (next.announced ≡ s.announced)
      × (next.last_remaining ≡ none)
      × (next.daemon.blocked ≡ false)
unfolding ingest
ingest-without_limit s base free was = (ground arith, ground arith, ground arith, ground arith)

-- If every threshold is announced and access is not refused, then after an answer without a limit
-- and of any sequence of answers with a limit again, whose times never grow, however large, the
-- agent warns at none: an answer without a limit does not count as more time.
pub unlimited_then_silent :
    (times : List ℕ) (s : AgentState) (base : State) (n : ℕ)
    → base.blocked ≡ false
    → s.daemon.blocked ≡ false
    → ((t : ℕ) → has t base.warn_at_secs ≡ true → has t s.announced ≡ true)
    → Shrinks n times
    → announcements s (without_limit base ∷ map (with_remaining base) times)
      ≡ nothing ∷ map (λ _. nothing) times
unlimited_then_silent times s base n free was known shrinks =
    let (said, set, left, then_free) = ingest-without_limit s base free was in
    let still =
      λ (t : ℕ) (there : has t base.warn_at_secs ≡ true). ap (has t) set ∙ known t there in
    let rest =
      silent_while_announced times (ingest s (without_limit base)).1 base free then_free still
        (subst (λ l. ShrinksFrom l times) (sym left) (Shrinks-from_none n times shrinks)) in
    rw (said, rest) refl
