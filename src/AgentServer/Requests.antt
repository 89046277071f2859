-- ===== src/AgentServer/Requests.antt =====
-- crates/tb-daemon/src/agentserver.rs: how often a request for more time is recorded.
use time_bandits.Base.{
  ℕ, ◌+◌, ◌≤◌, ◌≡◌, refl, sym, subst, ◌∙◌, true, false, not, none, some, List, [], ◌∷◌, ◌++◌, Text,
  leb, text_refl, All, arith, if_elim, Bool-cases, Option-cases, inl, inr,
}
use time_bandits.Jiff.{Timestamp}
use time_bandits.Ticker.State.{more_time_requested}
use time_bandits.Store.Tables.{EventRow, as_second, record_event_at}
use time_bandits.Store.Queries.{times_of, latest}
use time_bandits.AgentServer.Receiver.{Shared, is_quiet, record_request}

-- The seconds at which requests of a user were recorded, the oldest first.
abbrev pub requests : Shared → Text → List ℕ
requests shared subject = times_of subject more_time_requested shared.tables.events

-- Each entry is at least ten minutes after every earlier one.
abbrev pub AreSpaced : List ℕ → Type 0
AreSpaced [] = Unit
AreSpaced (t ∷ ts) = All (λ u. t + 600 ≤ u) ts × AreSpaced ts

abbrev pub AllBefore : ℕ → List ℕ → Type 0
AllBefore now ts = All (λ t. t ≤ now) ts

times_of-append :
    (subject : Text) (events : List EventRow) (at : ℕ)
    → times_of subject more_time_requested
        (events ++ record { subject = subject; kind = more_time_requested; at = at } ∷ [])
      ≡ times_of subject more_time_requested events ++ at ∷ []
times_of-append subject [] at = let same = text_refl subject in ground arith
times_of-append subject (e ∷ es) at = let rest = times_of-append subject es at in ground arith

All-later : (P Q : ℕ → Type 0) → ((t : ℕ) → P t → Q t) → (ts : List ℕ) → All P ts → All Q ts
All-later P Q f [] h = tt
All-later P Q f (t ∷ ts) (p, h) = (f t p, All-later P Q f ts h)

All-append : (P : ℕ → Type 0) (ts : List ℕ) (t : ℕ) → All P ts → P t → All P (ts ++ t ∷ [])
All-append P [] t h p = (p, tt)
All-append P (u ∷ us) t (q, h) p = (q, All-append P us t h p)

latest-none : (ts : List ℕ) → latest ts ≡ none → ts ≡ []
unfolding latest
latest-none [] h = refl
latest-none (t ∷ ts) h = ground arith

-- No time is later than the latest.
latest_lem : (ts : List ℕ) (m : ℕ) → latest ts ≡ some m → AllBefore m ts
unfolding latest
latest_lem [] m h = tt
latest_lem (t ∷ ts) m h = elim (Option-cases (latest ts)) [
  | inl e ↦ (ground arith, subst (AllBefore m) (sym (latest-none ts e)) tt)
  | inr (u, e) ↦ (
    ground arith,
    All-later (λ t. t ≤ u) (λ t. t ≤ m) (λ t le. ground arith) ts (latest_lem ts u e),
  )
]

AreSpaced-append :
    (ts : List ℕ) (now : ℕ)
    → AreSpaced ts
    → All (λ t. t + 600 ≤ now) ts
    → AreSpaced (ts ++ now ∷ [])
AreSpaced-append [] now s h = (tt, tt)
AreSpaced-append (t ∷ ts) now (later, s) (p, h) =
    (All-append (λ u. t + 600 ≤ u) ts now later p, AreSpaced-append ts now s h)

latest_among : (P : ℕ → Type 0) (ts : List ℕ) (m : ℕ) → latest ts ≡ some m → All P ts → P m
unfolding latest
latest_among P [] m h a = ground arith
latest_among P (t ∷ ts) m h (p, a) = elim (Option-cases (latest ts)) [
  | inl e ↦ subst P (ground arith) p
  | inr (u, e) ↦ elim (Bool-cases (leb t u)) [
    | inl le ↦ subst P (ground arith) (latest_among P ts u e a)
    | inr gt ↦ subst P (ground arith) p
  ]
]

quiet_at :
    (shared : Shared) (subject : Text) (now : Timestamp) (m : ℕ)
    → shared.readable ≡ true
    → latest (requests shared subject) ≡ some m
    → m ≤ as_second now
    → is_quiet shared subject now ≡ false
    → m + 600 ≤ as_second now
unfolding is_quiet
quiet_at shared subject now m r e le q = ground arith

-- Outside the quiet period the latest request lies ten minutes back.
waited :
    (shared : Shared) (subject : Text) (now : Timestamp)
    → shared.readable ≡ true
    → is_quiet shared subject now ≡ false
    → AllBefore (as_second now) (requests shared subject)
    → All (λ t. t + 600 ≤ as_second now) (requests shared subject)
waited shared subject now r q h = elim (Option-cases (latest (requests shared subject))) [
  | inl e ↦
      subst (All (λ t. t + 600 ≤ as_second now)) (sym (latest-none (requests shared subject) e)) tt
  | inr (m, e) ↦
      let past = latest_among (λ t. t ≤ as_second now) (requests shared subject) m e h in
      let long_ago = quiet_at shared subject now m r e past q in
      All-later (λ t. t ≤ m) (λ t. t + 600 ≤ as_second now) (λ t le. omega arith)
        (requests shared subject) (latest_lem (requests shared subject) m e)
]

abbrev Good : Text → Timestamp → Shared → Type 0
Good subject now shared =
    AreSpaced (requests shared subject) × AllBefore (as_second now) (requests shared subject)

-- If the database can be read, the recorded requests of a user are ten minutes apart and none lies in
-- the future, then the same holds after a further request.
pub record_request-AreSpaced :
    (shared : Shared) (subject : Text) (now : Timestamp)
    → shared.readable ≡ true
    → AreSpaced (requests shared subject)
    → AllBefore (as_second now) (requests shared subject)
    → let after = record_request shared subject now in
      AreSpaced (requests after subject) × AllBefore (as_second now) (requests after subject)
unfolding record_request record_event_at
record_request-AreSpaced shared subject now r s h =
    if_elim (Good subject now) (not shared.lock_held) shared _ (λ _. (s, h))
      (λ held.
        if_elim (Good subject now) (is_quiet shared subject now) shared _ (λ _. (s, h))
          (λ loud.
            if_elim (Good subject now) shared.writable _ shared
              (λ _.
                let appended = times_of-append subject shared.tables.events (as_second now) in
                subst (λ ts. AreSpaced ts × AllBefore (as_second now) ts) (sym appended)
                  (
                    AreSpaced-append (requests shared subject) (as_second now) s
                        (waited shared subject now r loud h),
                    All-append (λ t. t ≤ as_second now) (requests shared subject) (as_second now) h
                        (omega arith),
                  ))
              (λ _. (s, h))))

unfoldable pub request_all : Shared → Text → List Timestamp → Shared
request_all shared subject [] = shared
request_all shared subject (now ∷ rest) =
    request_all (record_request shared subject now) subject rest

-- The clock does not run backwards from a moment on.
abbrev pub RunsFrom : Timestamp → List Timestamp → Type 0
RunsFrom start [] = Unit
RunsFrom start (now ∷ rest) = (start ≤ now) × RunsFrom now rest

record_request-readable :
    (shared : Shared) (subject : Text) (now : Timestamp)
    → (record_request shared subject now).readable ≡ shared.readable
unfolding record_request
record_request-readable shared subject now = ground arith

-- However often a child asks, while the clock does not run backwards and the database can be read:
-- if the recorded requests were ten minutes apart and in the past, those recorded in the end are ten
-- minutes apart too.
pub request_all-AreSpaced :
    (times : List Timestamp) (shared : Shared) (subject : Text) (start : Timestamp)
    → shared.readable ≡ true
    → AreSpaced (requests shared subject)
    → AllBefore (as_second start) (requests shared subject)
    → RunsFrom start times
    → AreSpaced (requests (request_all shared subject times) subject)
unfolding request_all
request_all-AreSpaced [] shared subject start r s h runs = s
request_all-AreSpaced (now ∷ rest) shared subject start r s h (le, runs) =
    let past =
      All-later (λ t. t ≤ as_second start) (λ t. t ≤ as_second now) (λ t before. omega arith)
        (requests shared subject) h in
    let (s', h') = record_request-AreSpaced shared subject now r s past in
    request_all-AreSpaced rest (record_request shared subject now) subject now
      (record_request-readable shared subject now ∙ r) s' h' runs
