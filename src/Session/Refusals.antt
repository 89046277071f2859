-- ===== src/Session/Refusals.antt =====
-- crates/tb-agent/src/state.rs: what the agent says of a refusal, and of its end.
use time_bandits.Base.{
  ◌≡◌, refl, true, false, some, List, [], ◌∷◌, ◌++◌, map, Text, All, arith, unwrap_or,
}
use time_bandits.AgentServer.Messages.{State}
use time_bandits.Session.AgentState.{
  refused, restored, nothing, AgentState, new_agent, ingest, announcements, time_is_up,
}

-- The answer refuses, with no time left.
abbrev pub IsRefusal : State → Type 0
IsRefusal a = (a.blocked ≡ true) × (a.remaining_secs ≡ some 0)

abbrev pub ingest_all : AgentState → List State → AgentState
ingest_all s [] = s
ingest_all s (a ∷ rest) = ingest_all (ingest s a).1 rest

-- A refusal that is over is not announced as one.
abbrev IsSettled : AgentState → Type 0
IsSettled s = s.daemon.blocked ≡ false → s.blocked_announced ≡ false

ingest-IsSettled : (s : AgentState) (a : State) → IsSettled s → IsSettled (ingest s a).1
unfolding ingest
ingest-IsSettled s a settled = λ free. ground arith

ingest_all-IsSettled :
    (answers : List State) (s : AgentState) → IsSettled s → IsSettled (ingest_all s answers)
ingest_all-IsSettled [] s settled = settled
ingest_all-IsSettled (a ∷ rest) s settled =
    ingest_all-IsSettled rest (ingest s a).1 (ingest-IsSettled s a settled)

-- A refusal was announced and goes on.
abbrev IsTold : AgentState → Type 0
IsTold s = (s.daemon.blocked ≡ true) × (s.blocked_announced ≡ true) × (s.last_remaining ≡ some 0)

ingest_first :
    (s : AgentState) (a : State)
    → s.blocked_announced ≡ false
    → IsRefusal a
    → ((ingest s a).0 ≡ refused (unwrap_or a.message time_is_up)) × IsTold (ingest s a).1
unfolding ingest
ingest_first s a fresh (b, r) = (ground arith, (ground arith, ground arith, ground arith))

ingest_again :
    (s : AgentState) (a : State)
    → IsTold s
    → IsRefusal a
    → ((ingest s a).0 ≡ nothing) × IsTold (ingest s a).1
unfolding ingest
ingest_again s a (was, told, last) (b, r) =
    (ground arith, (ground arith, ground arith, ground arith))

ingest_welcome :
    (s : AgentState) (a : State) → IsTold s → a.blocked ≡ false → (ingest s a).0 ≡ restored
unfolding ingest
ingest_welcome s a (was, told, last) free = ground arith

announcements_told :
    (refusals : List State) (welcome : State) (s : AgentState)
    → IsTold s
    → All IsRefusal refusals
    → welcome.blocked ≡ false
    → announcements s (refusals ++ welcome ∷ []) ≡ map (λ _. nothing) refusals ++ restored ∷ []
announcements_told [] welcome s told all free = rw (ingest_welcome s welcome told free) refl
announcements_told (a ∷ rest) welcome s told (first, all) free =
    let (said, still) = ingest_again s a told first in
    let later = announcements_told rest welcome (ingest s a).1 still all free in
    rw (said, later) refl

-- Whatever an agent was answered before, if the last answer did not refuse: of a run of refusals with
-- no time left, followed by an answer that does not refuse, it announces the first, with its message,
-- says nothing of the others, and announces the end.
pub refusals_told_once :
    (history : List State) (subject : Text) (first : State) (refusals : List State)
    (welcome : State)
    → (ingest_all (new_agent subject) history).daemon.blocked ≡ false
    → IsRefusal first
    → All IsRefusal refusals
    → welcome.blocked ≡ false
    → announcements (ingest_all (new_agent subject) history) (first ∷ refusals ++ welcome ∷ [])
      ≡ refused (unwrap_or first.message time_is_up) ∷ map (λ _. nothing) refusals ++ restored ∷ []
refusals_told_once history subject first refusals welcome before r all free =
    let s = ingest_all (new_agent subject) history in
    let settled = ingest_all-IsSettled history (new_agent subject) (λ _. refl) before in
    let (said, told) = ingest_first s first settled r in
    let later = announcements_told refusals welcome (ingest s first).1 told all free in
    rw (said, later) refl
