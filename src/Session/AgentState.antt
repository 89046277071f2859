-- ===== src/Session/AgentState.antt =====
-- crates/tb-agent/src/state.rs: `AgentState`. An `Instant` is a number of nanoseconds, and the set of
-- the announced thresholds is a list of its members.
use time_bandits.Base.{
  ℕ, Bool, true, false, ◌||◌, not, Option, none, some, List, [], ◌∷◌, Text, codes, any, ltb, ◌==◌,
  if◌then◌else◌, unwrap_or,
}
use time_bandits.Agent.{Focus}
use time_bandits.AgentServer.Messages.{State, unmanaged, crossed_thresholds}

abbrev pub Instant : Type 0
Instant = ℕ

pub data Announcement : Type 0 where
  warning : (remaining_secs : ℕ) → Announcement
  refused : (message : Text) → Announcement
  restored : Announcement
  nothing : Announcement

pub record AgentState : Type 0 where
  pub focus : Option Focus
  pub focus_at : Option Instant
  pub daemon : State
  pub announced : List ℕ
  pub blocked_announced : Bool
  pub last_remaining : Option ℕ
  pub answered : Bool

-- `AgentState::new`.
abbrev pub new_agent : Text → AgentState
new_agent subject = record {
  focus = none;
  focus_at = none;
  daemon = unmanaged subject;
  announced = [];
  blocked_announced = false;
  last_remaining = none;
  answered = false;
}

abbrev pub has : ℕ → List ℕ → Bool
has t = any (λ u. u == t)

-- `BTreeSet::insert`, without its answer.
abbrev pub insert_threshold : ℕ → List ℕ → List ℕ
insert_threshold t set = if has t set then set else t ∷ set

-- The loop of `ingest` over the crossed thresholds: whether any is fresh, and the set.
unfoldable pub mark : List ℕ → List ℕ → Bool × List ℕ
mark [] set = (false, set)
mark (t ∷ ts) set =
    let rest = mark ts (insert_threshold t set) in (not (has t set) || rest.0, rest.1)

-- Whether there is more time than before.
abbrev pub has_grown : Option ℕ → Option ℕ → Bool
has_grown (some now) (some before) = ltb before now
has_grown _ _ = false

-- `ingest` as far as it is the same for every answer.
abbrev pub take_in : AgentState → State → AgentState
take_in s state =
    let grown = has_grown state.remaining_secs s.last_remaining in
    record s {
      last_remaining = state.remaining_secs;
      announced = if grown then [] else s.announced;
      blocked_announced = if grown then false else s.blocked_announced;
      daemon = state;
      answered = true;
    }

-- What stands in for a missing message.
abbrev pub time_is_up : Text
time_is_up = codes "Screen time is up."

unfoldable pub ingest : AgentState → State → Announcement × AgentState
unfolding mark
ingest s state =
    let next = take_in s state in
    if state.blocked
    then if next.blocked_announced
      then (nothing, next)
      else (refused (unwrap_or state.message time_is_up), record next { blocked_announced = true })
    else if s.daemon.blocked
    then (restored, record next { blocked_announced = false; announced = [] })
    else elim state.remaining_secs [
      | none ↦ (nothing, next)
      | some remaining ↦
          let (fresh, announced) = mark (crossed_thresholds state remaining) next.announced in
          (if fresh then warning remaining else nothing, record next { announced = announced })
    ]

-- What the agent says to one answer after the other.
abbrev pub announcements : AgentState → List State → List Announcement
announcements s [] = []
announcements s (a ∷ rest) = let (said, next) = ingest s a in said ∷ announcements next rest
