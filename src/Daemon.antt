-- ===== src/Daemon.antt =====
-- crates/tb-daemon/src/main.rs: the rounds of `run_ticks`, and the daemon as a whole. The threads of
-- the daemon and the server's tasks take the lock of the store in turn, so what they do is a sequence
-- of events, in whatever order they come.
pub mod Ordered
pub mod Rounds
pub mod Keeping
pub mod Denied
pub mod Spent
pub mod Config
pub mod Users
pub mod Interval
use time_bandits.Base.{Bool, Option, none, some, List, [], ◌∷◌, Text, max, if◌then◌else◌}
use time_bandits.Jiff.{Jiff, Timestamp}
use time_bandits.Duration.{DurationSpec, as_secs, from_secs, from_mins}
use time_bandits.Logind.{SessionInfo}
use time_bandits.Agent.{Report, expire}
use time_bandits.Ticker.State.{Answers, Effect, ticker_config}
use time_bandits.Ticker.Loop
use time_bandits.Ticker.Loop.{Tagged, tagged, States}
use time_bandits.Store.Tables
use time_bandits.Store.Tables.{Tables, record_event_at}
use time_bandits.Pam.Server.{Days, answer}
use time_bandits.AgentServer.Receiver.{Shared, handle}

-- `interval` of `run_ticks`.
abbrev pub round_interval : DurationSpec → DurationSpec
round_interval tick_interval = from_secs (max (as_secs tick_interval) 1)

-- After this time a report is forgotten.
abbrev pub forget_after : DurationSpec
forget_after = from_mins 10

-- What the login manager and the store answer in one round: whether connecting succeeds, the list of
-- the sessions and that of the subjects, if they can be had, and the answers for each user.
pub record Surroundings (j : Jiff) : Type 0 where
  pub connects : Bool
  pub sessions : Option (List SessionInfo)
  pub subjects : Option (List Text)
  pub answers : Text → Answers j

module _ (j : Jiff) where
  -- The first part of a round: a ticker is made where there is none and the connection succeeds.
  abbrev pub connected : Bool → Option (States j) → Option (States j)
  connected connects none = if connects then some [] else none
  connected connects (some states) = some states

  -- One pass of the `while`, after the reports are expired. The ticker is what it keeps of the users;
  -- a tick that fails drops it.
  unfoldable pub round :
      DurationSpec
      → Surroundings j
      → Timestamp
      → Option (States j)
      → List Tagged × Option (States j)
  round tick_interval around now ticker = elim (connected around.connects ticker) [
    | none ↦ ([], none)
    | some states ↦
        let (finished, (effects, states')) =
          Loop.tick j (ticker_config tick_interval) around.sessions around.subjects now
            around.answers states in
        (effects, if finished then some states' else none)
  ]

  -- The last part of `run_ticks`.
  unfoldable pub final_flush : Timestamp → Option (States j) → List Tagged × Option (States j)
  final_flush now none = ([], none)
  final_flush now (some states) =
      let (effects, states') = Loop.flush j now states in (effects, some states')

-- What an effect does to the tables: a segment or an event is stored.
abbrev pub apply_effect : Timestamp → Tagged → Tables → Tables
apply_effect now (subject, Effect.insert_segment seg) tables = Tables.insert_segment tables seg
apply_effect now (subject, Effect.record_event kind) tables =
    record_event_at tables subject kind now
apply_effect now (subject, _) tables = tables

-- The effects in their order; `taken` is which of the statements the database takes.
unfoldable pub apply_effects : (Tagged → Bool) → Timestamp → List Tagged → Tables → Tables
apply_effects taken now [] tables = tables
apply_effects taken now (e ∷ rest) tables =
    apply_effects taken now rest (if taken e then apply_effect now e tables else tables)

-- The shared state, and what the ticker keeps, where there is one.
pub record Daemon (j : Jiff) : Type 0 where
  pub shared : Shared
  pub ticker : Option (States j)

-- What happens to a running daemon without a parent: a message of an agent, a question of the PAM
-- module, a round of the loop, the shutdown, and the database or the lock failing or coming back.
pub data Event (j : Jiff) : Type 0 where
  reported : Text → Option Report → Timestamp → Event j
  asked : Text → Bool → Answers j → (Tagged → Bool) → Timestamp → Event j
  ticked : DurationSpec → Surroundings j → (Tagged → Bool) → Timestamp → Event j
  stopped : (Tagged → Bool) → Timestamp → Event j
  faulted : Bool → Bool → Bool → Event j

module _ (j : Jiff) (date_text : j.Date → Text) (since : j.Date → j.Date → Option Days)
    (local : j.TimeZone) where
  abbrev pub with_effects : (Tagged → Bool) → Timestamp → List Tagged → Shared → Shared
  with_effects taken now effects shared = record shared {
    tables = apply_effects taken now effects shared.tables;
  }

  unfoldable pub step : Event j → Daemon j → Daemon j
  unfolding round final_flush
  step (reported subject message now) d = record d {
    shared = (handle j date_text since local d.shared subject message now).1;
  }
  step (asked subject lock_held answers taken now) d = record d {
    shared =
        with_effects taken now (tagged subject (answer j since local lock_held answers now).1)
          d.shared;
  }
  step (ticked tick_interval around taken now) d =
      let (effects, ticker) = round j tick_interval around now d.ticker in
      let heard = record d.shared { reports = expire d.shared.reports now forget_after } in
      record { shared = with_effects taken now effects heard; ticker = ticker }
  step (stopped taken now) d =
      let (effects, ticker) = final_flush j now d.ticker in
      record { shared = with_effects taken now effects d.shared; ticker = ticker }
  step (faulted lock_held readable writable) d = record d {
    shared = record d.shared { lock_held = lock_held; readable = readable; writable = writable };
  }

  -- The second daemon is one that the first becomes by some events.
  pub data Reaches (d : Daemon j) : Daemon j → Type 0 where
    here : Reaches d d
    next : (e : Daemon j) (event : Event j) → Reaches d e → Reaches d (step event e)
