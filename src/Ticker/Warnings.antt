-- ===== src/Ticker/Warnings.antt =====
-- crates/tb-daemon/src/tick.rs: what a tick does while access is allowed.
pub mod Once
use time_bandits.Base.{
  ℕ, Bool, false, ◌&&◌, ◌||◌, not, Option, none, some, List, [], ◌∷◌, any, leb, ◌==◌, if◌then◌else◌,
}
use time_bandits.Jiff.{Jiff}
use time_bandits.Duration.{DurationSpec, as_secs}
use time_bandits.Schedule.{PolicyDay}
use time_bandits.Policy.{Policy, sorted_warnings}
use time_bandits.Engine.{Allowance}
use time_bandits.Ticker.State.{Outcome, UserState, done, running, warn}

-- The loop over the thresholds: the seconds warned of, and whether one of them is new.
unfoldable pub cross : DurationSpec → List DurationSpec → List ℕ → Bool → List ℕ × Bool
cross remaining [] warned announce = (warned, announce)
cross remaining (threshold ∷ rest) warned announce =
    let new = leb remaining threshold && not (any (λ s. s == as_secs threshold) warned) in
    cross remaining rest (if new then as_secs threshold ∷ warned else warned) (announce || new)

module _ (j : Jiff) where
  abbrev pub same_date : Option j.Date → j.Date → Bool
  same_date none d = false
  same_date (some e) d = j.date_eq e d

  -- A new policy day starts quiet, and access that came back ends an escalation.
  unfoldable pub restore : PolicyDay j → UserState j → UserState j
  restore day state =
      let fresh_day = not (same_date state.warned_on day.date) in
      record state {
        warned = if fresh_day then [] else state.warned;
        warned_on = if fresh_day then some day.date else state.warned_on;
        phase = running;
      }

  -- Marks the thresholds that are crossed, and speaks once if one of them is new.
  unfoldable pub announce_crossed : Policy → DurationSpec → UserState j → Outcome (UserState j)
  unfolding cross
  announce_crossed policy remaining state =
      let (warned, announce) = cross remaining (sorted_warnings policy) state.warned false in
      done (record state { warned = warned }) (if announce then warn remaining ∷ [] else [])

  unfoldable pub on_allowed :
      Policy → PolicyDay j → Bool → Allowance → UserState j → Outcome (UserState j)
  unfolding announce_crossed restore
  on_allowed policy day at_work a state =
      let state' = restore day state in
      elim a.remaining [
        | none ↦ done state' []
        | some remaining ↦
            if at_work then announce_crossed policy remaining state' else done state' []
      ]
