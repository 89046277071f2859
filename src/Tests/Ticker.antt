-- ===== src/Tests/Ticker.antt =====
-- The enforcement loop on one evening.
use time_bandits.Base.{
  ℕ, ◌*◌, ◌≡◌, refl, true, false, some, none, List, [], ◌∷◌, codes, arith, inr, all, map_option,
  any,
}
use time_bandits.Jiff.{Timestamp, nanos_per_sec}
use time_bandits.Duration.{from_mins}
use time_bandits.AppId.{unknown, unknown_app}
use time_bandits.Policy.{Policy, LockAction, lock, permissive}
use time_bandits.Schedule.{PolicyDay, day_of}
use time_bandits.Engine.{Allowance, daily_quota, daily_quota_exhausted}
use time_bandits.Usage.{ClosedSegment, observe, default_segment_config}
use time_bandits.Agent.{Report}
use time_bandits.Logind.{SessionInfo, is_lockable}
use time_bandits.Ticker.State.{UserState, Answers, grace, running}
use time_bandits.Ticker.Effects.{count, is_closing, is_intervention}
use time_bandits.Ticker.Enforce.Targets.{targets_lockable}
use time_bandits.Ticker.Enforce.Edge.{Denied, AllPresent, enforce_all, enforce_all-closings}
use time_bandits.Ticker.Observe.{new_state, build_tick}
use time_bandits.Ticker.Observe.Idle.{idle_ends_at_last_tick}
use time_bandits.Ticker.User.{tick_policy}
use time_bandits.Ticker.Effects.{recorded}
use time_bandits.Logind.{is_creditable_desktop}
use time_bandits.Ticker.Observe.{build_tick}
use time_bandits.Usage.{observe}
use time_bandits.Ticker.User.Gates.{written, tick_hands_off, tick-targets}
use time_bandits.Tests.{plain, plain-IsLawful}

abbrev seconds : ℕ → Timestamp
seconds n = n * nanos_per_sec

abbrev desktop : SessionInfo
desktop = record {
  id = codes "kid-1";
  uid = 1000;
  user = codes "kid";
  active = true;
  locked = false;
  class = codes "user";
  kind = codes "wayland";
  remote = false;
}

abbrev rules : LockAction → Policy
rules action = record (permissive (codes "kid")) { enforcement = true; on_exhausted = action }

abbrev denied_at : LockAction → ℕ → Denied
denied_at action n = record {
  sessions = desktop ∷ [];
  policy = rules action;
  reason = daily_quota_exhausted;
  now = seconds n;
  written = true;
}

abbrev fresh_state : UserState plain
fresh_state = new_state plain (codes "kid") default_segment_config

abbrev in_grace_state : UserState plain
in_grace_state = record fresh_state { phase = grace (seconds 100) }

abbrev evening : LockAction → List Denied
evening action = denied_at action 105 ∷ denied_at action 110 ∷ []

evening-AllPresent :
    (action : LockAction) → AllPresent plain (denied_at action 100 ∷ evening action)
unfolding is_lockable
evening-AllPresent action = (refl, refl, (refl, refl, (refl, refl, tt)))

enforce_all-closings_example :
    count is_closing (enforce_all plain (denied_at lock 100 ∷ evening lock) fresh_state).1 ≡ 1
enforce_all-closings_example =
    enforce_all-closings plain (denied_at lock 100) (evening lock) fresh_state
      (evening-AllPresent lock)

abbrev unmanaged : Answers plain
unmanaged = record {
  policy = some (some (rules lock));
  segment_written = true;
  event_written = true;
  snapshot = none;
  report = none;
  disabled = false;
  member = some false;
  new_id = 1;
}

tick_hands_off_example :
    let o = tick_policy plain (desktop ∷ []) (seconds 100) unmanaged (rules lock) fresh_state in
    let tick =
      build_tick plain fresh_state
        (rules lock)
        (any is_creditable_desktop (desktop ∷ []))
        (seconds 100)
        unmanaged.report in
    let seen = observe plain unmanaged.new_id fresh_state.builder tick in
    (count is_intervention o.effects ≡ 0)
    × (o.state.phase ≡ running)
    × (o.state.builder ≡ seen.1)
    × (recorded o.effects
        ≡ written plain
            (desktop ∷ [])
            (seconds 100)
            unmanaged
            (rules lock)
            unmanaged.segment_written
            seen.0)
tick_hands_off_example =
    tick_hands_off plain (desktop ∷ []) (seconds 100) unmanaged (rules lock) fresh_state (inr refl)

tick-targets_example :
    all
      (targets_lockable (desktop ∷ []))
      (tick_policy plain (desktop ∷ []) (seconds 100) unmanaged (rules lock) fresh_state).effects
    ≡ true
tick-targets_example =
    tick-targets plain (desktop ∷ []) (seconds 100) unmanaged (rules lock) fresh_state

abbrev left : ℕ → Allowance
left minutes = record {
  remaining = some (from_mins minutes);
  limited_by = daily_quota;
  expires_at = none;
  next_warning = none;
}

abbrev first_day : PolicyDay plain
first_day = day_of plain 0

abbrev away : Report
away = record {
  v = 1;
  focus = none;
  idle_secs = 120;
  locked = false;
  focus_tracking = true;
  request_minutes = none;
}

abbrev at_work_until : ℕ → UserState plain
at_work_until n = record fresh_state {
  last_tick = some (seconds n);
  builder = record {
    subject = codes "kid";
    config = default_segment_config;
    opened = some (record {
      id = 1;
      app = unknown_app;
      source = unknown;
      title = none;
      start = seconds 1000;
      last_seen = seconds n;
    });
  };
}

-- The child left at 1885, and the segment is recorded until 2000.
idle_ends_at_last_tick_example :
    map_option
      (λ (c : ClosedSegment). c.segment.end)
      (observe plain 2
        (at_work_until 2000).builder
        (build_tick plain (at_work_until 2000) (rules lock) true (seconds 2005) (some away))).0
    ≡ some (seconds 2000)
idle_ends_at_last_tick_example =
    idle_ends_at_last_tick plain plain-IsLawful (at_work_until 2000) (rules lock) (seconds 2005)
      (seconds 2000) (seconds 1885) away
      (record {
        id = 1;
        app = unknown_app;
        source = unknown;
        title = none;
        start = seconds 1000;
        last_seen = seconds 2000;
      })
      2 refl refl refl (omega arith) (omega arith) (omega arith) refl (omega arith)

abbrev brother : Answers plain
brother = record unmanaged { policy = none }
