-- ===== src/Tests/Usage.antt =====
-- Segments of a short afternoon.
use time_bandits.Base.{ℕ, ◌+◌, ◌*◌, ◌≡◌, refl, none, some, List, [], ◌∷◌, codes, true, Bool, arith}
use time_bandits.Jiff.{nanos_per_sec}
use time_bandits.AppId.{AppId, AppObservation, window_class}
use time_bandits.Usage.{
  Uuid, SegmentBuilder, OpenSegment, ClosedSegment, UsageSegment, Tick, active, idle, became_idle,
  observe, close, closing_end, new_builder, default_segment_config,
}
use time_bandits.Usage.Invariant.{IsValid}
use time_bandits.Usage.Conservation.{recorded_by, no_time_lost}
use time_bandits.Tests.{plain}

abbrev seconds : ℕ → ℕ
seconds n = n * nanos_per_sec

abbrev browser : AppObservation
browser = record { app = codes "firefox"; source = window_class }

abbrev game : AppObservation
game = record { app = codes "supertux"; source = window_class }

abbrev opened_at_100 : OpenSegment
opened_at_100 = record {
  id = 1;
  app = codes "firefox";
  source = window_class;
  title = none;
  start = seconds 100;
  last_seen = seconds 110;
}

abbrev builder : SegmentBuilder
builder = record {
  subject = codes "kid";
  config = default_segment_config;
  opened = some opened_at_100;
}

builder-IsValid : IsValid builder
builder-IsValid o e = ground arith

abbrev ten_seconds : ClosedSegment
ten_seconds = record {
  segment = record {
    id = 1;
    subject = codes "kid";
    app = codes "firefox";
    source = window_class;
    start = seconds 100;
    end = seconds 115;
    title = none;
  };
  reason = became_idle;
}

observe-idle : (observe plain 2 builder (idle (seconds 115))).0 ≡ some ten_seconds
unfolding observe close closing_end
observe-idle = refl

-- The browser, the game and the browser again, 15 seconds in all.
abbrev afternoon : List (Uuid × Tick)
afternoon = (2, active (seconds 105) game none) ∷ (3, active (seconds 110) browser none) ∷ []

no_time_lost_example :
    seconds 100
      + recorded_by plain
          (new_builder (codes "kid") default_segment_config)
          ((1, active (seconds 100) browser none) ∷ afternoon)
          (seconds 115)
    ≡ seconds 115
no_time_lost_example =
    no_time_lost plain (codes "kid") default_segment_config 1 (seconds 100) browser none afternoon
      (seconds 115) (refl, omega arith, omega arith, (refl, omega arith, omega arith, tt))
      (omega arith) (omega arith)

abbrev every_app : AppId → Bool
every_app _ = true

abbrev two_segments : List UsageSegment
two_segments = ten_seconds.segment ∷ ten_seconds.segment ∷ []
