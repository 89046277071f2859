-- ===== src/Usage/Invariant.antt =====
-- What holds of a segment builder between two observations, for every sequence of ticks.
use time_bandits.Base.{◌<◌, ◌≤◌, ◌≡◌, ◌⊎◌, refl, Option, none, some, arith}
use time_bandits.Jiff.{Jiff, secs_until}
use time_bandits.Duration.{as_secs}
use time_bandits.Usage.{
  Uuid, SegmentBuilder, OpenSegment, SegmentConfig, Tick, active, idle, close, close_and_start,
  observe, observe_with,
}

-- A segment has seen its last tick at or after its start, and is shorter than the maximum.
pub record IsSound (cfg : SegmentConfig) (o : OpenSegment) : Type 0 where
  pub ordered : o.start ≤ o.last_seen
  pub short : (o.last_seen ≡ o.start) ⊎ (secs_until o.start o.last_seen < as_secs cfg.max_segment)

abbrev pub IsValid : SegmentBuilder → Type 0
IsValid b = (o : OpenSegment) → b.opened ≡ some o → IsSound b.config o

module _ (j : Jiff) where
  observe_with-IsValid :
      (id : Uuid) (b : SegmentBuilder) (o? : Option OpenSegment) (tick : Tick)
      → b.opened ≡ o?
      → IsValid b
      → IsValid (observe_with j id b o? tick).1
  unfolding observe_with close close_and_start
  observe_with-IsValid id b none (active t app title) e h o p = ground arith
  observe_with-IsValid id b none (idle t) e h o p = ground arith
  observe_with-IsValid id b (some x) (idle t) e h o p = let v = h x e in ground arith
  observe_with-IsValid id b (some x) (active t app title) e h o p = let v = h x e in ground arith

  -- Every tick, in whatever order ticks come, leaves a valid builder.
  pub observe-IsValid :
      (id : Uuid) (b : SegmentBuilder) (tick : Tick) → IsValid b → IsValid (observe j id b tick).1
  unfolding observe
  observe-IsValid id b tick = observe_with-IsValid id b b.opened tick refl
