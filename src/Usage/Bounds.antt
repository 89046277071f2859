-- ===== src/Usage/Bounds.antt =====
-- What a recorded segment says, and how long it can be.
use time_bandits.Base.{
  ◌+◌, ◌*◌, ◌^◌, ◌<◌, ◌≤◌, ◌≡◌, ◌⊎◌, subst, Option, none, some, Option-cases, inl, inr, arith,
}
use time_bandits.Jiff.{Jiff, IsLawful, Timestamp, secs_until, nanos_per_sec}
use time_bandits.Duration.{as_secs}
use time_bandits.Usage.{
  Uuid, SegmentBuilder, OpenSegment, SegmentConfig, ClosedSegment, Tick, active, idle, tick_at,
  closing_end, end_or_last, close, close_and_start, CloseReason, clock_went_backwards, gap,
  became_idle, app_changed, max_length, observe, observe_with, flush,
}
use time_bandits.Usage.Invariant.{IsSound, IsValid}

-- The segment that an open one becomes when an event at `now` closes it.
pub record Records (b : SegmentBuilder) (o : OpenSegment) (now : Timestamp) (c : ClosedSegment)
    : Type 0 where
  pub same_id : c.segment.id ≡ o.id
  pub same_subject : c.segment.subject ≡ b.subject
  pub same_app : c.segment.app ≡ o.app
  pub same_source : c.segment.source ≡ o.source
  pub same_start : c.segment.start ≡ o.start
  pub not_empty : c.segment.start < c.segment.end
  pub covers_ticks : o.last_seen ≤ c.segment.end
  -- It ends at its last tick, at the event if that came within the gap, or lasts one tick.
  pub ends :
      (c.segment.end ≡ o.last_seen)
      ⊎ ((c.segment.end ≡ now) × (secs_until o.last_seen now ≤ as_secs b.config.max_gap))
      ⊎ ((o.last_seen ≡ o.start)
          × (c.segment.end ≡ o.start + as_secs b.config.tick_interval * nanos_per_sec))

Records-short :
    (b : SegmentBuilder) (o : OpenSegment) (now : Timestamp) (c : ClosedSegment)
    → as_secs b.config.tick_interval ≤ as_secs b.config.max_gap
    → IsSound b.config o
    → Records b o now c
    → c.segment.end
      < c.segment.start
        + (as_secs b.config.max_segment + as_secs b.config.max_gap + 1) * nanos_per_sec
Records-short b o now c h v r = ground arith

module _ (j : Jiff) (lawful : IsLawful j) where
  closing_end_cases :
      (cfg : SegmentConfig) (o : OpenSegment) (end_at : Option Timestamp)
      → as_secs cfg.tick_interval < 2 ^ 63
      → (closing_end j cfg o end_at ≡ o.start)
        ⊎ (end_or_last o end_at ≤ o.start)
          × (closing_end j cfg o end_at ≡ o.start + as_secs cfg.tick_interval * nanos_per_sec)
        ⊎ (o.start < closing_end j cfg o end_at)
          × (closing_end j cfg o end_at ≡ end_or_last o end_at)
  unfolding closing_end
  closing_end_cases cfg o end_at h =
      elim (Option-cases (j.add_secs o.start (as_secs cfg.tick_interval))) [
        | inl e ↦ ground arith
        | inr (u, e) ↦ ground (arith, lawful.add_secs_exact o.start (as_secs cfg.tick_interval) u)
      ]

  close-Records :
      (b : SegmentBuilder) (o : OpenSegment) (reason : CloseReason) (end_at : Option Timestamp)
      (now : Timestamp) (c : ClosedSegment)
      → as_secs b.config.tick_interval < 2 ^ 63
      → b.opened ≡ some o
      → IsSound b.config o
      → (end_at ≡ none)
        ⊎ (end_at ≡ some now) × (secs_until o.last_seen now ≤ as_secs b.config.max_gap)
      → (close j b reason end_at).0 ≡ some c
      → Records b o now c
  unfolding close
  close-Records b o reason end_at now c h e v w p =
      ground (arith, closing_end_cases b.config o end_at h)

  close_and_start-Records :
      (id : Uuid) (b : SegmentBuilder) (o : OpenSegment) (reason : CloseReason)
      (end_at : Option Timestamp) (tick : Tick) (c : ClosedSegment)
      → as_secs b.config.tick_interval < 2 ^ 63
      → b.opened ≡ some o
      → IsSound b.config o
      → (end_at ≡ none)
        ⊎ (end_at ≡ some (tick_at tick))
          × (secs_until o.last_seen (tick_at tick) ≤ as_secs b.config.max_gap)
      → (close_and_start j id b reason end_at tick).0 ≡ some c
      → Records b o (tick_at tick) c
  unfolding close_and_start
  close_and_start-Records id b o reason end_at tick c h e v w p =
      close-Records b o reason end_at (tick_at tick) c h e v w p

  observe_with-Records :
      (id : Uuid) (b : SegmentBuilder) (o : OpenSegment) (tick : Tick) (c : ClosedSegment)
      → as_secs b.config.tick_interval < 2 ^ 63
      → b.opened ≡ some o
      → IsSound b.config o
      → (observe_with j id b (some o) tick).0 ≡ some c
      → Records b o (tick_at tick) c
  unfolding observe_with
  observe_with-Records id b o (idle t) c h e v p = ground (
    arith,
    close_and_start-Records id b o clock_went_backwards none (idle t) c,
    close_and_start-Records id b o gap none (idle t) c,
    close-Records b o became_idle (some t) t c,
  )
  observe_with-Records id b o (active t app title) c h e v p =
      let tick = active t app title in
      ground (
        arith,
        close_and_start-Records id b o clock_went_backwards none tick c,
        close_and_start-Records id b o gap none tick c,
        close_and_start-Records id b o app_changed (some t) tick c,
        close_and_start-Records id b o max_length (some t) tick c,
      )

  -- A segment that `observe` records has the identifier, subject, application, source and start of
  -- the open one, is not empty, covers its ticks, and ends at the last tick, at an event within the
  -- gap, or after one tick interval if it had a single tick.
  pub observe-Records :
      (id : Uuid) (b : SegmentBuilder) (o : OpenSegment) (tick : Tick) (c : ClosedSegment)
      → as_secs b.config.tick_interval < 2 ^ 63
      → IsValid b
      → b.opened ≡ some o
      → (observe j id b tick).0 ≡ some c
      → Records b o (tick_at tick) c
  unfolding observe
  observe-Records id b o tick c h v e p =
      observe_with-Records id b o tick c h e (v o e)
        (subst (λ x. (observe_with j id b x tick).0 ≡ some c) e p)

  -- The same of the segment that `flush` records.
  pub flush-Records :
      (b : SegmentBuilder) (o : OpenSegment) (at : Timestamp) (c : ClosedSegment)
      → as_secs b.config.tick_interval < 2 ^ 63
      → IsValid b
      → b.opened ≡ some o
      → (flush j b at).0 ≡ some c
      → Records b o at c
  unfolding flush
  flush-Records b o at c h v e p =
      ground
        (arith, v o, closing_end_cases b.config o none h, closing_end_cases b.config o (some at) h)

  -- If the tick interval fits in the gap, every segment that `observe` or `flush` records, whatever
  -- ticks came before, is shorter than the longest segment, the gap and a second together.
  pub recorded_short :
      (id : Uuid) (b : SegmentBuilder) (o : OpenSegment) (tick : Tick) (at : Timestamp)
      (c : ClosedSegment)
      → as_secs b.config.tick_interval < 2 ^ 63
      → as_secs b.config.tick_interval ≤ as_secs b.config.max_gap
      → IsValid b
      → b.opened ≡ some o
      → ((observe j id b tick).0 ≡ some c) ⊎ ((flush j b at).0 ≡ some c)
      → c.segment.end
        < c.segment.start
          + (as_secs b.config.max_segment + as_secs b.config.max_gap + 1) * nanos_per_sec
  recorded_short id b o tick at c h g v e (inl p) =
      Records-short b o (tick_at tick) c g (v o e) (observe-Records id b o tick c h v e p)
  recorded_short id b o tick at c h g v e (inr p) =
      Records-short b o at c g (v o e) (flush-Records b o at c h v e p)
