-- ===== src/Usage/Conservation.antt =====
-- No time is lost between an application and the next: the recorded segments of a steady stream of
-- ticks add up to the time that passed.
use time_bandits.Base.{
  ℕ, ◌+◌, ◌-◌, ◌<◌, ◌≤◌, ◌≡◌, refl, sym, subst, Bool, Text, if_elim, ltb, leb, true, false, Option,
  none, some, Option-cases, inl, inr, List, [], ◌∷◌, is_some, arith,
}
use time_bandits.Jiff.{Jiff, Timestamp, secs_until}
use time_bandits.Duration.{as_secs}
use time_bandits.Usage.{
  Uuid, SegmentConfig, new_builder, start_if_active, SegmentBuilder, OpenSegment, ClosedSegment,
  Tick, active, idle, tick_at, closing_end, observe, observe_with, observe_open, extend, flush,
  close, close_and_start, CloseReason, app_changed, max_length,
}
use time_bandits.Usage.Invariant.{IsValid, observe-IsValid}
use time_bandits.AppId.{AppObservation}

-- What a step has recorded, in nanoseconds.
abbrev pub recorded : Option ClosedSegment → ℕ
recorded none = 0
recorded (some c) = c.segment.end - c.segment.start

abbrev pub is_active : Tick → Bool
is_active (active _ _ _) = true
is_active (idle _) = false

-- Active ticks, each later than the one before it and within the gap.
abbrev pub Steady : ℕ → Timestamp → List (Uuid × Tick) → Type 0
Steady max_gap last [] = Unit
Steady max_gap last ((id, tick) ∷ rest) =
    (is_active tick ≡ true)
    × (last < tick_at tick)
    × (secs_until last (tick_at tick) ≤ max_gap)
    × Steady max_gap (tick_at tick) rest

-- When the last tick came.
abbrev pub last_at : Timestamp → List (Uuid × Tick) → Timestamp
last_at last [] = last
last_at last ((id, tick) ∷ rest) = last_at (tick_at tick) rest

module _ (j : Jiff) where
  -- The ticks of a list one after another, and a last `flush`: the time recorded by all of them.
  unfoldable pub recorded_by : SegmentBuilder → List (Uuid × Tick) → Timestamp → ℕ
  recorded_by b [] at = recorded (flush j b at).0
  recorded_by b ((id, tick) ∷ rest) at =
      let (c, b') = observe j id b tick in recorded c + recorded_by b' rest at

  -- After a tick within the gap a segment is open that has seen it, and what was recorded is what
  -- the start moved on.
  record Advances (b : SegmentBuilder) (o : OpenSegment) (now : Timestamp)
      (r : Option ClosedSegment × SegmentBuilder) : Type 0 where
    same_config : r.1.config ≡ b.config
    is_open : is_some r.1.opened ≡ true
    seen : (x : OpenSegment) → r.1.opened ≡ some x → x.last_seen ≡ now
    moved : (x : OpenSegment) → r.1.opened ≡ some x → o.start + recorded r.0 ≡ x.start

  close_and_start-Advances :
      (id : Uuid) (b : SegmentBuilder) (o : OpenSegment) (reason : CloseReason) (t : Timestamp)
      (app : AppObservation) (title : Option Text)
      → b.opened ≡ some o
      → o.start ≤ o.last_seen
      → o.last_seen < t
      → Advances b o t (close_and_start j id b reason (some t) (active t app title))
  unfolding close_and_start close closing_end
  close_and_start-Advances id b o reason t app title e v l = record {
    same_config = ground arith;
    is_open = ground arith;
    seen = λ x p. ground arith;
    moved = λ x p. ground arith;
  }

  extend-Advances :
      (b : SegmentBuilder) (o : OpenSegment) (t : Timestamp) (app : AppObservation)
      (title : Option Text)
      → Advances b o t (none, extend b o t app title)
  extend-Advances b o t app title = record {
    same_config = refl;
    is_open = refl;
    seen = λ x p. ground arith;
    moved = λ x p. ground arith;
  }

  observe_open-Advances :
      (id : Uuid) (b : SegmentBuilder) (o : OpenSegment) (t : Timestamp) (app : AppObservation)
      (title : Option Text)
      → b.opened ≡ some o
      → o.start ≤ o.last_seen
      → o.last_seen < t
      → Advances b o t (observe_open j id b o (active t app title))
  unfolding observe_open
  observe_open-Advances id b o t app title e v l =
      if_elim (Advances b o t) _ _ _
        (λ _. close_and_start-Advances id b o app_changed t app title e v l)
        (λ _.
          if_elim (Advances b o t) (leb (as_secs b.config.max_segment) (secs_until o.start t)) _ _
            (λ _. close_and_start-Advances id b o max_length t app title e v l)
            (λ _. extend-Advances b o t app title))

  observe_with-Advances :
      (id : Uuid) (b : SegmentBuilder) (o : OpenSegment) (tick : Tick)
      → b.opened ≡ some o
      → o.start ≤ o.last_seen
      → is_active tick ≡ true
      → o.last_seen < tick_at tick
      → secs_until o.last_seen (tick_at tick) ≤ as_secs b.config.max_gap
      → Advances b o (tick_at tick) (observe_with j id b (some o) tick)
  unfolding observe_with
  observe_with-Advances id b o (idle t) e v a l g = absurd (ground arith)
  observe_with-Advances id b o (active t app title) e v a l g =
      if_elim (Advances b o t) (ltb t o.last_seen) _ _ (λ late. absurd (ground arith))
        (λ _.
          if_elim (Advances b o t) (ltb (as_secs b.config.max_gap) (secs_until o.last_seen t)) _ _
            (λ far. absurd (ground arith)) (λ _. observe_open-Advances id b o t app title e v l))

  observe-Advances :
      (id : Uuid) (b : SegmentBuilder) (o : OpenSegment) (tick : Tick)
      → b.opened ≡ some o
      → o.start ≤ o.last_seen
      → is_active tick ≡ true
      → o.last_seen < tick_at tick
      → secs_until o.last_seen (tick_at tick) ≤ as_secs b.config.max_gap
      → Advances b o (tick_at tick) (observe j id b tick)
  unfolding observe
  observe-Advances id b o tick e v a l g =
      subst (λ x. Advances b o (tick_at tick) (observe_with j id b x tick)) (sym e)
        (observe_with-Advances id b o tick e v a l g)

  recorded-flush :
      (b : SegmentBuilder) (o : OpenSegment) (at : Timestamp)
      → b.opened ≡ some o
      → o.start ≤ o.last_seen
      → o.last_seen < at
      → secs_until o.last_seen at ≤ as_secs b.config.max_gap
      → o.start + recorded (flush j b at).0 ≡ at
  unfolding flush closing_end
  recorded-flush b o at e v l g = ground arith

  recorded_by-eq :
      (ticks : List (Uuid × Tick)) (b : SegmentBuilder) (o : OpenSegment) (at : Timestamp)
      → IsValid b
      → b.opened ≡ some o
      → Steady (as_secs b.config.max_gap) o.last_seen ticks
      → last_at o.last_seen ticks < at
      → secs_until (last_at o.last_seen ticks) at ≤ as_secs b.config.max_gap
      → o.start + recorded_by b ticks at ≡ at
  unfolding recorded_by
  recorded_by-eq [] b o at v e s l g = recorded-flush b o at e (v o e).ordered l g
  recorded_by-eq ((id, tick) ∷ rest) b o at v e s l g =
      let b' = (observe j id b tick).1 in
      let adv = observe-Advances id b o tick e (v o e).ordered s.0 s.1 s.2 in
      elim (Option-cases b'.opened) [
        | inl n ↦ absurd (ground arith)
        | inr (x, q) ↦ omega (
          arith,
          adv.moved x q,
          recorded_by-eq rest b' x at (observe-IsValid j id b tick v) q
              (rw (adv.same_config, adv.seen x q) s.3) (rw (adv.seen x q) l)
              (rw (adv.same_config, adv.seen x q) g),
        )
      ]

  -- From a new builder: if the first tick is active, every later tick is active, later than the one
  -- before it and within the gap, and the flush comes after the last tick and within the gap, then
  -- the recorded segments add up to exactly the time from the first tick to the flush, whatever
  -- applications the ticks name and however long the stream is.
  pub no_time_lost :
      (subject : Text) (cfg : SegmentConfig) (id : Uuid) (first : Timestamp) (app : AppObservation)
      (title : Option Text) (ticks : List (Uuid × Tick)) (at : Timestamp)
      → Steady (as_secs cfg.max_gap) first ticks
      → last_at first ticks < at
      → secs_until (last_at first ticks) at ≤ as_secs cfg.max_gap
      → first + recorded_by (new_builder subject cfg) ((id, active first app title) ∷ ticks) at ≡ at
  unfolding recorded_by observe observe_with
  no_time_lost subject cfg id first app title ticks at s l g =
      let b = start_if_active id (new_builder subject cfg) (active first app title) in
      let o : OpenSegment = record {
        id = id;
        app = app.app;
        source = app.source;
        title = title;
        start = first;
        last_seen = first;
      } in
      omega (arith, recorded_by-eq ticks b o at (λ x p. ground arith) refl s l g)
