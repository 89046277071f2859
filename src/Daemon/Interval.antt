-- ===== src/Daemon/Interval.antt =====
-- The interval between two rounds of the loop, and that of the segments it records.
use time_bandits.Base.{
  ℕ, ◌≤◌, ◌≡◌, ◌⊎◌, refl, Option, none, some, List, [], ◌∷◌, ◌+◌, arith, Option-cases, inl, inr,
  unwrap_or, if_elim, ltb, leb, Text,
}
use time_bandits.Jiff.{Jiff, IsLawful, Timestamp, secs_until}
use time_bandits.Duration.{as_secs, zero_duration}
use time_bandits.Usage.{
  CloseReason, Uuid, SegmentBuilder, OpenSegment, Tick, active, idle, tick_at, observe,
  observe_with, observe_open, ClosedSegment, extend, app_changed, max_length, became_idle, gap,
  clock_went_backwards, close, close_and_start, closing_end, start_if_active, new_builder,
}
use time_bandits.AppId.{AppObservation}
use time_bandits.Ticker.State.{ticker_config}
use time_bandits.Daemon.{round_interval}

-- A second or more after the moment before, or not after it.
abbrev pub IsApart : Timestamp → Timestamp → Type 0
IsApart last t = (t ≤ last) ⊎ (1 ≤ secs_until last t)

abbrev pub AreApart : Timestamp → List (Uuid × Tick) → Type 0
AreApart last [] = Unit
AreApart last ((id, tick) ∷ rest) = IsApart last (tick_at tick) × AreApart (tick_at tick) rest

module _ (j : Jiff) where
  -- How many segments the ticks of a list close.
  unfoldable pub closed_by : SegmentBuilder → List (Uuid × Tick) → ℕ
  closed_by b [] = 0
  closed_by b ((id, tick) ∷ rest) =
      let (c, b') = observe j id b tick in
      let later = closed_by b' rest in elim c [ none ↦ later | some _ ↦ 1 + later ]

module _ (j : Jiff) (lawful : IsLawful j) where
  -- A builder whose open segment has seen one tick.
  record IsBare (last : Timestamp) (b : SegmentBuilder) : Type 0 where
    no_interval : b.config ≡ ticker_config zero_duration
    seen_once : (o : OpenSegment) → b.opened ≡ some o → (o.start ≡ last) × (o.last_seen ≡ last)

  closing_end_bare :
      (o : OpenSegment) (at : Option Timestamp)
      → o.start ≡ o.last_seen
      → unwrap_or at o.start ≤ o.start
      → closing_end j (ticker_config zero_duration) o at ≡ o.start
  unfolding closing_end
  closing_end_bare o at e le = elim (Option-cases (j.add_secs o.start 0)) [
    | inl a ↦ ground arith
    | inr (u, a) ↦ let exact = lawful.add_secs_exact o.start 0 u a in ground arith
  ]

  record IsClosed (r : Option ClosedSegment × SegmentBuilder) : Type 0 where
    nothing_recorded : r.0 ≡ none
    no_interval_left : r.1.config ≡ ticker_config zero_duration
    nothing_open : r.1.opened ≡ none

  close_bare :
      (last : Timestamp) (b : SegmentBuilder) (reason : CloseReason) (at : Option Timestamp)
      → IsBare last b
      → unwrap_or at last ≤ last
      → IsClosed (close j b reason at)
  unfolding close
  close_bare last b reason at h le = elim (Option-cases b.opened) [
    | inl e ↦
        rw (e, close)
          (record { nothing_recorded = refl; no_interval_left = h.no_interval; nothing_open = e })
    | inr (o, e) ↦
        let (start, seen) = h.seen_once o e in
        let c = h.no_interval in
        let end = closing_end_bare o at (ground arith) (ground arith) in
        record {
          nothing_recorded = ground arith;
          no_interval_left = ground arith;
          nothing_open = ground arith;
        }
  ]

  -- The tick records nothing and leaves such a builder.
  abbrev StaysBare : Timestamp → Option ClosedSegment × SegmentBuilder → Type 0
  StaysBare t r = (r.0 ≡ none) × IsBare t r.1

  start_if_active-IsBare :
      (id : Uuid) (b : SegmentBuilder) (tick : Tick)
      → b.config ≡ ticker_config zero_duration
      → b.opened ≡ none
      → IsBare (tick_at tick) (start_if_active id b tick)
  unfolding start_if_active
  start_if_active-IsBare id b (active t app title) c e = record {
    no_interval = c;
    seen_once = λ o p. (ground arith, ground arith);
  }
  start_if_active-IsBare id b (idle t) c e = record {
    no_interval = c;
    seen_once = λ o p. (ground arith, ground arith);
  }

  close_and_start_bare :
      (last : Timestamp) (id : Uuid) (b : SegmentBuilder) (reason : CloseReason)
      (at : Option Timestamp) (tick : Tick)
      → IsBare last b
      → unwrap_or at last ≤ last
      → StaysBare (tick_at tick) (close_and_start j id b reason at tick)
  unfolding close_and_start
  close_and_start_bare last id b reason at tick h le =
      let closed = close_bare last b reason at h le in
      (
        closed.nothing_recorded,
        start_if_active-IsBare id (close j b reason at).1 tick closed.no_interval_left
            closed.nothing_open,
      )

  extend-IsBare :
      (last : Timestamp) (b : SegmentBuilder) (o : OpenSegment) (t : Timestamp)
      (app : AppObservation) (title : Option Text)
      → IsBare last b
      → b.opened ≡ some o
      → t ≡ last
      → IsBare t (extend b o t app title)
  extend-IsBare last b o t app title h e same =
      let (start, seen) = h.seen_once o e in
      record { no_interval = h.no_interval; seen_once = λ x p. (ground arith, ground arith) }

  observe_open_bare :
      (last : Timestamp) (id : Uuid) (b : SegmentBuilder) (o : OpenSegment) (tick : Tick)
      → IsBare last b
      → b.opened ≡ some o
      → tick_at tick ≡ last
      → StaysBare (tick_at tick) (observe_open j id b o tick)
  unfolding observe_open
  observe_open_bare last id b o (idle t) h e same =
      let closed = close_bare last b became_idle (some t) h (omega arith) in
      (
        closed.nothing_recorded,
        record {
          no_interval = closed.no_interval_left;
          seen_once = λ x p. let none_open = closed.nothing_open in (ground arith, ground arith);
        },
      )
  observe_open_bare last id b o (active t app title) h e same =
      if_elim (StaysBare t) _ _ _
        (λ _.
          close_and_start_bare last id b app_changed (some t) (active t app title) h (omega arith))
        (λ _.
          if_elim (StaysBare t) (leb (as_secs b.config.max_segment) (secs_until o.start t)) _ _
            (λ _.
              close_and_start_bare last id b max_length (some t) (active t app title) h
                (omega arith))
            (λ _. (refl, extend-IsBare last b o t app title h e same)))

  observe_bare :
      (last : Timestamp) (id : Uuid) (b : SegmentBuilder) (tick : Tick)
      → IsBare last b
      → IsApart last (tick_at tick)
      → StaysBare (tick_at tick) (observe j id b tick)
  unfolding observe observe_with
  observe_bare last id b tick h apart = elim (Option-cases b.opened) [
    | inl e ↦ rw (e, observe, observe_with) (refl, start_if_active-IsBare id b tick h.no_interval e)
    | inr (o, e) ↦
        let (start, seen) = h.seen_once o e in
        let c = h.no_interval in
        rw (e, observe, observe_with)
          (if_elim (StaysBare (tick_at tick)) (ltb (tick_at tick) o.last_seen) _ _
            (λ _. close_and_start_bare last id b clock_went_backwards none tick h (omega arith))
            (λ late.
              if_elim (StaysBare (tick_at tick))
                (ltb (as_secs b.config.max_gap) (secs_until o.last_seen (tick_at tick))) _ _
                (λ _. close_and_start_bare last id b gap none tick h (omega arith))
                (λ near. observe_open_bare last id b o tick h e (ground arith))))
  ]

  closed_by_bare :
      (ticks : List (Uuid × Tick)) (last : Timestamp) (b : SegmentBuilder)
      → IsBare last b
      → AreApart last ticks
      → closed_by j b ticks ≡ 0
  unfolding closed_by
  closed_by_bare [] last b h a = refl
  closed_by_bare ((id, tick) ∷ rest) last b h a =
      let (closed, bare) = observe_bare last id b tick h a.0 in
      let later = closed_by_bare rest (tick_at tick) (observe j id b tick).1 bare a.1 in
      ground arith

  -- With a tick interval of zero in the configuration the rounds are a second apart, and from a new
  -- builder, however many ticks follow, each a second or more after the one before or not after it,
  -- not one of them closes a segment that is kept, whatever the child does.
  pub no_interval_no_tick_records :
      (subject : Text) (start : Timestamp) (ticks : List (Uuid × Tick))
      → AreApart start ticks
      → (as_secs (round_interval zero_duration) ≡ 1)
        × (closed_by j (new_builder subject (ticker_config zero_duration)) ticks ≡ 0)
  no_interval_no_tick_records subject start ticks a = (
    refl,
    closed_by_bare ticks start _ (record { no_interval = refl; seen_once = λ o p. ground arith }) a,
  )
