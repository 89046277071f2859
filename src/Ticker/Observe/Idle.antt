-- ===== src/Ticker/Observe/Idle.antt =====
-- When an observation is placed, and where inactivity ends a segment.
use time_bandits.Base.{
  ℕ, ◌^◌, ◌≤◌, ◌<◌, ◌≡◌, subst, sym, Bool, true, false, Option, none, some, ltb, if◌then◌else◌,
  map_option, arith, Option-cases, inl, inr,
}
use time_bandits.Jiff.{Jiff, IsLawful, Timestamp}
use time_bandits.Duration.{as_secs}
use time_bandits.Policy.{Policy}
use time_bandits.Usage.{
  OpenSegment, ClosedSegment, SegmentBuilder, idle, tick_at, observe, observe_with, observe_open,
  close, closing_end,
}
use time_bandits.Agent.{Report}
use time_bandits.Ticker.State.{UserState}
use time_bandits.Ticker.Observe.{idle_start, build_tick}

module _ (j : Jiff) (lawful : IsLawful j) where
  began-le : (now : Timestamp) (s : ℕ) (u : Timestamp) → j.sub_secs now s ≡ some u → u ≤ now
  began-le now s u e = omega (arith, lawful.sub_secs_exact now s u e)

  idle_start_bounds :
      (state : UserState j) (now last : Timestamp) (r : Report)
      → state.last_tick ≡ some last
      → last ≤ now
      → (last ≤ idle_start j state now r) × (idle_start j state now r ≤ now)
  idle_start_bounds state now last r e l =
      let secs = if ltb r.idle_secs (2 ^ 63) then r.idle_secs else 0 in
      elim (Option-cases (j.sub_secs now secs)) [
        | inl q ↦ ground arith
        | inr (u, q) ↦ ground (arith, began-le now secs u q)
      ]

  -- Unless the clock runs backwards, an observation is placed between the last tick and the present,
  -- so backdated inactivity never looks like a clock that runs backwards.
  pub build_tick_bounds :
      (state : UserState j) (policy : Policy) (at_work : Bool) (now last : Timestamp)
      (report : Option Report)
      → state.last_tick ≡ some last
      → last ≤ now
      → (last ≤ tick_at (build_tick j state policy at_work now report))
        × (tick_at (build_tick j state policy at_work now report) ≤ now)
  unfolding build_tick
  build_tick_bounds state policy false now last report e l = (l, omega arith)
  build_tick_bounds state policy true now last none e l = (l, omega arith)
  build_tick_bounds state policy true now last (some r) e l =
      ground (arith, idle_start_bounds state now last r)

  backdated :
      (state : UserState j) (policy : Policy) (now last began : Timestamp) (r : Report)
      → state.last_tick ≡ some last
      → as_secs policy.idle_threshold ≤ r.idle_secs
      → r.idle_secs < 2 ^ 63
      → j.sub_secs now r.idle_secs ≡ some began
      → began ≤ last
      → build_tick j state policy true now (some r) ≡ idle last
  unfolding build_tick
  backdated state policy now last began r e i small q l = ground arith

  idle_closes :
      (id : ℕ) (b : SegmentBuilder) (o : OpenSegment)
      → b.opened ≡ some o
      → o.start < o.last_seen
      → map_option
          (λ (c : ClosedSegment). c.segment.end)
          (observe_with j id b (some o) (idle o.last_seen)).0
        ≡ some o.last_seen
  unfolding observe_with observe_open close closing_end
  idle_closes id b o e l = ground arith

  -- If the child's segment was open at the last tick and the inactivity that the agent reports began
  -- at or before that tick, the segment is recorded up to the last tick, and not up to the moment at
  -- which the inactivity began.
  pub idle_ends_at_last_tick :
      (state : UserState j) (policy : Policy) (now last began : Timestamp) (r : Report)
      (o : OpenSegment) (id : ℕ)
      → state.last_tick ≡ some last
      → state.builder.opened ≡ some o
      → o.last_seen ≡ last
      → o.start < last
      → as_secs policy.idle_threshold ≤ r.idle_secs
      → r.idle_secs < 2 ^ 63
      → j.sub_secs now r.idle_secs ≡ some began
      → began ≤ last
      → map_option
          (λ (c : ClosedSegment). c.segment.end)
          (observe j id state.builder (build_tick j state policy true now (some r))).0
        ≡ some last
  unfolding observe
  idle_ends_at_last_tick state policy now last began r o id e opened seen begins i small q l =
      rw (backdated state policy now last began r e i small q l) (
        subst
          (λ x.
            map_option (λ (c : ClosedSegment). c.segment.end)
              (observe_with j id state.builder x (idle last)).0
            ≡ some last)
          (sym opened) (rw (← seen) (idle_closes id state.builder o opened (rw seen begins))))
