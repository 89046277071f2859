-- ===== src/Usage.antt =====
-- crates/tb-core/src/usage.rs: observations become usage segments (`SegmentBuilder`).
pub mod Invariant
pub mod Bounds
pub mod Conservation
pub mod Totals
use time_bandits.Base.{
  ℕ, ◌^◌, Bool, Option, none, some, Text, ◌=t◌, ltb, leb, if◌then◌else◌, unwrap_or, not,
}
use time_bandits.Jiff.{Jiff, Timestamp, secs_until}
use time_bandits.Duration.{DurationSpec, as_secs, from_secs}
use time_bandits.AppId.{AppId, AppIdSource, AppObservation, source_rank}

-- The 128 bits of an identifier as a number.
abbrev pub Uuid : Type 0
Uuid = ℕ

pub record UsageSegment : Type 0 where
  pub id : Uuid
  pub subject : Text
  pub app : AppId
  pub source : AppIdSource
  pub start : Timestamp
  pub end : Timestamp
  pub title : Option Text

-- `UsageSegment::duration`.
abbrev pub duration : UsageSegment → DurationSpec
duration s = from_secs (secs_until s.start s.end)

abbrev pub is_empty : UsageSegment → Bool
is_empty s = leb s.end s.start

pub data Tick : Type 0 where
  active : Timestamp → AppObservation → Option Text → Tick
  idle : Timestamp → Tick

-- `Tick::at`.
abbrev pub tick_at : Tick → Timestamp
tick_at (active t _ _) = t
tick_at (idle t) = t

pub record SegmentConfig : Type 0 where
  pub tick_interval : DurationSpec
  pub max_gap : DurationSpec
  pub max_segment : DurationSpec

abbrev pub default_segment_config : SegmentConfig
default_segment_config = record {
  tick_interval = from_secs 5;
  max_gap = from_secs 30;
  max_segment = from_secs 900;
}

pub data CloseReason : Type 0 where
  app_changed became_idle gap clock_went_backwards max_length flushed : CloseReason

pub record ClosedSegment : Type 0 where
  pub segment : UsageSegment
  pub reason : CloseReason

pub record OpenSegment : Type 0 where
  pub id : Uuid
  pub app : AppId
  pub source : AppIdSource
  pub title : Option Text
  pub start : Timestamp
  pub last_seen : Timestamp

-- The field `open` of the source is `opened` here.
pub record SegmentBuilder : Type 0 where
  pub subject : Text
  pub config : SegmentConfig
  pub opened : Option OpenSegment

-- `SegmentBuilder::new`.
abbrev pub new_builder : Text → SegmentConfig → SegmentBuilder
new_builder subject config = record { subject = subject; config = config; opened = none }

-- A new segment takes the identifier that `Uuid::now_v7` hands out, `new_id`.
unfoldable pub start_if_active : Uuid → SegmentBuilder → Tick → SegmentBuilder
start_if_active new_id b (active t app title) = record b {
  opened = some (record {
    id = new_id;
    app = app.app;
    source = app.source;
    title = title;
    start = t;
    last_seen = t;
  });
}
start_if_active new_id b (idle t) = b

-- `end_at` where it lies after the last tick of the segment, and else that tick.
abbrev pub end_or_last : OpenSegment → Option Timestamp → Timestamp
end_or_last o none = o.last_seen
end_or_last o (some t) = if ltb o.last_seen t then t else o.last_seen

abbrev pub closed_of : SegmentBuilder → CloseReason → OpenSegment → Timestamp → Option ClosedSegment
closed_of b reason o end =
    let segment : UsageSegment = record {
      id = o.id;
      subject = b.subject;
      app = o.app;
      source = o.source;
      start = o.start;
      end = end;
      title = o.title;
    } in
    if is_empty segment then none else some (record { segment = segment; reason = reason })

-- The same application is still focused.
abbrev pub extend :
    SegmentBuilder → OpenSegment → Timestamp → AppObservation → Option Text → SegmentBuilder
extend b o now app title = record b {
  opened = some (record o {
    source = if ltb (source_rank o.source) (source_rank app.source) then app.source else o.source;
    title = elim title [ none ↦ o.title | some t ↦ some t ];
    last_seen = now;
  });
}

module _ (j : Jiff) where
  -- A segment that would have no length gets that of one tick.
  unfoldable pub closing_end : SegmentConfig → OpenSegment → Option Timestamp → Timestamp
  closing_end cfg o end_at =
      let end = end_or_last o end_at in
      let secs = as_secs cfg.tick_interval in
      if leb end o.start
      then unwrap_or (j.add_secs o.start (if ltb secs (2 ^ 63) then secs else 1)) o.start
      else end

  unfoldable pub close :
      SegmentBuilder → CloseReason → Option Timestamp → Option ClosedSegment × SegmentBuilder
  close b reason end_at = elim b.opened [
    | none ↦ (none, b)
    | some o ↦ (closed_of b reason o (closing_end b.config o end_at), record b { opened = none })
  ]

  -- `let closed = self.close(…); self.start_if_active(tick); return closed;`
  unfoldable pub close_and_start :
      Uuid
      → SegmentBuilder
      → CloseReason
      → Option Timestamp
      → Tick
      → Option ClosedSegment × SegmentBuilder
  unfolding close start_if_active
  close_and_start new_id b reason end_at tick =
      let (closed, b') = close b reason end_at in (closed, start_if_active new_id b' tick)

  -- The `match` of `observe`, with a segment open.
  unfoldable pub observe_open :
      Uuid → SegmentBuilder → OpenSegment → Tick → Option ClosedSegment × SegmentBuilder
  observe_open new_id b o (idle t) = close b became_idle (some t)
  observe_open new_id b o (active t app title) =
      if not (o.app =t app.app)
      then close_and_start new_id b app_changed (some t) (active t app title)
      else if leb (as_secs b.config.max_segment) (secs_until o.start t)
      then close_and_start new_id b max_length (some t) (active t app title)
      else (none, extend b o t app title)

  -- `observe`, with what `self.open` holds.
  unfoldable pub observe_with :
      Uuid → SegmentBuilder → Option OpenSegment → Tick → Option ClosedSegment × SegmentBuilder
  unfolding start_if_active observe_open
  observe_with new_id b none tick = (none, start_if_active new_id b tick)
  observe_with new_id b (some o) tick =
      if ltb (tick_at tick) o.last_seen
      then close_and_start new_id b clock_went_backwards none tick
      else if ltb (as_secs b.config.max_gap) (secs_until o.last_seen (tick_at tick))
      then close_and_start new_id b gap none tick
      else observe_open new_id b o tick

  unfoldable pub observe : Uuid → SegmentBuilder → Tick → Option ClosedSegment × SegmentBuilder
  unfolding observe_with
  observe new_id b tick = observe_with new_id b b.opened tick

  unfoldable pub flush : SegmentBuilder → Timestamp → Option ClosedSegment × SegmentBuilder
  unfolding close
  flush b at = elim b.opened [
    | none ↦ close b flushed none
    | some o ↦
        close b flushed
          (if leb (secs_until o.last_seen at) (as_secs b.config.max_gap) then some at else none)
  ]
