-- ===== src/Store/Queries.antt =====
-- crates/tb-daemon/src/store.rs: the queries of events and of whole segments.
use time_bandits.Base.{
  ℕ, ◌*◌, Bool, ◌&&◌, Option, none, some, List, [], ◌∷◌, map, Text, leb, ◌=t◌, keep, length,
  sort_by, max, map_option,
}
use time_bandits.Jiff.{Timestamp, nanos_per_sec}
use time_bandits.AppId.{new_app}
use time_bandits.Usage.{UsageSegment}
use time_bandits.Ticker.State.{
  EventKind, locked, access_denied, tamper, clock_jump, bonus_granted, more_time_requested,
}
use time_bandits.Store.Tables.{SegmentRow, EventRow, Tables, as_second, overlaps}

-- The text of a kind, as a number: kinds are told apart by it.
abbrev pub kind_code : EventKind → ℕ
kind_code locked = 0
kind_code access_denied = 1
kind_code tamper = 2
kind_code clock_jump = 3
kind_code bonus_granted = 4
kind_code more_time_requested = 5

abbrev pub is_event_of : Text → EventKind → EventRow → Bool
is_event_of subject kind r =
    r.subject =t subject
    && leb (kind_code r.kind) (kind_code kind)
    && leb (kind_code kind) (kind_code r.kind)

-- The seconds of the events that a query reads.
abbrev pub times_of : Text → EventKind → List EventRow → List ℕ
times_of subject kind events = map (λ (r : EventRow). r.at) (keep (is_event_of subject kind) events)

-- `MAX(at)`, which is null without rows.
unfoldable pub latest : List ℕ → Option ℕ
latest [] = none
latest (t ∷ ts) = elim (latest ts) [ none ↦ some t | some m ↦ some (max t m) ]

-- `from_second`.
abbrev pub from_second : ℕ → Timestamp
from_second t = t * nanos_per_sec

unfoldable pub last_event_at : Tables → Text → EventKind → Option Timestamp
unfolding latest
last_event_at tables subject kind =
    map_option from_second (latest (times_of subject kind tables.events))

unfoldable pub event_count : Tables → Text → EventKind → ℕ
event_count tables subject kind = length (times_of subject kind tables.events)

-- A row as a segment again; its application is normalised once more.
abbrev pub segment_of_row : SegmentRow → UsageSegment
segment_of_row r = record {
  id = r.id;
  subject = r.subject;
  app = new_app r.app;
  source = r.source;
  start = from_second r.start_ts;
  end = from_second r.end_ts;
  title = r.title;
}

-- `ORDER BY start_ts DESC`.
abbrev pub later_first : SegmentRow → SegmentRow → Bool
later_first a b = leb b.start_ts a.start_ts

unfoldable pub segments_between : Tables → Text → Timestamp → Timestamp → List UsageSegment
segments_between tables subject from to =
    map segment_of_row (
      sort_by later_first (keep (overlaps subject (as_second from) (as_second to)) tables.segments))
