-- ===== src/Store/Tables.antt =====
-- crates/tb-daemon/src/store.rs: the tables as lists of rows, in the order of insertion, and the
-- statements of the source on them. A moment is stored in whole seconds, which are counted here from
-- the first instant of jiff. Of what the database refuses, only a
-- sum of bonuses beyond an `i64` is modelled here.
use time_bandits.Base.{
  ℕ, ◌-◌, ◌/◌, Bool, false, ◌&&◌, Option, none, some, List, [], ◌∷◌, ◌++◌, map, Text, ltb, leb,
  ◌==◌, ◌=t◌, any, map_option, keep, sum, min, max, if◌then◌else◌, unwrap_or,
}
use time_bandits.Jiff.{Jiff, Timestamp, nanos_per_sec}
use time_bandits.Duration.{DurationSpec, as_secs, from_secs}
use time_bandits.AppId.{AppId, AppIdSource}
use time_bandits.Schedule.{PolicyDay, policy_day_end}
use time_bandits.Policy.{Policy}
use time_bandits.Engine.{UsageSnapshot, week_start, zone_of, policy_day_of}
use time_bandits.Usage.{Uuid, UsageSegment}
use time_bandits.Ticker.State.{EventKind, bonus_granted}

-- A row of `usage_segment`.
pub record SegmentRow : Type 0 where
  pub id : Uuid
  pub subject : Text
  pub app : AppId
  pub source : AppIdSource
  pub start_ts : ℕ
  pub end_ts : ℕ
  pub title : Option Text
  pub synced : Bool

-- A row of `bonus_grant`; a date is kept as its text.
pub record BonusRow : Type 0 where
  pub id : Uuid
  pub subject : Text
  pub policy_date : Text
  pub seconds : ℕ
  pub granted_by : Text
  pub granted_at : ℕ

-- A row of `event`, without the text that a person reads.
pub record EventRow : Type 0 where
  pub subject : Text
  pub kind : EventKind
  pub at : ℕ

pub record Tables : Type 0 where
  pub segments : List SegmentRow
  pub bonuses : List BonusRow
  pub events : List EventRow

-- `as_second`.
abbrev pub as_second : Timestamp → ℕ
as_second t = t / nanos_per_sec

abbrev pub segment_row : UsageSegment → SegmentRow
segment_row seg = record {
  id = seg.id;
  subject = seg.subject;
  app = seg.app;
  source = seg.source;
  start_ts = as_second seg.start;
  end_ts = as_second seg.end;
  title = seg.title;
  synced = false;
}

abbrev pub has_id : Uuid → List SegmentRow → Bool
has_id id rows = any (λ (r : SegmentRow). r.id == id) rows

abbrev pub insert_row : SegmentRow → List SegmentRow → List SegmentRow
insert_row row rows = if has_id row.id rows then rows else rows ++ row ∷ []

-- `INSERT … ON CONFLICT(id) DO NOTHING`.
unfoldable pub insert_segment : Tables → UsageSegment → Tables
insert_segment tables seg = record tables {
  segments = insert_row (segment_row seg) tables.segments;
}

-- `WHERE subject = ?1 AND end_ts > ?3 AND start_ts < ?2`.
abbrev pub overlaps : Text → ℕ → ℕ → SegmentRow → Bool
overlaps subject from to r = r.subject =t subject && ltb from r.end_ts && ltb r.start_ts to

-- The sum of `MIN(end_ts, ?2) - MAX(start_ts, ?3)`, and 0 where that is negative: the sum of the ends
-- less that of the starts.
unfoldable pub usage_secs : List SegmentRow → Text → ℕ → ℕ → ℕ
usage_secs rows subject from to =
    let found = keep (overlaps subject from to) rows in
    sum (map (λ (r : SegmentRow). min r.end_ts to) found)
    - sum (map (λ (r : SegmentRow). max r.start_ts from) found)

unfoldable pub usage_between : Tables → Text → Timestamp → Timestamp → DurationSpec
unfolding usage_secs
usage_between tables subject from to =
    from_secs (usage_secs tables.segments subject (as_second from) (as_second to))

-- `i64::MAX`.
abbrev pub i64_max : ℕ
i64_max = 9223372036854775807

abbrev pub is_bonus_of : Text → Text → BonusRow → Bool
is_bonus_of subject date r = r.subject =t subject && r.policy_date =t date

unfoldable pub record_event_at : Tables → Text → EventKind → Timestamp → Tables
record_event_at tables subject kind at = record tables {
  events = tables.events ++ record { subject = subject; kind = kind; at = as_second at } ∷ [];
}

-- `date_text` is `to_string` of a date.
module _ (j : Jiff) (date_text : j.Date → Text) where
  unfoldable pub add_bonus :
      Tables → Text → PolicyDay j → DurationSpec → Text → Uuid → Timestamp → Tables
  unfolding record_event_at
  add_bonus tables subject day amount granted_by new_id now =
      let row : BonusRow = record {
        id = new_id;
        subject = subject;
        policy_date = date_text day.date;
        seconds = min (as_secs amount) i64_max;
        granted_by = granted_by;
        granted_at = as_second now;
      } in
      record_event_at (record tables { bonuses = tables.bonuses ++ row ∷ [] }) subject bonus_granted
        now

  -- `SUM(seconds)`; no row holds less than 0.
  unfoldable pub bonus_secs : Tables → Text → PolicyDay j → ℕ
  bonus_secs tables subject day = sum (
      map (λ (r : BonusRow). r.seconds)
        (keep (is_bonus_of subject (date_text day.date)) tables.bonuses))

  -- `bonus_for`; a sum beyond an `i64` is an error of the database.
  unfoldable pub bonus_for : Tables → Text → PolicyDay j → Option DurationSpec
  unfolding bonus_secs
  bonus_for tables subject day =
      let secs = bonus_secs tables subject day in
      if leb secs i64_max then some (from_secs secs) else none

  -- The result of `snapshot` with a bonus.
  unfoldable pub snapshot_with :
      Tables → Policy → Timestamp → DurationSpec → UsageSnapshot × PolicyDay j
  unfolding usage_between week_start
  snapshot_with tables policy now bonus =
      let tz = zone_of j policy in
      let today = policy_day_of j policy now in
      let day_end = policy_day_end j today policy.day_start tz in
      let day_start = unwrap_or (j.zoned_sub_days tz day_end 1) day_end in
      let week = unwrap_or (j.to_zoned (week_start j today) policy.day_start tz) day_start in
      (
        record {
          used_today = usage_between tables policy.subject day_start now;
          used_this_week = usage_between tables policy.subject week now;
          bonus_today = bonus;
        },
        today,
      )

  -- `snapshot`.
  unfoldable pub snapshot : Tables → Policy → Timestamp → Option (UsageSnapshot × PolicyDay j)
  unfolding bonus_for snapshot_with
  snapshot tables policy now =
      map_option (snapshot_with tables policy now)
        (bonus_for tables policy.subject (policy_day_of j policy now))
