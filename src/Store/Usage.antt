-- ===== src/Store/Usage.antt =====
-- crates/tb-daemon/src/store.rs: `usage_between` on parts of a range, and after `insert_segment`.
use time_bandits.Base.{
  ℕ, ◌+◌, ◌-◌, ◌≤◌, ◌≡◌, refl, ap, ◌∙◌, Bool, true, ◌||◌, List, [], ◌∷◌, ◌++◌, map, Text, leb, ◌==◌,
  any-append, all, keep, sum, min, max, if◌then◌else◌, arith, Bool-cases, inl, inr,
}
use time_bandits.Jiff.{Timestamp}
use time_bandits.Duration.{from_secs}
use time_bandits.Usage.{UsageSegment}
use time_bandits.Store.Tables.{
  SegmentRow, Tables, segment_row, has_id, insert_segment, overlaps, usage_secs, usage_between,
  as_second,
}

-- The part of a row that lies in the range, for the subject.
abbrev pub clip : Text → ℕ → ℕ → SegmentRow → ℕ
clip subject from to r =
    if overlaps subject from to r then min r.end_ts to - max r.start_ts from else 0

abbrev pub is_ordered : SegmentRow → Bool
is_ordered r = leb r.start_ts r.end_ts

sum_of_ends :
    (subject : Text) (from to : ℕ) (rows : List SegmentRow)
    → from ≤ to
    → all is_ordered rows ≡ true
    → let found = keep (overlaps subject from to) rows in
      sum (map (λ (r : SegmentRow). min r.end_ts to) found)
      ≡ sum (map (λ (r : SegmentRow). max r.start_ts from) found)
        + sum (map (clip subject from to) rows)
sum_of_ends subject from to [] le h = refl
sum_of_ends subject from to (r ∷ rs) le h =
    let rest = sum_of_ends subject from to rs le (ground arith) in ground arith

pub usage_secs-clips :
    (subject : Text) (from to : ℕ) (rows : List SegmentRow)
    → from ≤ to
    → all is_ordered rows ≡ true
    → usage_secs rows subject from to ≡ sum (map (clip subject from to) rows)
unfolding usage_secs
usage_secs-clips subject from to rows le h =
    let ends = sum_of_ends subject from to rows le h in omega arith

clips_split :
    (subject : Text) (from mid to : ℕ) (rows : List SegmentRow)
    → from ≤ mid
    → mid ≤ to
    → all is_ordered rows ≡ true
    → sum (map (clip subject from to) rows)
      ≡ sum (map (clip subject from mid) rows) + sum (map (clip subject mid to) rows)
clips_split subject from mid to [] a b h = refl
clips_split subject from mid to (r ∷ rs) a b h =
    let rest = clips_split subject from mid to rs a b (ground arith) in ground arith

usage_secs_split :
    (rows : List SegmentRow) (subject : Text) (from mid to : ℕ)
    → all is_ordered rows ≡ true
    → from ≤ mid
    → mid ≤ to
    → usage_secs rows subject from to
      ≡ usage_secs rows subject from mid + usage_secs rows subject mid to
usage_secs_split rows subject from mid to h a b =
    let whole = usage_secs-clips subject from to rows (omega arith) h in
    let first = usage_secs-clips subject from mid rows a h in
    let second = usage_secs-clips subject mid to rows b h in
    let split = clips_split subject from mid to rows a b h in omega arith

-- If no stored segment ends before it starts, the usage of a range is that of its two parts
-- together, wherever it is cut: nothing at a boundary is lost or counted twice.
pub usage_between_split :
    (tables : Tables) (subject : Text) (from mid to : Timestamp)
    → all is_ordered tables.segments ≡ true
    → from ≤ mid
    → mid ≤ to
    → usage_between tables subject from to
      ≡ usage_between tables subject from mid + usage_between tables subject mid to
unfolding usage_between
usage_between_split tables subject from mid to h a b =
    let split =
      usage_secs_split tables.segments subject (as_second from) (as_second mid) (as_second to) h
        (omega arith) (omega arith) in
    omega arith

clips-append :
    (subject : Text) (from to : ℕ) (rows : List SegmentRow) (row : SegmentRow)
    → sum (map (clip subject from to) (rows ++ row ∷ []))
      ≡ sum (map (clip subject from to) rows) + clip subject from to row
clips-append subject from to [] row = omega arith
clips-append subject from to (r ∷ rs) row =
    let rest = clips-append subject from to rs row in omega arith

ordered-append :
    (rows : List SegmentRow) (row : SegmentRow)
    → all is_ordered rows ≡ true
    → is_ordered row ≡ true
    → all is_ordered (rows ++ row ∷ []) ≡ true
ordered-append [] row h o = ground arith
ordered-append (r ∷ rs) row h o = let rest = ordered-append rs row (ground arith) o in ground arith

-- If no stored segment ends before it starts and neither does the new one, storing it adds to the
-- usage of a range exactly the part of it inside the range, or nothing if its identifier is known;
-- and the stored segments stay ordered.
pub insert_segment_lem :
    (tables : Tables) (seg : UsageSegment) (subject : Text) (from to : Timestamp)
    → all is_ordered tables.segments ≡ true
    → seg.start ≤ seg.end
    → from ≤ to
    → let after = insert_segment tables seg in
      (usage_between after subject from to
        ≡ usage_between tables subject from to
          + (if has_id seg.id tables.segments
              then 0
              else from_secs (clip subject (as_second from) (as_second to) (segment_row seg))))
      × (all is_ordered after.segments ≡ true)
unfolding insert_segment usage_between
insert_segment_lem tables seg subject from to h o le =
    let rows = tables.segments in
    let row = segment_row seg in
    let f = as_second from in
    let t = as_second to in
    let f_le : f ≤ t = omega arith in
    elim (Bool-cases (has_id seg.id rows)) [
      | inl known ↦ ground arith
      | inr fresh ↦
          let ordered = ordered-append rows row h (ground arith) in
          let before = usage_secs-clips subject f t rows f_le h in
          let after = usage_secs-clips subject f t (rows ++ row ∷ []) f_le ordered in
          let more = clips-append subject f t rows row in (ground arith, ground arith)
    ]

unfoldable pub insert_all : Tables → List UsageSegment → Tables
insert_all tables [] = tables
insert_all tables (seg ∷ segs) = insert_all (insert_segment tables seg) segs

abbrev pub knows : Tables → UsageSegment → Bool
knows tables seg = has_id seg.id tables.segments

insert_segment-knows :
    (tables : Tables) (seg other : UsageSegment)
    → knows (insert_segment tables seg) other ≡ knows tables other || seg.id == other.id
unfolding insert_segment
insert_segment-knows tables seg other =
    let appended =
      any-append (λ (r : SegmentRow). r.id == other.id) tables.segments (segment_row seg ∷ []) in
    ground arith

insert_all-keeps :
    (tables : Tables) (segs : List UsageSegment) (seg : UsageSegment)
    → knows tables seg ≡ true
    → knows (insert_all tables segs) seg ≡ true
unfolding insert_all
insert_all-keeps tables [] seg h = h
insert_all-keeps tables (s ∷ segs) seg h =
    insert_all-keeps (insert_segment tables s) segs seg
      (let k = insert_segment-knows tables s seg in ground arith)

pub insert_all-knows :
    (tables : Tables) (segs : List UsageSegment) → all (knows (insert_all tables segs)) segs ≡ true
unfolding insert_all
insert_all-knows tables [] = refl
insert_all-knows tables (s ∷ segs) =
    let after = insert_segment tables s in
    let rest = insert_all-knows after segs in
    let k = insert_segment-knows tables s s in
    let here = insert_all-keeps after segs s (ground arith) in ground arith

insert_segment-known :
    (tables : Tables) (seg : UsageSegment)
    → knows tables seg ≡ true
    → insert_segment tables seg ≡ tables
unfolding insert_segment
insert_segment-known tables seg h = ground arith

pub insert_all-known :
    (tables : Tables) (segs : List UsageSegment)
    → all (knows tables) segs ≡ true
    → insert_all tables segs ≡ tables
unfolding insert_all
insert_all-known tables [] h = refl
insert_all-known tables (s ∷ segs) h =
    ap (λ t. insert_all t segs) (insert_segment-known tables s (ground arith))
    ∙ insert_all-known tables segs (ground arith)

-- Replaying a queue of segments that was stored before changes nothing, even where the queue names a
-- segment twice.
pub insert_all-idempotent :
    (tables : Tables) (segs : List UsageSegment)
    → insert_all (insert_all tables segs) segs ≡ insert_all tables segs
insert_all-idempotent tables segs =
    insert_all-known (insert_all tables segs) segs (insert_all-knows tables segs)
