-- ===== src/Cli/Reporting.antt =====
-- crates/tb-cli/src/main.rs: what `tbctl usage` reports for today, beside what the rules count.
use time_bandits.Base.{
  ℕ, ◌-◌, ◌≤◌, ◌≡◌, refl, ap, ◌∙◌, Bool, true, false, not, ◌&&◌, ◌||◌, some, List, [], ◌∷◌, map,
  Text, all, keep, sum, leb, sort_by, sum-sort_by, arith, Bool-cases, inl, inr, ◌⊎◌, sym,
}
use time_bandits.Jiff.{Jiff, Timestamp}
use time_bandits.Duration.{as_secs, from_secs}
use time_bandits.Policy.{Policy}
use time_bandits.Usage.{UsageSegment, duration}
use time_bandits.Usage.Totals.{total, totals_by_app}
use time_bandits.Store.Files.{Files, load}
use time_bandits.Engine.{UsageSnapshot}
use time_bandits.Schedule.{PolicyDay}
use time_bandits.Store.Bonus.{counted, snapshot-counted}
use time_bandits.Store.Tables.{
  SegmentRow, Tables, snapshot, snapshot_with, overlaps, as_second, usage_between,
}
use time_bandits.Store.Usage.{is_ordered, clip, usage_secs-clips}
use time_bandits.Store.Queries.{segments_between, segment_of_row, later_first}
use time_bandits.Cli.Checked.{load-subject}
use time_bandits.Cli.Commands.{UsageReport, usage, usage_from}

abbrev row_secs : SegmentRow → ℕ
row_secs r = as_secs (duration (segment_of_row r))

row_secs-length : (r : SegmentRow) → row_secs r ≡ r.end_ts - r.start_ts
row_secs-length r = omega arith

sum-map :
    (rows : List SegmentRow)
    → sum (map (λ (s : UsageSegment). as_secs (duration s)) (map segment_of_row rows))
      ≡ sum (map row_secs rows)
sum-map [] = refl
sum-map (r ∷ rs) = let rest = sum-map rs in omega arith

total-segments_between :
    (tables : Tables) (subject : Text) (from to : Timestamp)
    → total (segments_between tables subject from to)
      ≡ from_secs (
          sum (
            map row_secs (keep (overlaps subject (as_second from) (as_second to)) tables.segments)))
unfolding total segments_between
total-segments_between tables subject from to =
    let found = keep (overlaps subject (as_second from) (as_second to)) tables.segments in
    ap from_secs (sum-map (sort_by later_first found) ∙ sum-sort_by later_first row_secs found)

clips-whole :
    (subject : Text) (from to : ℕ) (rows : List SegmentRow)
    → sum (map (clip subject from to) rows)
      ≤ sum (map row_secs (keep (overlaps subject from to) rows))
clips-whole subject from to [] = omega arith
clips-whole subject from to (r ∷ rs) =
    let rest = clips-whole subject from to rs in let length = row_secs-length r in ground arith

-- A row of another user, or one that lies in the range.
abbrev pub lies_inside : Text → ℕ → ℕ → SegmentRow → Bool
lies_inside subject from to r =
    not (overlaps subject from to r) || (leb from r.start_ts && leb r.end_ts to)

clips-inside :
    (subject : Text) (from to : ℕ) (rows : List SegmentRow)
    → all (lies_inside subject from to) rows ≡ true
    → sum (map (clip subject from to) rows)
      ≡ sum (map row_secs (keep (overlaps subject from to) rows))
clips-inside subject from to [] h = refl
clips-inside subject from to (r ∷ rs) h =
    let rest = clips-inside subject from to rs (ground arith) in
    let length = row_secs-length r in ground arith

used_beside_total :
    (tables : Tables) (user : Text) (start now : Timestamp)
    → all is_ordered tables.segments ≡ true
    → start ≤ now
    → (usage_between tables user start now ≤ total (segments_between tables user start now))
      × ((all (lies_inside user (as_second start) (as_second now)) tables.segments ≡ false)
          ⊎ (usage_between tables user start now ≡ total (segments_between tables user start now)))
unfolding usage_between
used_beside_total tables user start now ordered begun =
    let f = as_second start in
    let t = as_second now in
    let clips = usage_secs-clips user f t tables.segments (omega arith) ordered in
    let whole = clips-whole user f t tables.segments in
    let all_of_it = total-segments_between tables user start now in
    (
      omega arith,
      elim (Bool-cases (all (lies_inside user f t) tables.segments)) [
        | inr over ↦ inl over
        | inl inside ↦ let same = clips-inside user f t tables.segments inside in inr (omega arith)
      ],
    )

module _ (j : Jiff) (date_text : j.Date → Text) (now : Timestamp) where
  -- What the rules count as used today is the usage since the time from which the report is made.
  used_since :
      (tables : Tables) (policy : Policy) (counts : UsageSnapshot) (day : PolicyDay j)
      → snapshot j date_text tables policy now ≡ some (counts, day)
      → counts.used_today
        ≡ usage_between tables policy.subject (usage_from j date_text policy false day) now
  unfolding counted snapshot_with usage_from
  used_since tables policy counts day seen =
      let is_counted = (snapshot-counted j date_text tables policy now (counts, day) seen).1 in
      rw (sym (ap (λ s. s.0) is_counted), sym (ap (λ s. s.1) is_counted)) refl

module _ (j : Jiff) (date_text : j.Date → Text) (files : Files) (tables : Tables) (user : Text)
    (now : Timestamp) where
  -- What `tbctl usage` says of today is never less than what the rules count as used today, if they
  -- can count it, the day has begun and no stored segment ends before it starts; and it is the same if moreover no
  -- segment of the user reaches over the start of the day or beyond the moment.
  pub usage_of_today :
      (policy : Policy) (counts : UsageSnapshot) (day : PolicyDay j)
      → load j files user ≡ some (some policy)
      → all is_ordered tables.segments ≡ true
      → snapshot j date_text tables policy now ≡ some (counts, day)
      → usage_from j date_text policy false day ≤ now
      → let used = counts.used_today in
        let start = usage_from j date_text policy false day in
        (report : UsageReport) × (usage j date_text files tables user false now ≡ some report)
        × (report.from ≡ start)
        × (used ≤ report.total_time)
        × ((all (lies_inside user (as_second start) (as_second now)) tables.segments ≡ false)
            ⊎ (used ≡ report.total_time))
  unfolding usage
  usage_of_today policy counts day loads ordered seen begun =
      let start = usage_from j date_text policy false day in
      let is_used = used_since j date_text now tables policy counts day seen in
      let owner = load-subject j files user policy loads in
      let compared = used_beside_total tables user start now ordered begun in
      (
        record {
          from = start;
          totals = totals_by_app (segments_between tables user start now);
          total_time = total (segments_between tables user start now);
        },
        rw (loads, seen, usage) refl,
        refl,
        rw (is_used, owner) compared.0,
        rw (is_used, owner) compared.1,
      )
