-- ===== src/Store/Order.antt =====
-- crates/tb-daemon/src/store.rs: a database promises no order of its rows, and segments may arrive in
-- any order.
use mathlib.Core.List.{Permᴰ}
use time_bandits.Base.{
  ◌≡◌, refl, sym, ap, ◌∙◌, true, ◌==◌, List, ◌++◌, map, min, max, Text, unwrap_or, all, any,
}
use time_bandits.Jiff.{Jiff, Timestamp}
use time_bandits.Policy.{Policy}
use time_bandits.Engine.{week_start, zone_of, policy_day_of}
use time_bandits.Schedule.{PolicyDay, policy_day_end}
use time_bandits.Usage.{Uuid, UsageSegment}
use time_bandits.Store.Tables.{
  SegmentRow, BonusRow, Tables, usage_secs, usage_between, bonus_secs, snapshot, snapshot_with,
  overlaps, as_second, is_bonus_of,
}
use time_bandits.Store.Permuted.{sum-perm}
use time_bandits.Store.Bonus.{snapshot_same}
use time_bandits.Store.Usage.{insert_all}
use time_bandits.Store.Arrival.{SameRows, insert_all-perm, insert_all-repeats}

usage_between-SameRows :
    (a b : Tables) (subject : Text) (from to : Timestamp)
    → SameRows a b
    → usage_between a subject from to ≡ usage_between b subject from to
unfolding usage_between usage_secs
usage_between-SameRows a b subject from to h =
    let inside = overlaps subject (as_second from) (as_second to) in
    let ends =
      sum-perm inside (λ (r : SegmentRow). min r.end_ts (as_second to)) a.segments b.segments
        h.segments in
    let starts =
      sum-perm inside (λ (r : SegmentRow). max r.start_ts (as_second from)) a.segments b.segments
        h.segments in
    rw (ends, starts) refl

module _ (j : Jiff) (date_text : j.Date → Text) where
  bonus_secs-SameRows :
      (a b : Tables) (subject : Text) (day : PolicyDay j)
      → SameRows a b
      → bonus_secs j date_text a subject day ≡ bonus_secs j date_text b subject day
  unfolding bonus_secs
  bonus_secs-SameRows a b subject day h =
      (sum-perm (is_bonus_of subject (date_text day.date)) (λ (r : BonusRow). r.seconds) a.bonuses
        b.bonuses h.bonuses)

  snapshot-SameRows :
      (a b : Tables) (policy : Policy) (now : Timestamp)
      → SameRows a b
      → snapshot j date_text a policy now ≡ snapshot j date_text b policy now
  unfolding snapshot_with
  snapshot-SameRows a b policy now h =
      let used = λ (from : Timestamp). usage_between-SameRows a b policy.subject from now h in
      let today = policy_day_of j policy now in
      let tz = zone_of j policy in
      let day_end = policy_day_end j today policy.day_start tz in
      let day_start = unwrap_or (j.zoned_sub_days tz day_end 1) day_end in
      let week = unwrap_or (j.to_zoned (week_start j today) policy.day_start tz) day_start in
      snapshot_same j date_text a b policy now (λ bonus. rw (used day_start, used week) refl)
        (bonus_secs-SameRows a b policy.subject today h)

  -- Where an identifier names one segment, the usage that a policy is judged by depends neither on
  -- the order in which segments reach the store nor on how often one does: after any arrival of some
  -- segments together with repeats of them it is what it is after each was stored in turn.
  pub snapshot-order :
      (content : Uuid → UsageSegment) (tables : Tables) (ids repeats arrived : List Uuid)
      (policy : Policy) (now : Timestamp)
      → ((id : Uuid) → (content id).id ≡ id)
      → all (λ id. any (λ x. x == id) ids) repeats ≡ true
      → Permᴰ (ids ++ repeats) arrived
      → snapshot j date_text (insert_all tables (map content arrived)) policy now
        ≡ snapshot j date_text (insert_all tables (map content ids)) policy now
  snapshot-order content tables ids repeats arrived policy now named known perm =
      sym (
        snapshot-SameRows (insert_all tables (map content (ids ++ repeats)))
          (insert_all tables (map content arrived)) policy now
          (insert_all-perm content named tables (ids ++ repeats) arrived perm))
      ∙ ap (λ t. snapshot j date_text t policy now)
          (insert_all-repeats content named tables ids repeats known)
