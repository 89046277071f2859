-- ===== src/Daemon/Keeping.antt =====
-- crates/tb-daemon: what no event of the daemon without a parent takes from the store.
use time_bandits.Base.{
  ℕ, ◌≤◌, ◌≡◌, refl, ap, ◌∙◌, Bool, true, List, [], ◌∷◌, Text, all, keep, map, sum, min, max, leb,
  arith, if_elim, Bool-cases, inl, inr, if◌then◌else◌,
}
use time_bandits.Jiff.{Timestamp}
use time_bandits.Usage.{UsageSegment}
use time_bandits.Ticker.State.{Effect}
use time_bandits.Ticker.Loop.{Tagged}
use time_bandits.Store.Tables
use time_bandits.Store.Tables.{
  SegmentRow, Tables, usage_between, usage_secs, record_event_at, as_second, overlaps,
}
use time_bandits.Store.Usage.{is_ordered, insert_segment_lem}
use time_bandits.Daemon.{apply_effect, apply_effects}
use time_bandits.Daemon.Rounds.{is_proper_tagged}

abbrev pub AreOrdered : Tables → Type 0
AreOrdered tables = all is_ordered tables.segments ≡ true

-- No use is forgotten and no bonus is added, and the rows stay ordered.
pub record Keeps (a b : Tables) : Type 0 where
  pub ordered : AreOrdered b
  pub used :
      (subject : Text) (from to : Timestamp)
      → usage_between a subject from to ≤ usage_between b subject from to
  pub same_bonuses : b.bonuses ≡ a.bonuses

ends_before_starts :
    (subject : Text) (from to : ℕ) (rows : List SegmentRow)
    → to ≤ from
    → let found = keep (overlaps subject from to) rows in
      sum (map (λ (r : SegmentRow). min r.end_ts to) found)
      ≤ sum (map (λ (r : SegmentRow). max r.start_ts from) found)
ends_before_starts subject from to [] le = omega arith
ends_before_starts subject from to (r ∷ rs) le =
    let rest = ends_before_starts subject from to rs le in ground arith

-- A range that ends before it begins has no use.
pub usage_between_backwards :
    (tables : Tables) (subject : Text) (from to : Timestamp)
    → to ≤ from
    → usage_between tables subject from to ≡ 0
unfolding usage_between usage_secs
usage_between_backwards tables subject from to le =
    let sums =
      ends_before_starts subject (as_second from) (as_second to) tables.segments (omega arith) in
    omega arith

pub Keeps-refl : (a : Tables) → AreOrdered a → Keeps a a
Keeps-refl a h = record { ordered = h; used = λ subject from to. omega arith; same_bonuses = refl }

pub Keeps-trans : (a b c : Tables) → Keeps a b → Keeps b c → Keeps a c
Keeps-trans a b c h k = record {
  ordered = k.ordered;
  used = λ subject from to.
      let first = h.used subject from to in let second = k.used subject from to in omega arith;
  same_bonuses = k.same_bonuses ∙ h.same_bonuses;
}

-- Tables with the same segments and bonuses.
pub Keeps-same :
    (a b : Tables) → AreOrdered a → b.segments ≡ a.segments → b.bonuses ≡ a.bonuses → Keeps a b
unfolding usage_between
Keeps-same a b h s e = record {
  ordered = ap (all is_ordered) s ∙ h;
  used = λ subject from to.
      let same = ap (λ rows. usage_secs rows subject (as_second from) (as_second to)) s in
      omega arith;
  same_bonuses = e;
}

insert_segment-used :
    (tables : Tables) (seg : UsageSegment) (subject : Text) (from to : Timestamp)
    → AreOrdered tables
    → seg.start ≤ seg.end
    → usage_between tables subject from to
      ≤ usage_between (Tables.insert_segment tables seg) subject from to
insert_segment-used tables seg subject from to h le = elim (Bool-cases (leb from to)) [
  | inl forwards ↦
      let (more, o) = insert_segment_lem tables seg subject from to h le (ground arith) in
      ground arith
  | inr backwards ↦
      let none_before = usage_between_backwards tables subject from to (ground arith) in omega arith
]

insert_segment-Keeps :
    (tables : Tables) (seg : UsageSegment)
    → AreOrdered tables
    → seg.start ≤ seg.end
    → Keeps tables (Tables.insert_segment tables seg)
unfolding Tables.insert_segment
insert_segment-Keeps tables seg h le = record {
  ordered = (insert_segment_lem tables seg [] 0 0 h le (omega arith)).1;
  used = λ subject from to. insert_segment-used tables seg subject from to h le;
  same_bonuses = refl;
}

apply_effect-Keeps :
    (now : Timestamp) (t : Tagged) (tables : Tables)
    → AreOrdered tables
    → is_proper_tagged t ≡ true
    → Keeps tables (apply_effect now t tables)
unfolding record_event_at
apply_effect-Keeps now (subject, Effect.insert_segment seg) tables h p =
    insert_segment-Keeps tables seg h (ground arith)
apply_effect-Keeps now (subject, Effect.record_event kind) tables h p =
    Keeps-same tables _ h refl refl
apply_effect-Keeps now (subject, Effect.warn d) tables h p = Keeps-refl tables h
apply_effect-Keeps now (subject, Effect.closing r d) tables h p = Keeps-refl tables h
apply_effect-Keeps now (subject, Effect.lock_session t) tables h p = Keeps-refl tables h
apply_effect-Keeps now (subject, Effect.terminate_session t) tables h p = Keeps-refl tables h

pub apply_effects-Keeps :
    (taken : Tagged → Bool) (now : Timestamp) (effects : List Tagged) (tables : Tables)
    → AreOrdered tables
    → all is_proper_tagged effects ≡ true
    → Keeps tables (apply_effects taken now effects tables)
unfolding apply_effects
apply_effects-Keeps taken now [] tables h p = Keeps-refl tables h
apply_effects-Keeps taken now (e ∷ rest) tables h p =
    let after = if taken e then apply_effect now e tables else tables in
    let first : Keeps tables after =
      if_elim (Keeps tables) (taken e) _ _ (λ _. apply_effect-Keeps now e tables h (ground arith))
        (λ _. Keeps-refl tables h) in
    Keeps-trans tables after _ first
      (apply_effects-Keeps taken now rest after first.ordered (ground arith))
