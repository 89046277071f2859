-- ===== src/Store/Arrival.antt =====
-- crates/tb-daemon/src/store.rs: segments that arrive in another order, or again, leave the same rows.
use mathlib.Core.List.{Permᴰ}
use mathlib.Core.List.Permᴰ
use time_bandits.Base.{
  ◌≡◌, refl, sym, ◌∙◌, true, false, ◌||◌, ◌==◌, List, [], ◌∷◌, ◌++◌, map, any-append, arith,
  Bool-cases, inl, inr, all, any,
}
use time_bandits.Usage.{Uuid, UsageSegment}
use time_bandits.Store.Tables.{SegmentRow, Tables, segment_row, has_id, insert_row, insert_segment}
use time_bandits.Store.Permuted.{any-perm, snoc_swap}
use time_bandits.Store.Usage.{insert_all, insert_all-knows, insert_all-known, knows}

-- The same rows in some other order.
pub record SameRows (a b : Tables) : Type 0 where
  pub segments : Permᴰ a.segments b.segments
  pub bonuses : Permᴰ a.bonuses b.bonuses

insert_row-perm :
    (xs ys : List SegmentRow) (r : SegmentRow)
    → Permᴰ xs ys
    → Permᴰ (insert_row r xs) (insert_row r ys)
insert_row-perm xs ys r d =
    let same = any-perm (λ (x : SegmentRow). x.id == r.id) xs ys d in
    elim (Bool-cases (has_id r.id xs)) [
      | inl e ↦ rw (e, sym same ∙ e) d
      | inr e ↦ rw (e, sym same ∙ e) (Permᴰ.append_right (r ∷ []) d)
    ]

has_id-snoc :
    (xs : List SegmentRow) (r s : SegmentRow)
    → has_id s.id (xs ++ r ∷ []) ≡ has_id s.id xs || r.id == s.id
has_id-snoc xs r s =
    let split = any-append (λ (x : SegmentRow). x.id == s.id) xs (r ∷ []) in ground arith

insert_row_known :
    (xs : List SegmentRow) (r : SegmentRow) → has_id r.id xs ≡ true → insert_row r xs ≡ xs
insert_row_known xs r known = rw (known) refl

insert_row_new :
    (xs : List SegmentRow) (r : SegmentRow)
    → has_id r.id xs ≡ false
    → insert_row r xs ≡ xs ++ r ∷ []
insert_row_new xs r new = rw (new) refl

insert_row_swap :
    (xs : List SegmentRow) (r s : SegmentRow)
    → (r.id == s.id) ≡ false
    → Permᴰ (insert_row s (insert_row r xs)) (insert_row r (insert_row s xs))
insert_row_swap xs r s apart =
    let after_r = has_id-snoc xs r s in
    let after_s = has_id-snoc xs s r in
    elim (Bool-cases (has_id r.id xs)) [
      | inl e ↦ elim (Bool-cases (has_id s.id xs)) [
        | inl f ↦
            rw (insert_row_known xs r e, insert_row_known xs s f, insert_row_known xs r e)
              (Permᴰ.refl xs)
        | inr f ↦
            rw
              (
                insert_row_known xs r e,
                insert_row_new xs s f,
                insert_row_known (xs ++ s ∷ []) r (ground arith),
              )
              (Permᴰ.refl (xs ++ s ∷ []))
      ]
      | inr e ↦ elim (Bool-cases (has_id s.id xs)) [
        | inl f ↦
            rw
              (
                insert_row_known xs s f,
                insert_row_new xs r e,
                insert_row_known (xs ++ r ∷ []) s (ground arith),
              )
              (Permᴰ.refl (xs ++ r ∷ []))
        | inr f ↦
            rw
              (
                insert_row_new xs r e,
                insert_row_new xs s f,
                insert_row_new (xs ++ r ∷ []) s (ground arith),
                insert_row_new (xs ++ s ∷ []) r (ground arith),
              )
              (snoc_swap xs r s)
      ]
    ]

SameRows-refl : (a : Tables) → SameRows a a
SameRows-refl a = record { segments = Permᴰ.refl a.segments; bonuses = Permᴰ.refl a.bonuses }

SameRows-trans : (a b c : Tables) → SameRows a b → SameRows b c → SameRows a c
SameRows-trans a b c h k = record {
  segments = Permᴰ.trans h.segments k.segments;
  bonuses = Permᴰ.trans h.bonuses k.bonuses;
}

insert_segment-SameRows :
    (a b : Tables) (seg : UsageSegment)
    → SameRows a b
    → SameRows (insert_segment a seg) (insert_segment b seg)
unfolding insert_segment
insert_segment-SameRows a b seg h = record {
  segments = insert_row-perm a.segments b.segments (segment_row seg) h.segments;
  bonuses = h.bonuses;
}

insert_all-SameRows :
    (a b : Tables) (segs : List UsageSegment)
    → SameRows a b
    → SameRows (insert_all a segs) (insert_all b segs)
unfolding insert_all
insert_all-SameRows a b [] h = h
insert_all-SameRows a b (seg ∷ segs) h =
    insert_all-SameRows (insert_segment a seg) (insert_segment b seg) segs
      (insert_segment-SameRows a b seg h)

module _ (content : Uuid → UsageSegment) (named : (id : Uuid) → (content id).id ≡ id) where
  insert_segment_swap :
      (a : Tables) (x y : Uuid)
      → SameRows
          (insert_segment (insert_segment a (content x)) (content y))
          (insert_segment (insert_segment a (content y)) (content x))
  unfolding insert_segment
  insert_segment_swap a x y = elim (Bool-cases (x == y)) [
    | inl e ↦
        let same : x ≡ y = ground arith in
        rw (same) (SameRows-refl (insert_segment (insert_segment a (content y)) (content y)))
    | inr e ↦ record {
      segments =
          insert_row_swap a.segments (segment_row (content x)) (segment_row (content y))
            (rw (named x, named y) e);
      bonuses = Permᴰ.refl a.bonuses;
    }
  ]

  pub insert_all-perm :
      (a : Tables) (ids arrived : List Uuid)
      → Permᴰ ids arrived
      → SameRows (insert_all a (map content ids)) (insert_all a (map content arrived))
  unfolding insert_all
  insert_all-perm a _ _ Permᴰ.nil = SameRows-refl a
  insert_all-perm a _ _ (Permᴰ.cons {a = x} {l₁ = xs} {l₂ = ys} e d) =
      rw (sym e) (insert_all-perm (insert_segment a (content x)) xs ys d)
  insert_all-perm a _ _ (Permᴰ.swap {a = x} {b = y} {l = xs} e d) =
      rw (sym e, sym d)
        (insert_all-SameRows (insert_segment (insert_segment a (content x)) (content y))
          (insert_segment (insert_segment a (content y)) (content x)) (map content xs)
          (insert_segment_swap a x y))
  insert_all-perm a xs ys (Permᴰ.trans {l₂ = zs} d e) =
      SameRows-trans (insert_all a (map content xs)) (insert_all a (map content zs))
        (insert_all a (map content ys)) (insert_all-perm a xs zs d) (insert_all-perm a zs ys e)

  -- A segment of a list that was stored is known.
  stored-knows :
      (after : Tables) (ids : List Uuid) (id : Uuid)
      → all (knows after) (map content ids) ≡ true
      → any (λ x. x == id) ids ≡ true
      → knows after (content id) ≡ true
  stored-knows after [] id h i = ground arith
  stored-knows after (x ∷ ids) id h i = elim (Bool-cases (x == id)) [
    | inl e ↦ let same : x ≡ id = ground arith in rw (sym same) (ground arith)
    | inr e ↦ stored-knows after ids id (ground arith) (ground arith)
  ]

  repeats-knows :
      (after : Tables) (ids repeats : List Uuid)
      → all (knows after) (map content ids) ≡ true
      → all (λ id. any (λ x. x == id) ids) repeats ≡ true
      → all (knows after) (map content repeats) ≡ true
  repeats-knows after ids [] h i = refl
  repeats-knows after ids (x ∷ repeats) h i =
      let here = stored-knows after ids x h (ground arith) in
      let rest = repeats-knows after ids repeats h (ground arith) in ground arith

  insert_all-append :
      (tables : Tables) (ids repeats : List Uuid)
      → insert_all tables (map content (ids ++ repeats))
        ≡ insert_all (insert_all tables (map content ids)) (map content repeats)
  unfolding insert_all
  insert_all-append tables [] repeats = refl
  insert_all-append tables (x ∷ ids) repeats =
      insert_all-append (insert_segment tables (content x)) ids repeats

  pub insert_all-repeats :
      (tables : Tables) (ids repeats : List Uuid)
      → all (λ id. any (λ x. x == id) ids) repeats ≡ true
      → insert_all tables (map content (ids ++ repeats)) ≡ insert_all tables (map content ids)
  insert_all-repeats tables ids repeats h =
      let after = insert_all tables (map content ids) in
      let first = insert_all-knows tables (map content ids) in
      insert_all-append tables ids repeats
      ∙ insert_all-known after (map content repeats) (repeats-knows after ids repeats first h)
