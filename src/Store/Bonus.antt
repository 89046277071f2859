-- ===== src/Store/Bonus.antt =====
-- A bonus in the next snapshot.
use mathlib.Core.Path.{fun_ext}
use time_bandits.Base.{
  ℕ, ◌+◌, ◌/◌, ◌≡◌, refl, ◌&&◌, List, [], ◌∷◌, ◌++◌, map, Text, ◌=t◌, keep, sum, min, if◌then◌else◌,
  none, some, ◌∙◌, ◌≤◌, ◌<◌, true, false, leb, Bool-cases, inl, inr, arith, ap, map_option,
}
use time_bandits.Jiff.{Jiff, Timestamp}
use time_bandits.Duration.{DurationSpec, as_secs, from_secs}
use time_bandits.Schedule.{PolicyDay}
use time_bandits.Policy.{Policy}
use time_bandits.Engine.{UsageSnapshot, policy_day_of}
use time_bandits.Usage.{Uuid}
use time_bandits.Store.Tables.{
  BonusRow, Tables, is_bonus_of, i64_max, add_bonus, bonus_for, bonus_secs, snapshot, snapshot_with,
  record_event_at, usage_between,
}

abbrev seconds_of : Text → Text → List BonusRow → ℕ
seconds_of subject date rows =
    sum (map (λ (r : BonusRow). r.seconds) (keep (is_bonus_of subject date) rows))

seconds_of-append :
    (subject date : Text) (rows : List BonusRow) (row : BonusRow)
    → seconds_of subject date (rows ++ row ∷ [])
      ≡ seconds_of subject date rows + (if is_bonus_of subject date row then row.seconds else 0)
seconds_of-append subject date [] row = ground arith
seconds_of-append subject date (r ∷ rs) row =
    let rest = seconds_of-append subject date rs row in ground arith

module _ (j : Jiff) (date_text : j.Date → Text) where
  -- What `snapshot` gives where the bonuses add up to an `i64`.
  unfoldable pub counted : Tables → Policy → Timestamp → UsageSnapshot × PolicyDay j
  counted tables policy now =
      snapshot_with j date_text tables policy now
        (from_secs (bonus_secs j date_text tables policy.subject (policy_day_of j policy now)))

  -- The bonuses of the policy day add up to an `i64`.
  abbrev pub BonusFits : Tables → Policy → Timestamp → Type 0
  BonusFits tables policy now =
      bonus_secs j date_text tables policy.subject (policy_day_of j policy now) ≤ i64_max

  pub snapshot_fits :
      (tables : Tables) (policy : Policy) (now : Timestamp)
      → BonusFits tables policy now
      → snapshot j date_text tables policy now ≡ some (counted tables policy now)
  unfolding snapshot counted bonus_for
  snapshot_fits tables policy now fits =
      let small : leb (bonus_secs j date_text tables policy.subject (policy_day_of j policy now))
            i64_max
          ≡ true =
        ground arith in
      rw (small) refl

  pub snapshot_overflows :
      (tables : Tables) (policy : Policy) (now : Timestamp)
      → i64_max < bonus_secs j date_text tables policy.subject (policy_day_of j policy now)
      → snapshot j date_text tables policy now ≡ none
  unfolding snapshot bonus_for
  snapshot_overflows tables policy now over =
      let large : leb (bonus_secs j date_text tables policy.subject (policy_day_of j policy now))
            i64_max
          ≡ false =
        ground arith in
      rw (large) refl

  pub snapshot-counted :
      (tables : Tables) (policy : Policy) (now : Timestamp) (s : UsageSnapshot × PolicyDay j)
      → snapshot j date_text tables policy now ≡ some s
      → BonusFits tables policy now × (counted tables policy now ≡ s)
  snapshot-counted tables policy now s h =
      elim (Bool-cases
        (leb (bonus_secs j date_text tables policy.subject (policy_day_of j policy now)) i64_max)) [
          | inl small ↦
              let fits : BonusFits tables policy now = ground arith in
              let e = snapshot_fits tables policy now fits in (fits, ground arith)
          | inr large ↦ let e = snapshot_overflows tables policy now (ground arith) in ground arith
        ]

  pub snapshot_same :
      (a b : Tables) (policy : Policy) (now : Timestamp)
      → ((bonus : DurationSpec)
          → snapshot_with j date_text a policy now bonus
            ≡ snapshot_with j date_text b policy now bonus)
      → bonus_secs j date_text a policy.subject (policy_day_of j policy now)
        ≡ bonus_secs j date_text b policy.subject (policy_day_of j policy now)
      → snapshot j date_text a policy now ≡ snapshot j date_text b policy now
  unfolding snapshot bonus_for
  snapshot_same a b policy now used bonus =
      let amount = λ (secs : ℕ). if leb secs i64_max then some (from_secs secs) else none in
      ap
        (λ f.
          map_option f
            (amount (bonus_secs j date_text a policy.subject (policy_day_of j policy now))))
        (fun_ext used)
      ∙ ap (λ secs. map_option (snapshot_with j date_text b policy now) (amount secs)) bonus

module _ (j : Jiff) (date_text : j.Date → Text) (tables : Tables) (subject granted_by : Text)
    (day : PolicyDay j) (amount : DurationSpec) (new_id : Uuid) (at : Timestamp) where
  pub bonus_secs-add_bonus :
      (other : Text) (other_day : PolicyDay j)
      → bonus_secs j date_text
          (add_bonus j date_text tables subject day amount granted_by new_id at)
          other
          other_day
        ≡ bonus_secs j date_text tables other other_day
          + (if (subject =t other) && (date_text day.date =t date_text other_day.date)
              then min (as_secs amount) i64_max
              else 0)
  unfolding bonus_secs add_bonus record_event_at
  bonus_secs-add_bonus other other_day =
      let added = seconds_of-append other (date_text other_day.date) tables.bonuses (record {
        id = new_id;
        subject = subject;
        policy_date = date_text day.date;
        seconds = min (as_secs amount) i64_max;
        granted_by = granted_by;
        granted_at = at / 1000000000;
      }) in
      ground arith

  -- A bonus raises the bonus of a later snapshot by its whole seconds, as far as they fit in the
  -- column, if it was granted to that user for that policy day, and not at all otherwise; and it
  -- leaves the used time alone.
  pub counted-add_bonus :
      (policy : Policy) (now : Timestamp)
      → let before = (counted j date_text tables policy now).0 in
        let after =
          (counted j date_text
            (add_bonus j date_text tables subject day amount granted_by new_id at)
            policy
            now).0 in
        (after.bonus_today
          ≡ before.bonus_today
            + (if (subject =t policy.subject)
                  && (date_text day.date =t date_text (policy_day_of j policy now).date)
                then from_secs (min (as_secs amount) i64_max)
                else 0))
        × (after.used_today ≡ before.used_today)
        × (after.used_this_week ≡ before.used_this_week)
  unfolding counted snapshot_with add_bonus record_event_at usage_between
  counted-add_bonus policy now =
      let more = bonus_secs-add_bonus policy.subject (policy_day_of j policy now) in
      (ground arith, refl, refl)
