-- ===== src/Schedule/Laws.antt =====
-- What a week schedule and a time window promise.
use time_bandits.Base.{ℕ, ◌≡◌, ◌≢◌, Bool, true, false, not, arith, if◌then◌else◌}
use time_bandits.Schedule.{
  Day, monday, tuesday, wednesday, thursday, friday, saturday, sunday, WeekSchedule, get, set,
  overrides_empty, TimeWindow, contains,
}

pub Day-discrete : Discrete Day
Day-discrete = hlevel

abbrev pub same_day : Day → Day → Bool
same_day monday monday = true
same_day tuesday tuesday = true
same_day wednesday wednesday = true
same_day thursday thursday = true
same_day friday friday = true
same_day saturday saturday = true
same_day sunday sunday = true
same_day _ _ = false

module _ {ℓ} {A : Type ℓ} where
  -- Setting a day's value changes what is read on that day, to the value, and on no other.
  pub get-set :
      (s : WeekSchedule A) (d e : Day) (v : A)
      → get (set s d v) e ≡ (if same_day d e then v else get s e)
  unfolding get set
  get-set s monday e v = ground arith
  get-set s tuesday e v = ground arith
  get-set s wednesday e v = ground arith
  get-set s thursday e v = ground arith
  get-set s friday e v = ground arith
  get-set s saturday e v = ground arith
  get-set s sunday e v = ground arith

  -- A schedule without overrides has its default on every day.
  pub get-overrides_empty :
      (s : WeekSchedule A) (d : Day)
      → overrides_empty s.overrides ≡ true
      → get s d ≡ s.default_value
  unfolding get overrides_empty
  get-overrides_empty s d h = ground arith

-- Exchanging the ends of a window whose ends differ gives its complement, so the windows across
-- midnight and those within a day are one rule.
pub contains-flip :
    (w : TimeWindow) (t : ℕ)
    → w.start ≢ w.end
    → contains (record { start = w.end; end = w.start }) t ≡ not (contains w t)
unfolding contains
contains-flip w t h = ground arith
