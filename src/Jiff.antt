-- ===== src/Jiff.antt =====
-- The date and time library `jiff`, which the program uses and does not implement: an interface.
-- An instant (`Timestamp`, and a `Zoned` beside its zone) is a count of nanoseconds since the
-- library's first instant, so its order is that of the numbers; a wall-clock time (`civil::Time`) is
-- a count of nanoseconds since midnight.
use time_bandits.Base.{ℕ, ◌+◌, ◌-◌, ◌*◌, ◌/◌, ◌<◌, ◌≡◌, Bool, true, Option, some, Text}

abbrev pub Timestamp : Type 0
Timestamp = ℕ

abbrev pub Time : Type 0
Time = ℕ

abbrev pub nanos_per_sec : ℕ
nanos_per_sec = 1000000000

-- `u64::try_from(a.duration_until(b).as_secs()).unwrap_or(0)`: whole seconds, cut off, and 0 where
-- `b` lies before `a`.
abbrev pub secs_until : Timestamp → Timestamp → ℕ
secs_until a b = (b - a) / nanos_per_sec

pub data Weekday : Type 0 where
  monday tuesday wednesday thursday friday saturday sunday : Weekday

pub record Jiff : Type 1 where
  pub Date : Type 0
  pub TimeZone : Type 0
  -- `TimeZone::UTC` and `TimeZone::get`.
  pub utc : TimeZone
  pub get_zone : Text → Option TimeZone
  pub unix_epoch : Timestamp
  -- `==` and `<` of dates.
  pub date_eq : Date → Date → Bool
  pub date_lt : Date → Date → Bool
  pub weekday : Date → Weekday
  pub tomorrow : Date → Option Date
  pub yesterday : Date → Option Date
  -- `checked_add` and `checked_sub` of a span of days.
  pub date_add : Date → ℕ → Option Date
  pub date_sub : Date → ℕ → Option Date
  -- `date.to_datetime(time).to_zoned(zone)`.
  pub to_zoned : Date → Time → TimeZone → Option Timestamp
  -- `zoned.date()` and `zoned.time()`.
  pub date_of : TimeZone → Timestamp → Date
  pub time_of : TimeZone → Timestamp → Time
  -- `zoned.checked_add` and `zoned.checked_sub` of a span of calendar days.
  pub zoned_add_days : TimeZone → Timestamp → ℕ → Option Timestamp
  pub zoned_sub_days : TimeZone → Timestamp → ℕ → Option Timestamp
  -- `checked_add` and `checked_sub` of a number of seconds.
  pub add_secs : Timestamp → ℕ → Option Timestamp
  pub sub_secs : Timestamp → ℕ → Option Timestamp

-- What the documentation of `jiff` says of these operations, as far as a theorem uses it.
pub record IsLawful (j : Jiff) : Type 0 where
  pub date_eq-refl : (d : j.Date) → j.date_eq d d ≡ true
  pub add_secs_exact :
      (t : Timestamp) (s : ℕ) (u : Timestamp) → j.add_secs t s ≡ some u → u ≡ t + s * nanos_per_sec
  pub sub_secs_exact :
      (t : Timestamp) (s : ℕ) (u : Timestamp) → j.sub_secs t s ≡ some u → u + s * nanos_per_sec ≡ t
  pub zoned_add_days_later :
      (z : j.TimeZone) (t : Timestamp) (n : ℕ) (u : Timestamp)
      → 0 < n
      → j.zoned_add_days z t n ≡ some u
      → t < u
