-- ===== src/Tests.antt =====
-- A calendar for tests and for the examples: days of 24 hours, one time zone. The examples that
-- apply the theorems stand in the modules below.
mod Engine
mod Usage
mod Policy
mod Ticker
mod Pam
mod Store
mod PamConf
mod Duration
mod AgentServer
mod Session
mod AppId
mod PolicyEdit
mod Daemon
mod Cli
use time_bandits.Base.{
  ℕ, zero, suc, ◌+◌, ◌-◌, ◌*◌, ◌/◌, ◌%◌, some, none, arith, ltb, leb, ◌==◌, if◌then◌else◌,
}
use time_bandits.Jiff.{
  Jiff, IsLawful, Weekday, monday, tuesday, wednesday, thursday, friday, saturday, sunday,
  nanos_per_sec,
}

abbrev day_nanos : ℕ
day_nanos = 86400 * nanos_per_sec

abbrev weekday_at : ℕ → Weekday
weekday_at zero = monday
weekday_at (suc zero) = tuesday
weekday_at (suc (suc zero)) = wednesday
weekday_at (suc (suc (suc zero))) = thursday
weekday_at (suc (suc (suc (suc zero)))) = friday
weekday_at (suc (suc (suc (suc (suc zero))))) = saturday
weekday_at _ = sunday

-- A date is a count of days, and day 0 is a Monday.
abbrev pub plain : Jiff
plain = record {
  Date = ℕ;
  TimeZone = Unit;
  utc = tt;
  get_zone = λ _. some tt;
  unix_epoch = 0;
  date_eq = λ a b. a == b;
  date_lt = λ a b. ltb a b;
  weekday = λ d. weekday_at (d % 7);
  tomorrow = λ d. some (d + 1);
  yesterday = λ d. if leb 1 d then some (d - 1) else none;
  date_add = λ d n. some (d + n);
  date_sub = λ d n. if leb n d then some (d - n) else none;
  to_zoned = λ d t _. some (d * day_nanos + t);
  date_of = λ _ t. t / day_nanos;
  time_of = λ _ t. t % day_nanos;
  zoned_add_days = λ _ t n. some (t + n * day_nanos);
  zoned_sub_days = λ _ t n. if leb (n * day_nanos) t then some (t - n * day_nanos) else none;
  add_secs = λ t s. some (t + s * nanos_per_sec);
  sub_secs = λ t s. if leb (s * nanos_per_sec) t then some (t - s * nanos_per_sec) else none;
}

pub plain-IsLawful : IsLawful plain
plain-IsLawful = record {
  date_eq-refl = λ d. ground arith;
  add_secs_exact = λ t s u e. ground arith;
  sub_secs_exact = λ t s u e. ground arith;
  zoned_add_days_later = λ z t n u h e. grind arith;
}
