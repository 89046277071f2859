-- ===== src/Duration.antt =====
-- crates/tb-core/src/duration.rs: `DurationSpec` and its arithmetic.
pub mod Parse
pub mod Print
pub mod Scanning
pub mod Roundtrip
pub mod Minutes
use time_bandits.Base.{ℕ, ◌+◌, ◌-◌, ◌*◌, ◌/◌, ◌%◌, ◌^◌, min, Bool, ◌==◌}
use time_bandits.Jiff.{nanos_per_sec}

-- The wrapped `std::time::Duration`, in nanoseconds.
abbrev pub DurationSpec : Type 0
DurationSpec = ℕ

-- `Duration::MAX`: a `u64` of seconds and 999999999 nanoseconds.
abbrev pub duration_max : ℕ
duration_max = 2 ^ 64 * nanos_per_sec - 1

abbrev pub zero_duration : DurationSpec
zero_duration = 0

abbrev pub from_secs : ℕ → DurationSpec
from_secs secs = secs * nanos_per_sec

-- The product of `u64`s wraps (the release profile has no overflow checks).
abbrev pub from_mins : ℕ → DurationSpec
from_mins mins = mins * 60 % 2 ^ 64 * nanos_per_sec

abbrev pub from_hours : ℕ → DurationSpec
from_hours hours = hours * 3600 % 2 ^ 64 * nanos_per_sec

abbrev pub as_secs : DurationSpec → ℕ
as_secs d = d / nanos_per_sec

abbrev pub as_mins_ceil : DurationSpec → ℕ
as_mins_ceil d = (as_secs d + 59) / 60

abbrev pub is_zero : DurationSpec → Bool
is_zero d = d == 0

abbrev pub saturating_sub : DurationSpec → DurationSpec → DurationSpec
saturating_sub a b = a - b

abbrev pub saturating_add : DurationSpec → DurationSpec → DurationSpec
saturating_add a b = min (a + b) duration_max
