-- ===== src/Tests/Duration.antt =====
-- Durations read and printed.
use time_bandits.Base.{ℕ, ◌≡◌, ◌↔◌, ◌≤◌, ◌*◌, ◌^◌, false, decimal, arith, ◌%◌, ◌<◌}
use time_bandits.Duration.{DurationSpec, as_secs, from_secs}
use time_bandits.Duration.Parse.{from_str, parsed}
use time_bandits.Duration.Print.{to_text}
use time_bandits.Duration.Roundtrip.{from_str-to_text}
use time_bandits.Duration.Minutes.{from_str_minutes}

from_str-to_text_example :
    from_str (λ _. false) (to_text (from_secs 5415)) ≡ parsed (from_secs 5415)
from_str-to_text_example = from_str-to_text (λ _. false) (from_secs 5415) (omega arith)

abbrev many_minutes : ℕ
many_minutes = 2 ^ 60

from_str_minutes_example :
    (d : DurationSpec) × (from_str (λ _. false) (decimal many_minutes) ≡ parsed d)
    × (as_secs d ≡ many_minutes * 60 % 2 ^ 64)
    × ((as_secs d < many_minutes * 60) ↔ (2 ^ 64 ≤ many_minutes * 60))
from_str_minutes_example = from_str_minutes (λ _. false) many_minutes (omega arith)
