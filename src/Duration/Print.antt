-- ===== src/Duration/Print.antt =====
-- crates/tb-core/src/duration.rs: `Display` of `DurationSpec`.
use time_bandits.Base.{ℕ, ◌/◌, ◌%◌, [], ◌∷◌, ◌++◌, Text, codes, ltb, ◌==◌, if◌then◌else◌, decimal}
use time_bandits.Duration.{DurationSpec, as_secs}

-- A number with its unit, unless it is zero.
unfoldable pub part : ℕ → ℕ → Text
part n unit = if ltb 0 n then decimal n ++ unit ∷ [] else []

unfoldable pub to_text : DurationSpec → Text
unfolding part
to_text d =
    let secs = as_secs d in
    if secs == 0
    then codes "0s"
    else part (secs / 3600) b'h' ++ (part (secs % 3600 / 60) b'm' ++ part (secs % 60) b's')
