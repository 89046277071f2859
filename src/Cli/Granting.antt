-- ===== src/Cli/Granting.antt =====
-- crates/tb-cli/src/main.rs: what `tbctl grant-bonus` does for the child, and for the others.
use time_bandits.Base.{ℕ, ◌+◌, Bool, ◌&&◌, not, Text, ltb, min}
use time_bandits.Jiff.{Jiff, Timestamp}
use time_bandits.Duration.{DurationSpec, saturating_add, as_secs}
use time_bandits.Policy.{Policy, limit}
use time_bandits.Engine.{UsageSnapshot, policy_day_of}
use time_bandits.Engine.Access.{used_up}
use time_bandits.Usage.{Uuid}
use time_bandits.Store.Files.{Files}
use time_bandits.Store.Tables.{Tables, bonus_secs, add_bonus, i64_max}

module _ (j : Jiff) (policy : Policy) (now : Timestamp) (l : DurationSpec) where
  -- What the daily quota, with some bonus, and the weekly quota leave.
  abbrev pub quotas_leave : UsageSnapshot → DurationSpec → Bool
  quotas_leave usage bonus =
      ltb usage.used_today (saturating_add l bonus)
      && not (used_up (limit policy.weekly_quota) usage.used_this_week)

module _ (j : Jiff) (date_text : j.Date → Text) (is_alphabetic : ℕ → Bool) (files : Files)
    (tables : Tables) (user amount granted_by : Text) (d : DurationSpec) (new_id : Uuid)
    (at now : Timestamp) (policy : Policy) where
  abbrev granted_tables : Tables
  granted_tables =
      add_bonus j date_text tables user (policy_day_of j policy now) d granted_by new_id at

  -- The bonuses of the day with the new one.
  abbrev pub bonuses_with : ℕ
  bonuses_with =
      bonus_secs j date_text tables policy.subject (policy_day_of j policy now)
      + min (as_secs d) i64_max
