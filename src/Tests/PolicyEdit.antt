-- ===== src/Tests/PolicyEdit.antt =====
-- A parent changes the rules of a child.
use time_bandits.Base.{
  ◌*◌, ◌≡◌, refl, true, some, none, [], ◌∷◌, codes, arith, trim, is_whitespace, sort_by,
}
use time_bandits.Jiff.{nanos_per_sec}
use time_bandits.Duration.{from_hours}
use time_bandits.Schedule.{saturday, sunday, TimeWindow, get, set}
use time_bandits.Policy.{Policy, permissive, limited, validate, check_days, check_day, check_weekly}
use time_bandits.Store.Files.{Files, is_usable, read, load, save_policy}
use time_bandits.PolicyEdit.Edit.{PolicyEdit, push_window, set_quotas, set_windows, edited, apply}
use time_bandits.PolicyEdit.Accepted.{edit_takes_effect}
use time_bandits.Tests.{plain}

abbrev afternoon : TimeWindow
afternoon = record { start = 54000 * nanos_per_sec; end = 68400 * nanos_per_sec }

abbrev more_on_saturday : PolicyEdit
more_on_saturday = record {
  enforcement = some true;
  timezone = none;
  day_start = none;
  daily =
      record { day = none; quota = limited (from_hours 2) }
      ∷ record { day = some saturday; quota = limited (from_hours 3) }
      ∷ [];
  weekly = none;
  windows = record { day = sunday; window = afternoon } ∷ [];
  clear_windows = true;
  grace_period = none;
  idle_threshold = none;
  on_exhausted = none;
  record_window_titles = none;
  warnings = none;
}

abbrev old_rules : Policy
old_rules = permissive (codes "kid")

abbrev changed : Policy
changed = record (edited more_on_saturday old_rules) { version = 2 }

abbrev policy_files : Files
policy_files = record { owner = codes "kid"; content = some old_rules } ∷ []

edit_takes_effect_example :
    (files' : Files) × (save_policy plain (λ p. some (some p)) true policy_files changed
      ≡ some (true, files'))
    × (load plain files' (codes "kid") ≡ some (some changed))
unfolding load read is_usable apply edited validate check_days check_day check_weekly get set
    set_quotas set_windows push_window trim is_whitespace sort_by
edit_takes_effect_example =
    edit_takes_effect plain (λ p. some (some p)) policy_files (codes "kid") more_on_saturday
      old_rules changed refl refl (omega arith) refl
