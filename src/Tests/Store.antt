-- ===== src/Tests/Store.antt =====
-- The tables and the policy files with a few rows.
use time_bandits.Base.{
  ℕ, ◌*◌, ◌+◌, map, ◌∷◌, ◌≡◌, ◌≤◌, refl, true, none, some, [], ◌∷◌, codes, arith, Text, trim,
  is_whitespace,
}
use time_bandits.Jiff.{Timestamp, nanos_per_sec}
use time_bandits.AppId.{unknown, unknown_app}
use time_bandits.Schedule.{get, policy_day, policy_day_end}
use time_bandits.Policy.{Policy, permissive, validate, check_days, check_day, check_weekly}
use time_bandits.Usage.{UsageSegment}
use time_bandits.Store.Tables.{Tables, segment_row, usage_between, insert_segment, usage_secs}
use time_bandits.Engine.{week_start}
use time_bandits.Store.Files.{Files, is_usable, read, load, save_policy, files_after}
use time_bandits.Store.Versions.{save_policy-version}
use time_bandits.Store.Adoption.{adopt, adopt_keeps, adopt_replaces_broken}
use time_bandits.Store.Usage.{insert_all}
use time_bandits.Store.Order.{snapshot-order}
use time_bandits.Store.Tables.{snapshot, snapshot_with}
use time_bandits.Tests.{plain}
use mathlib.Core.List.{Permᴰ}

abbrev segment : ℕ → ℕ → ℕ → UsageSegment
segment id from to = record {
  id = id;
  subject = codes "kid";
  app = unknown_app;
  source = unknown;
  start = from * nanos_per_sec;
  end = to * nanos_per_sec;
  title = none;
}

abbrev stored : Tables
stored = record { segments = segment_row (segment 1 100 400) ∷ []; bonuses = []; events = [] }

abbrev at : ℕ → Timestamp
at secs = secs * nanos_per_sec

abbrev date_text : ℕ → Text
date_text date = date ∷ []

abbrev on_disk : Files
on_disk = record { owner = codes "kid"; content = some (permissive (codes "kid")) } ∷ []

abbrev newer : Policy
newer = record (permissive (codes "kid")) { version = 2 }

save_policy-version_example :
    (later : Policy) × (load plain
        (files_after on_disk (save_policy plain (λ p. some (some p)) true on_disk newer))
        (codes "kid")
      ≡ some (some later))
    × (1 ≤ later.version)
unfolding load is_usable read validate trim is_whitespace check_days check_day get check_weekly
save_policy-version_example =
    save_policy-version plain (λ p. some (some p)) true on_disk newer (codes "kid")
      (permissive (codes "kid")) refl refl

abbrev old_rules : Policy
old_rules = record (permissive (codes "kid")) { version = 7 }

adopt_keeps_example :
    load plain
      (adopt plain
        (λ p. some (some p))
        true
        (record { owner = codes "sister"; content = some (permissive (codes "sister")) } ∷ [])
        (record { subject = codes "kid"; policy = some old_rules } ∷ [])).1
      (codes "sister")
    ≡ some (some (permissive (codes "sister")))
unfolding load read is_usable validate check_days check_day check_weekly get trim is_whitespace
adopt_keeps_example =
    adopt_keeps plain (λ p. some (some p))
      (record { subject = codes "kid"; policy = some old_rules } ∷ []) true
      (record { owner = codes "sister"; content = some (permissive (codes "sister")) } ∷ [])
      (codes "sister") (permissive (codes "sister")) ((λ policy e. ground arith), tt) refl

adopt_replaces_broken_example :
    load plain
      (adopt plain
        (λ p. some (some p))
        true
        (record { owner = codes "kid"; content = none } ∷ [])
        (record { subject = codes "kid"; policy = some old_rules } ∷ [])).1
      (codes "kid")
    ≡ some (some old_rules)
unfolding load read is_usable validate check_days check_day check_weekly get trim is_whitespace
adopt_replaces_broken_example =
    adopt_replaces_broken plain (λ p. some (some p))
      (record { owner = codes "kid"; content = none } ∷ [])
      (record { subject = codes "kid"; policy = some old_rules }) old_rules refl refl refl refl refl
      refl

abbrev sent : ℕ → UsageSegment
sent id = segment id (id * 500 + 20000) (id * 500 + 20300)

abbrev kid_policy : Policy
kid_policy = permissive (codes "kid")

-- The second segment is sent twice, before and after the third.
snapshot-order_example :
    snapshot plain date_text (insert_all stored (map sent (2 ∷ 3 ∷ 2 ∷ []))) kid_policy (at 30000)
    ≡ snapshot plain date_text (insert_all stored (map sent (3 ∷ 2 ∷ []))) kid_policy (at 30000)
snapshot-order_example =
    snapshot-order plain date_text sent stored (3 ∷ 2 ∷ []) (2 ∷ []) (2 ∷ 3 ∷ 2 ∷ []) kid_policy
      (at 30000) (λ id. refl) refl (Permᴰ.swap refl refl)

late_segments_count :
    (snapshot_with plain date_text
      (insert_all stored (map sent (2 ∷ 3 ∷ 2 ∷ [])))
      kid_policy
      (at 30000)
      0).0.used_today
    ≡ at 600
unfolding snapshot_with insert_all usage_between insert_segment usage_secs week_start policy_day_end
    policy_day
late_segments_count = refl
