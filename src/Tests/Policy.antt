-- ===== src/Tests/Policy.antt =====
-- Validation and warnings of concrete policies.
use time_bandits.Base.{◌∷◌, [], codes}
use time_bandits.Duration.{from_mins}
use time_bandits.Policy.{Policy, permissive}

abbrev unsorted : Policy
unsorted = record (permissive (codes "kid")) {
  warnings = from_mins 1 ∷ from_mins 15 ∷ from_mins 1 ∷ [];
}
