-- ===== src/Tests/Daemon.antt =====
-- A daemon on the evening after two hours of use.
use time_bandits.Engine.{UsageSnapshot}
use time_bandits.Schedule.{PolicyDay}
use time_bandits.Store.Bonus.{counted, BonusFits, snapshot_fits}
use time_bandits.Store.Tables.{snapshot_with, bonus_secs}
use time_bandits.Base.{
  ℕ, ◌≡◌, refl, true, false, some, none, List, [], ◌∷◌, codes, decimal, arith, ◌=t◌, if◌then◌else◌,
  inl, inr, leb,
}
use time_bandits.Duration.{from_secs, as_secs, zero_duration}
use time_bandits.AppId.{unknown_app, unknown, unknown_observation}
use time_bandits.Schedule.{get, policy_day, policy_day_end}
use time_bandits.Engine.{evaluate, is_allowed, check_windows, check_quotas, daily_remaining}
use time_bandits.Usage.{Uuid, Tick, active, new_builder}
use time_bandits.Store.Tables.{Tables, SegmentRow, snapshot}
use time_bandits.Ticker.State.{ticker_config}
use time_bandits.Daemon.{
  Daemon, Event, reported, ticked, Reaches, here, next, step, Surroundings, round_interval,
}
use time_bandits.Daemon.Denied.{denied_stays_denied}
use time_bandits.Daemon.Spent.{spent_stays_spent}
use time_bandits.Daemon.Interval.{closed_by, no_interval_no_tick_records}
use time_bandits.Daemon.Users.{Lookups, IsGrouplist, user_in_group, user_in_group_lem}
use time_bandits.Tests.{plain, plain-IsLawful}
use time_bandits.Tests.AgentServer.{daemon, two_hours, asking, database, no_days, at_secs}

-- From 05:33 to 07:33 of the first day.
abbrev pub two_hours_row : SegmentRow
two_hours_row = record {
  id = 1;
  subject = codes "kid";
  app = unknown_app;
  source = unknown;
  start_ts = 20000;
  end_ts = 27200;
  title = none;
  synced = false;
}

abbrev pub spent_tables : Tables
spent_tables = record { segments = two_hours_row ∷ []; bonuses = []; events = [] }

abbrev pub evening : Daemon plain
evening = record { shared = record daemon { tables = spent_tables }; ticker = none }

abbrev surroundings : Surroundings plain
surroundings = record {
  connects = true;
  sessions = some [];
  subjects = some (codes "kid" ∷ []);
  answers = λ _. database;
}

abbrev asks_for_more : Event plain
asks_for_more = reported (codes "kid") (some asking) (at_secs 31000)

abbrev a_round : Event plain
a_round = ticked (from_secs 5) surroundings (λ _. true) (at_secs 31005)

abbrev later_that_evening : Daemon plain
later_that_evening =
    step plain decimal no_days tt a_round (step plain decimal no_days tt asks_for_more evening)

abbrev evening_counts : UsageSnapshot × PolicyDay plain
evening_counts = counted plain decimal evening.shared.tables two_hours (at_secs 30000)

evening_fits : BonusFits plain decimal evening.shared.tables two_hours (at_secs 30000)
unfolding bonus_secs
evening_fits = omega arith

evening_seen :
    snapshot plain decimal evening.shared.tables two_hours (at_secs 30000) ≡ some evening_counts
evening_seen =
    snapshot_fits plain decimal evening.shared.tables two_hours (at_secs 30000) evening_fits

later_Reaches : Reaches plain decimal no_days tt evening later_that_evening
later_Reaches =
    next (step plain decimal no_days tt asks_for_more evening) a_round
      (next evening asks_for_more here)

denied_stays_denied_example :
    (after : UsageSnapshot) × (day : PolicyDay plain) × (later_that_evening.shared.policies
      ≡ daemon.policies)
    × (snapshot plain decimal later_that_evening.shared.tables two_hours (at_secs 30000)
        ≡ some (after, day))
    × (is_allowed (evaluate plain two_hours after (at_secs 30000)) ≡ false)
unfolding counted snapshot_with bonus_secs evaluate snapshot check_windows get policy_day
    check_quotas daily_remaining policy_day_end
denied_stays_denied_example =
    denied_stays_denied plain decimal no_days tt evening later_that_evening two_hours
      (at_secs 30000) evening_counts.0 evening_counts.1 refl later_Reaches evening_seen refl

spent_stays_spent_example :
    (after : UsageSnapshot) × (day : PolicyDay plain) × (snapshot plain decimal
        later_that_evening.shared.tables two_hours
        (at_secs 60000)
      ≡ some (after, day))
    × (is_allowed (evaluate plain two_hours after (at_secs 60000)) ≡ false)
unfolding counted snapshot_with bonus_secs evaluate snapshot check_windows get policy_day
    check_quotas daily_remaining policy_day_end
spent_stays_spent_example =
    spent_stays_spent plain decimal no_days tt evening later_that_evening two_hours (at_secs 30000)
      (at_secs 60000) evening_counts.0 evening_counts.1 refl later_Reaches (ground arith) refl
      evening_seen (inl refl)

abbrev busy : List (Uuid × Tick)
busy =
    (1, active (at_secs 10) unknown_observation none)
    ∷ (2, active (at_secs 11) unknown_observation none)
    ∷ (3, active (at_secs 12) unknown_observation none)
    ∷ []

no_interval_no_tick_records_example :
    (as_secs (round_interval zero_duration) ≡ 1)
    × (closed_by plain (new_builder (codes "kid") (ticker_config zero_duration)) busy ≡ 0)
no_interval_no_tick_records_example =
    no_interval_no_tick_records plain plain-IsLawful (codes "kid") (at_secs 9) busy
      (inr (ground arith), (inr (ground arith), (inr (ground arith), tt)))

-- A user in three groups besides the primary one.
abbrev names : Lookups
names = record {
  getgrnam = λ group. if group =t codes "kids" then some 1001 else none;
  getpwnam = λ user. if user =t codes "kid" then some 100 else none;
  getgrouplist =
      λ user primary size. record { fits = leb 3 size; count = 3; buffer = 100 ∷ 1001 ∷ 5 ∷ [] };
}

names-IsGrouplist : (primary : ℕ) → IsGrouplist names (codes "kid") primary (100 ∷ 1001 ∷ 5 ∷ [])
names-IsGrouplist primary = record {
  counts = λ size. refl;
  says = λ size. refl;
  writes = λ size le. ([], refl);
}

user_in_group_lem_example : user_in_group names (codes "kid") (codes "kids") ≡ some true
user_in_group_lem_example =
    user_in_group_lem names (codes "kid") (codes "kids") (100 ∷ 1001 ∷ 5 ∷ []) refl (omega arith)
      (λ primary e. names-IsGrouplist primary)
