-- ===== src/Schedule.antt =====
-- crates/tb-core/src/schedule.rs: weekdays, time windows and the policy day.
pub mod Laws
use time_bandits.Base.{
  Bool, true, false, ◌&&◌, ◌||◌, Option, none, some, List, [], ◌∷◌, Text, codes, all, ltb, leb, not,
  is_some, if◌then◌else◌, unwrap_or,
}
use time_bandits.Jiff.{Jiff, Time, Timestamp, Weekday}

pub data Day : Type 0 where
  monday tuesday wednesday thursday friday saturday sunday : Day

-- `Day::ALL`.
abbrev pub all_days : List Day
all_days = monday ∷ tuesday ∷ wednesday ∷ thursday ∷ friday ∷ saturday ∷ sunday ∷ []

abbrev pub is_weekend : Day → Bool
is_weekend saturday = true
is_weekend sunday = true
is_weekend _ = false

-- `From<Weekday>`.
abbrev pub day_from : Weekday → Day
day_from Weekday.monday = monday
day_from Weekday.tuesday = tuesday
day_from Weekday.wednesday = wednesday
day_from Weekday.thursday = thursday
day_from Weekday.friday = friday
day_from Weekday.saturday = saturday
day_from Weekday.sunday = sunday

-- The text that `Display` pads.
abbrev pub day_text : Day → Text
day_text monday = codes "monday"
day_text tuesday = codes "tuesday"
day_text wednesday = codes "wednesday"
day_text thursday = codes "thursday"
day_text friday = codes "friday"
day_text saturday = codes "saturday"
day_text sunday = codes "sunday"

pub record DayOverrides {ℓ} (A : Type ℓ) : Type ℓ where
  pub on_monday : Option A
  pub on_tuesday : Option A
  pub on_wednesday : Option A
  pub on_thursday : Option A
  pub on_friday : Option A
  pub on_saturday : Option A
  pub on_sunday : Option A

-- `DayOverrides::empty`.
abbrev pub no_overrides {ℓ} : {A : Type ℓ} → DayOverrides A
no_overrides = record {
  on_monday = none;
  on_tuesday = none;
  on_wednesday = none;
  on_thursday = none;
  on_friday = none;
  on_saturday = none;
  on_sunday = none;
}

pub record WeekSchedule {ℓ} (A : Type ℓ) : Type ℓ where
  pub default_value : A
  pub overrides : DayOverrides A

-- `WeekSchedule::uniform`.
abbrev pub uniform {ℓ} : {A : Type ℓ} → A → WeekSchedule A
uniform default_value = record { default_value = default_value; overrides = no_overrides }

module _ {ℓ} {A : Type ℓ} where
  -- `DayOverrides::get` and `DayOverrides::set`.
  abbrev pub get_override : DayOverrides A → Day → Option A
  get_override o monday = o.on_monday
  get_override o tuesday = o.on_tuesday
  get_override o wednesday = o.on_wednesday
  get_override o thursday = o.on_thursday
  get_override o friday = o.on_friday
  get_override o saturday = o.on_saturday
  get_override o sunday = o.on_sunday

  abbrev pub set_override : DayOverrides A → Day → A → DayOverrides A
  set_override o monday v = record o { on_monday = some v }
  set_override o tuesday v = record o { on_tuesday = some v }
  set_override o wednesday v = record o { on_wednesday = some v }
  set_override o thursday v = record o { on_thursday = some v }
  set_override o friday v = record o { on_friday = some v }
  set_override o saturday v = record o { on_saturday = some v }
  set_override o sunday v = record o { on_sunday = some v }

  -- `DayOverrides::is_empty`.
  unfoldable pub overrides_empty : DayOverrides A → Bool
  overrides_empty o = all (λ d. not (is_some (get_override o d))) all_days

  -- `WeekSchedule::get` and `WeekSchedule::set`.
  unfoldable pub get : WeekSchedule A → Day → A
  get s day = unwrap_or (get_override s.overrides day) s.default_value

  unfoldable pub set : WeekSchedule A → Day → A → WeekSchedule A
  set s day v = record s { overrides = set_override s.overrides day v }

pub record TimeWindow : Type 0 where
  pub start : Time
  pub end : Time

-- `Time::midnight()` to `Time::MAX`, 23:59:59.999999999.
abbrev pub all_day : TimeWindow
all_day = record { start = 0; end = 86399999999999 }

abbrev pub wraps_midnight : TimeWindow → Bool
wraps_midnight w = ltb w.end w.start

unfoldable pub contains : TimeWindow → Time → Bool
contains w t =
    if wraps_midnight w then leb w.start t || ltb t w.end else leb w.start t && ltb t w.end

pub record PolicyDay (j : Jiff) : Type 0 where
  pub date : j.Date
  pub day : Day

module _ (j : Jiff) where
  abbrev pub day_of : j.Date → PolicyDay j
  day_of date = record { date = date; day = day_from (j.weekday date) }

  -- The moment `now` in the zone `tz`.
  unfoldable pub policy_day : j.TimeZone → Timestamp → Time → PolicyDay j
  policy_day tz now day_start =
      let today = j.date_of tz now in
      day_of
        (if ltb (j.time_of tz now) day_start then unwrap_or (j.yesterday today) today else today)

  unfoldable pub policy_day_end : PolicyDay j → Time → j.TimeZone → Timestamp
  policy_day_end day day_start tz =
      let next = unwrap_or (j.tomorrow day.date) day.date in
      unwrap_or (j.to_zoned next day_start tz)
        (unwrap_or (j.to_zoned next day_start j.utc) j.unix_epoch)
