-- ===== src/AgentServer/Outlook.antt =====
-- crates/tb-daemon/src/agentserver.rs: `outlook`, where today went and what the week holds.
use time_bandits.Base.{
  ℕ, zero, suc, ◌-◌, ◌&&◌, not, Option, none, List, [], ◌∷◌, map, all, sum, is_some, filter_map,
  map_option, unwrap_or, if◌then◌else◌,
}
use time_bandits.Jiff.{Jiff, Timestamp}
use time_bandits.Duration.{DurationSpec, as_secs}
use time_bandits.AppId.{AppId}
use time_bandits.Schedule.{Day, all_days, day_text, get, PolicyDay, day_of, policy_day_end}
use time_bandits.Policy.{Policy, limit}
use time_bandits.Usage.Totals.{totals_by_app}
use time_bandits.Engine.{week_start, zone_of, policy_day_of}
use time_bandits.Store.Tables.{Tables, usage_between}
use time_bandits.Store.Queries.{segments_between}
use time_bandits.AgentServer.Messages.{AppUsage, DayOutlook, BudgetKind, daily, weekly}

-- Every day is open and the week is limited, or something else.
unfoldable pub budget_kind_of : Policy → BudgetKind
budget_kind_of policy =
    if all (λ (d : Day). not (is_some (limit (get policy.daily_quota d)))) all_days
      && is_some (limit policy.weekly_quota)
    then weekly
    else daily

abbrev pub app_usage : AppId × DurationSpec → AppUsage
app_usage (id, d) = record { id = id; name = id; secs = as_secs d }

-- `Iterator::take`.
unfoldable pub take_apps : ℕ → List AppUsage → List AppUsage
take_apps zero xs = []
take_apps (suc n) [] = []
take_apps (suc n) (x ∷ xs) = x ∷ take_apps n xs

abbrev pub allowance_of : BudgetKind → Policy → Day → Option ℕ
allowance_of weekly policy day = none
allowance_of daily policy day = map_option as_secs (limit (get policy.daily_quota day))

module _ (j : Jiff) where
  -- The start of a policy day, as the end less one calendar day.
  abbrev pub day_bounds : Policy → PolicyDay j → Timestamp × Timestamp
  day_bounds policy pd =
      let end = policy_day_end j pd policy.day_start (zone_of j policy) in
      (unwrap_or (j.zoned_sub_days (zone_of j policy) end 1) end, end)

  unfoldable pub apps_today : Tables → Policy → Timestamp → List AppUsage
  unfolding take_apps
  apps_today tables policy now =
      let (start, end) = day_bounds policy (policy_day_of j policy now) in
      take_apps 6 (map app_usage (totals_by_app (segments_between tables policy.subject start now)))

  -- One day of the week; nothing where the calendar has no such date.
  unfoldable pub day_outlook : Tables → Policy → Timestamp → ℕ → Option DayOutlook
  unfolding budget_kind_of week_start
  day_outlook tables policy now offset =
      let today = policy_day_of j policy now in
      map_option
        (λ date.
          let pd = day_of j date in
          let (start, end) = day_bounds policy pd in
          record {
            weekday = day_text pd.day;
            allowance_secs = allowance_of (budget_kind_of policy) policy pd.day;
            used_secs = as_secs (usage_between tables policy.subject start end);
            today = j.date_eq date today.date;
            future = j.date_lt today.date date;
          })
        (j.date_add (week_start j today) offset)

  unfoldable pub week_outlook : Tables → Policy → Timestamp → List DayOutlook
  unfolding day_outlook
  week_outlook tables policy now =
      filter_map (day_outlook tables policy now) (0 ∷ 1 ∷ 2 ∷ 3 ∷ 4 ∷ 5 ∷ 6 ∷ [])

  unfoldable pub weekly_remaining : Policy → List DayOutlook → Option ℕ
  weekly_remaining policy week =
      map_option (λ l. as_secs l - sum (map (λ (d : DayOutlook). d.used_secs) week))
        (limit policy.weekly_quota)
