-- ===== src/Pam/Server.antt =====
-- crates/tb-daemon/src/pamserver.rs: `Responder::answer`. What the store and the group database
-- answer is the record `Answers` of the enforcement loop, which asks the same questions.
use time_bandits.Base.{
  ℕ, ◌-◌, ◌*◌, ◌/◌, ◌%◌, ◌+◌, Bool, false, ◌&&◌, not, Option, some, none, List, [], ◌∷◌, ◌++◌, Text,
  codes, ltb, leb, ◌==◌, if◌then◌else◌,
}
use time_bandits.Jiff.{
  Jiff, Timestamp, Time, Weekday, monday, tuesday, wednesday, thursday, friday, saturday, sunday,
  nanos_per_sec, secs_until,
}
use time_bandits.Engine.{
  DenyReason, daily_quota_exhausted, weekly_quota_exhausted, outside_allowed_window, Denial,
  allowed, denied, evaluate, zone_of,
}
use time_bandits.Ticker.State.{Answers, Effect, record_event, access_denied}
use time_bandits.Ticker.Decide.{is_managed}
use time_bandits.Pam.Protocol.{
  Reason, daily_quota, weekly_quota, outside_window, RetryAt, no_retry, Answer, answer_allow,
  answer_ignore, answer_deny, with_reason, with_retry_in,
}
use time_bandits.Pam.Texts.{english, deny_text}

-- `span.get_days()`: so many days ahead, or so many and one more behind.
pub data Days : Type 0 where
  ahead behind : ℕ → Days

abbrev pub is_no_day : Days → Bool
is_no_day (ahead n) = n == 0
is_no_day (behind _) = false

abbrev pub is_beyond_tomorrow : Days → Bool
is_beyond_tomorrow (ahead n) = ltb 1 n
is_beyond_tomorrow (behind _) = false

-- `{:02}` of an hour or a minute.
abbrev pub two_digits : ℕ → Text
two_digits n = (b'0' + n / 10 % 10) ∷ (b'0' + n % 10) ∷ []

abbrev pub clock_text : Time → Text
clock_text t =
    two_digits (t / (3600 * nanos_per_sec))
    ++ codes ":"
    ++ two_digits (t / (60 * nanos_per_sec) % 60)

-- `strftime("%A")`.
abbrev pub weekday_name : Weekday → Text
weekday_name monday = codes "Monday"
weekday_name tuesday = codes "Tuesday"
weekday_name wednesday = codes "Wednesday"
weekday_name thursday = codes "Thursday"
weekday_name friday = codes "Friday"
weekday_name saturday = codes "Saturday"
weekday_name sunday = codes "Sunday"

abbrev pub reason_of_denial : DenyReason → Reason
reason_of_denial daily_quota_exhausted = daily_quota
reason_of_denial weekly_quota_exhausted = weekly_quota
reason_of_denial outside_allowed_window = outside_window

-- Whole seconds, cut off towards zero; nothing where they are negative.
unfoldable pub seconds_until : Denial → Timestamp → Option ℕ
seconds_until denial now = elim denial.retry_at [
  | none ↦ none
  | some retry ↦
      if ltb retry now && leb nanos_per_sec (now - retry) then none else some (secs_until now retry)
]

-- `since` is `a.since(b)` of dates in days, which may fail; `local` is the zone of `now`.
module _ (j : Jiff) (since : j.Date → j.Date → Option Days) (local : j.TimeZone) where
  abbrev pub days_between : j.Date → j.Date → Days
  days_between a b = elim (since a b) [ none ↦ ahead 0 | some d ↦ d ]

  -- `deny_facts`, with the zone of `retry_at`.
  unfoldable pub deny_facts : Denial → j.TimeZone → Timestamp → Reason × RetryAt
  deny_facts denial tz now = (
    reason_of_denial denial.reason,
    elim denial.retry_at [
      | none ↦ no_retry
      | some at ↦
          let days = days_between (j.date_of tz at) (j.date_of local now) in
          record {
            clock = some (clock_text (j.time_of tz at));
            not_today = not (is_no_day days);
            weekday =
                if is_beyond_tomorrow days
                then some (weekday_name (j.weekday (j.date_of tz at)))
                else none;
          }
    ],
  )

  abbrev pub add_retry_in : Option ℕ → Answer → Answer
  add_retry_in none answer = answer
  add_retry_in (some secs) answer = with_retry_in answer secs

  -- The answer to a denial.
  unfoldable pub refuse : Denial → j.TimeZone → Timestamp → Answer
  unfolding deny_facts seconds_until answer_deny with_reason with_retry_in
  refuse denial tz now =
      let (reason, retry) = deny_facts denial tz now in
      add_retry_in (seconds_until denial now)
        (with_reason (answer_deny (deny_text reason retry english)) reason retry)

  -- `Responder::answer`; `lock_held` is whether the lock of the store was taken.
  unfoldable pub answer : Bool → Answers j → Timestamp → Answer × List Effect
  answer lock_held answers now =
      if answers.disabled
      then (answer_ignore, [])
      else if not lock_held
      then (answer_ignore, [])
      else elim answers.policy [
        | none ↦ (answer_ignore, [])
        | some none ↦ (answer_ignore, [])
        | some (some policy) ↦
            if not (is_managed answers.member) then (answer_ignore, []) else elim answers.snapshot [
              | none ↦ (answer_ignore, [])
              | some (snapshot, day) ↦ elim (evaluate j policy snapshot now) [
                | allowed a ↦ (answer_allow, [])
                | denied denial ↦
                    (refuse denial (zone_of j policy) now, record_event access_denied ∷ [])
              ]
            ]
      ]
