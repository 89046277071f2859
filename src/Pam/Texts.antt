-- ===== src/Pam/Texts.antt =====
-- crates/tb-proto/src/text.rs: the sentence for a refusal, in the two languages.
use time_bandits.Base.{
  ℕ, ◌+◌, ◌/◌, Bool, true, false, ◌||◌, List, [], ◌∷◌, map, ltb, ◌==◌, decimal, Option, some, none,
  Text, codes, ◌++◌, ◌=t◌, if◌then◌else◌,
}
use time_bandits.AppId.{ascii_lower}
use time_bandits.Pam.Protocol.{
  Reason, daily_quota, weekly_quota, outside_window, service_unavailable, RetryAt,
}

pub data Locale : Type 0 where
  english german : Locale

abbrev german_weekday : Text → Text
german_weekday day =
    if day =t codes "Monday"
    then codes "Montag"
    else if day =t codes "Tuesday"
    then codes "Dienstag"
    else if day =t codes "Wednesday"
    then codes "Mittwoch"
    else if day =t codes "Thursday"
    then codes "Donnerstag"
    else if day =t codes "Friday"
    then codes "Freitag"
    else if day =t codes "Saturday"
    then codes "Samstag"
    else if day =t codes "Sunday"
    then codes "Sonntag"
    else day

-- `Locale::weekday`.
unfoldable pub weekday_in : Locale → Text → Text
weekday_in english day = day
weekday_in german day = german_weekday day

-- The first part of the sentence; nothing where the sentence does not depend on the time.
unfoldable pub head_text : Reason → Locale → Option Text
head_text daily_quota english = some (codes "Screen time for today is used up")
head_text daily_quota german = some (codes "Die Bildschirmzeit für heute ist aufgebraucht")
head_text weekly_quota english = some (codes "Screen time for this week is used up")
head_text weekly_quota german = some (codes "Die Bildschirmzeit für diese Woche ist aufgebraucht")
head_text outside_window english = some (codes "Computer time is over for now")
head_text outside_window german = some (codes "Die Computerzeit ist für jetzt vorbei")
head_text service_unavailable _ = none

unfoldable pub unavailable_text : Locale → Text
unavailable_text english = codes "The screen time service is unavailable. Please ask a parent."
unavailable_text german =
    codes "Der Bildschirmzeit-Dienst ist nicht erreichbar. Bitte frag deine Eltern."

unfoldable pub when_text : Option Text → Bool → Locale → Text → Text
unfolding weekday_in
when_text (some day) _ locale clock = weekday_in locale day ++ codes " " ++ clock
when_text none true english clock = codes "tomorrow at " ++ clock
when_text none true german clock = codes "morgen um " ++ clock
when_text none false english clock = codes "at " ++ clock
when_text none false german clock = codes "um " ++ clock

abbrev again_text : Locale → Text
again_text english = codes ". Available again "
again_text german = codes ". Wieder verfügbar "

unfoldable pub deny_text : Reason → RetryAt → Locale → Text
unfolding head_text unavailable_text when_text
deny_text reason retry locale = elim (head_text reason locale) [
  | none ↦ unavailable_text locale
  | some head ↦ elim retry.clock [
    | none ↦ head ++ codes "."
    | some clock ↦
        head
        ++ again_text locale
        ++ when_text retry.weekday retry.not_today locale clock
        ++ codes "."
  ]
]

-- `split(['_', '-', '.', '@']).next()`.
unfoldable pub language_of : Text → Text
language_of [] = []
language_of (c ∷ cs) =
    let rest = language_of cs in
    if c == b'_' || c == b'-' || c == b'.' || c == b'@' then [] else c ∷ rest

-- `Locale::from_tag`.
unfoldable pub from_tag : Text → Locale
unfolding language_of
from_tag tag = if map ascii_lower (language_of tag) =t codes "de" then german else english

-- `Locale::from_env`, on what the three variables hold, in their order.
unfoldable pub from_env : List (Option Text) → Locale
unfolding from_tag
from_env [] = english
from_env (none ∷ rest) = from_env rest
from_env (some [] ∷ rest) = from_env rest
from_env (some (c ∷ cs) ∷ rest) = from_tag (c ∷ cs)

abbrev minutes_text : ℕ → Locale → Text
minutes_text m english =
    if ltb m 2
    then codes "One minute left. Time to save what you're doing."
    else decimal m ++ codes " minutes left. Good moment to save what you're doing."
minutes_text m german =
    if ltb m 2
    then codes "Noch eine Minute. Zeit zu speichern."
    else codes "Noch " ++ decimal m ++ codes " Minuten. Guter Moment zum Speichern."

-- The minutes are rounded up.
unfoldable pub warning_text : ℕ → Locale → Text
warning_text remaining_secs locale = minutes_text ((remaining_secs + 59) / 60) locale
