-- ===== src/Session/Focusing.antt =====
-- crates/tb-agent/src/state.rs, dbus.rs and idle.rs: what has focus, and for how long nothing happened.
use time_bandits.Base.{
  ℕ, ◌+◌, ◌-◌, ◌*◌, ◌/◌, Bool, false, not, Option, none, some, Text, ltb, if◌then◌else◌, map_option,
}
use time_bandits.Jiff.{nanos_per_sec}
use time_bandits.Policy.{is_empty}
use time_bandits.Agent.{Focus}
use time_bandits.AgentServer.Messages.{sanitized}
use time_bandits.Session.AgentState.{Instant, AgentState}

-- `FOCUS_FRESHNESS`, in nanoseconds.
abbrev pub focus_freshness : ℕ
focus_freshness = 300 * nanos_per_sec

unfoldable pub set_focus : AgentState → Focus → Instant → AgentState
set_focus s focus at = record s { focus = some (sanitized focus); focus_at = some at }

unfoldable pub focus_tracking : AgentState → Instant → Bool
focus_tracking s now = elim s.focus_at [ none ↦ false | some at ↦ ltb (now - at) focus_freshness ]

unfoldable pub focus_for_report : AgentState → Instant → Option Focus
unfolding focus_tracking
focus_for_report s now =
    if not (focus_tracking s now)
    then none
    else map_option
        (λ (f : Focus). if not s.daemon.record_titles then record f { title = none } else f) s.focus

-- A text that the compositor sends is not known when it is empty.
abbrev pub known : Text → Option Text
known s = if not (is_empty s) then some s else none

-- `report_focus` of the D-Bus interface.
unfoldable pub report_focus : AgentState → Text → Text → Text → Instant → AgentState
unfolding set_focus
report_focus s desktop_file resource_class title now =
    set_focus s
      (record {
        desktop_file = known desktop_file;
        resource_class = known resource_class;
        title = known title;
      })
      now

-- `IdleClock::idle_secs`, where the lock can be taken; ten seconds pass before the compositor speaks.
unfoldable pub idle_secs : Option Instant → Instant → ℕ
idle_secs since now = elim since [ none ↦ 0 | some at ↦ 10 + (now - at) / nanos_per_sec ]
