-- ===== src/Lib.antt =====
-- Time Bandits: screen-time limits for managed accounts on a Linux machine (crates/).
--
-- The program's parts. A daemon (crates/tb-daemon) looks at every managed user a few times a minute.
-- It turns what systemd-logind and a session agent say into usage segments (tb-core/src/usage.rs),
-- stores them, asks the decision engine (tb-core/src/engine.rs) for a verdict on the user's policy
-- (tb-core/src/policy.rs, schedule.rs), and warns, locks or ends sessions (tb-daemon/src/tick.rs). A
-- PAM module refuses the next login. In each session an agent (crates/tb-agent) reports to the daemon
-- and tells the child how it stands; a tool (crates/tb-cli) writes the module into the PAM files. The
-- model covers the core crate, the daemon with its loop, its store and its servers, the check at login,
-- the agent, the commands of the tool, and the passwords and tokens of a household server (crates/tb-hub).
-- The daemon's threads share a store behind a lock; Daemon composes what they do, one event after the other.
--
-- Modules and files of the repository:
-- Base: tests on numbers, lists, texts, sorting; Rust's standard library as far as it is used.
-- Jiff: the date and time library jiff as an interface, with its documented laws as `IsLawful`.
-- Duration: crates/tb-core/src/duration.rs, the arithmetic of `DurationSpec`, with Parse (`FromStr`)
-- and Print (`Display`).
-- AppId: crates/tb-core/src/appid.rs, `AppId::new` (`new_app`) and `observe_window`; Trimming is about
-- its loop, Units models `unescape_unit` and `app_id_from_unit`, Unescaping is about the former.
-- Schedule: crates/tb-core/src/schedule.rs; the fields of `DayOverrides` are named `on_monday` etc.
-- Policy: crates/tb-core/src/policy.rs; `validate` returns the error, `none` for `Ok(())`.
-- Windows: `concrete_windows` and `upcoming_windows` of crates/tb-core/src/engine.rs.
-- Engine: `evaluate` and the verdicts of crates/tb-core/src/engine.rs.
-- Usage: crates/tb-core/src/usage.rs; `&mut self` becomes a result with the new builder.
-- Agent: `Report` of crates/tb-proto/src/agent.rs, `AgentReports` of tb-daemon/src/agentserver.rs.
-- Logind: `SessionInfo` of crates/tb-daemon/src/logind.rs.
-- Ticker: crates/tb-daemon/src/tick.rs: State (`UserState`, effects, answers), Observe (`build_tick`
-- and the segment builder), Decide (the gates and `apply_verdict`), Warnings (the allowed branch),
-- Enforce (the escalation), User (`tick_user`), Loop (`tick` over the users, and `flush`).
-- Pam: the check at login: Protocol (crates/tb-proto/src/pam.rs), Texts (crates/tb-proto/src/text.rs),
-- Server (`Responder::answer` of crates/tb-daemon/src/pamserver.rs), Module and Options (crates/tb-pam/src/decide.rs,
-- and the entry points of lib.rs); Login and Agreement are about what they decide together.
-- Store: Tables (crates/tb-daemon/src/store.rs), Files (crates/tb-daemon/src/policystore.rs and
-- `save_policy`), Queries (`last_event_at`, `event_count` and `segments_between`),
-- Adoption (`adopt_policies_from_database`); Order is about segments that arrive in another order.
-- AgentServer: crates/tb-daemon/src/agentserver.rs: Messages (the answer, from tb-proto/src/agent.rs),
-- Outlook (`outlook`), Receiver (`accept`, `record_request`, `state_for` and `handle`).
-- Session: crates/tb-agent: AgentState (src/state.rs), Focusing (what has focus, and the idle clock of
-- src/idle.rs), Round (`report_once` and the button of src/main.rs), Bus (the properties of src/dbus.rs),
-- Notices (src/notify.rs and `deliver`).
-- PamConf: crates/tb-cli/src/pamconf.rs: Lines (`str::lines`), Block (`block`, `insert_block` and
-- `remove_block`), Directory (`PamDir` with `enable` and `disable`).
-- PolicyEdit: crates/tb-cli/src/policyedit.rs: Parsing (the arguments), Edit (`PolicyEdit::apply`).
-- Daemon: crates/tb-daemon/src/main.rs, the rounds of `run_ticks`, and the whole daemon as a step relation
-- (`Event`, `step`, `Reaches`); Config (src/config.rs), Users (src/users.rs); Ordered, Rounds, Keeping,
-- Denied and Spent are about what its events do to the store, Interval about the tick interval.
-- Cli: crates/tb-cli: Commands (src/main.rs), Doctor (src/doctor.rs), Layout (src/report.rs); Checked,
-- Granting, Importing and Reporting are about what the commands bring about.
-- Hub: crates/tb-hub/src/auth.rs; Digests and Passwords.
-- Tests: a plain calendar, and the results at concrete inputs.
--
-- Conventions. A `Timestamp` is a number of nanoseconds from the first instant of jiff; a `Zoned` is
-- such an instant beside its zone, which the functions take as an argument; `duration_until` in whole
-- seconds is `secs_until`. A `DurationSpec` is a number of nanoseconds, saturating at `Duration::MAX`.
-- Products of `u64` wrap, as in a release build; a sum of bonuses beyond an `i64`
-- is an error of the database, and other sums of seconds are taken to fit. A text is the list
-- of its scalar values. A hash map is the list of its entries. What a tick asks of the login manager,
-- the notifier and the store is a list of effects; what the store answers is a record, in which any
-- call may have failed. A call of `lock` or `terminate` that fails is only logged by the program, so
-- the effect is the request. No definition needs fuel but `strip_all`, whose fuel is the length of
-- the text: each round removes at least one character, and `show_digits`, whose fuel is the twenty
-- digits that a `u64` has at most. The state that the daemon shares among connections is a record with the
-- reports, the tables and whether the lock is held and the database answers; a directory of PAM files
-- is a record of texts by service, and a second record says which calls of the file system succeed.
-- An application read back from the store is normalised by `new_app` once more, as the code does.
--
-- A daemon's event is what one thread or server does while it holds the lock of the store; whether the
-- database takes a statement is an argument of the event. Lookups of users and groups, the TOML reader
-- and writer, hash functions, the socket of the daemon and `str::to_lowercase` are arguments.
--
-- Not modelled: SQLite and its errors other than a sum that overflows, directories and file permissions, the sockets, D-Bus, Wayland and
-- libpam, signals and logging; clap and the texts of `tbctl status` and `tbctl policy show`; the household
-- server beyond its passwords and tokens, which is not written yet; the front ends; serde encodings and the
-- padding of printed texts.
pub mod Base
pub mod Daemon
pub mod Cli
pub mod Hub
pub mod Jiff
pub mod Duration
pub mod AppId
pub mod Usage
pub mod Schedule
pub mod Policy
pub mod Windows
pub mod Engine
mod Tests
pub mod Logind
pub mod Agent
pub mod Ticker
pub mod Pam
pub mod Store
pub mod PamConf
pub mod AgentServer
pub mod Session
pub mod PolicyEdit
