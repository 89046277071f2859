-- ===== src/Cli/Commands.antt =====
-- crates/tb-cli/src/main.rs: the commands on the store, and those on the PAM files. What is printed
-- is the facts that the texts are made from; nothing stands for an error.
use time_bandits.Base.{
  ℕ, ◌+◌, Bool, true, false, not, Option, none, some, List, [], ◌∷◌, ◌++◌, Text, codes, ◌=t◌,
  map_option, and_then, is_some, unwrap_or, if◌then◌else◌,
}
use time_bandits.Jiff.{Jiff, Timestamp}
use time_bandits.Duration.{DurationSpec}
use time_bandits.Duration.Parse.{from_str, refused, parsed}
use time_bandits.AppId.{AppId}
use time_bandits.Schedule.{PolicyDay, policy_day_end}
use time_bandits.Policy.{
  Policy, Quota, LockAction, lock, terminate, lock_then_terminate, unlimited, limited, permissive,
  validate,
}
use time_bandits.Engine.{UsageSnapshot, Verdict, evaluate, zone_of, monday_offset}
use time_bandits.Usage.{Uuid}
use time_bandits.Usage.Totals.{totals_by_app, total}
use time_bandits.Store.Files.{Files, is_usable, read, load, save_policy, remove}
use time_bandits.Store.Tables.{Tables, snapshot, add_bonus}
use time_bandits.Store.Queries.{segments_between}
use time_bandits.PolicyEdit.Parsing.{QuotaArg, WindowArg, parse_time, lowered}
use time_bandits.PolicyEdit.Edit.{PolicyEdit, apply, changes_nothing, next_version}
use time_bandits.PamConf.Directory.{PamDir, enable, disable}
use time_bandits.Daemon.Config.{Config, group_of}
use time_bandits.Cli.Doctor.{Machine, probe, status, subjects}

-- The options of the command line that name paths.
pub record Cli : Type 0 where
  pub database : Option Text
  pub policy_dir : Option Text

pub record Paths : Type 0 where
  pub database : Text
  pub policy_dir : Text
  pub managed_group : Text

-- `resolve`, with the configuration that was loaded, if it could be.
unfoldable pub resolve : Cli → Option Config → Option Paths
resolve cli cfg? =
    map_option
      (λ (cfg : Config). record {
        database = unwrap_or cli.database (cfg.state_dir ++ codes "/state.db");
        policy_dir = unwrap_or cli.policy_dir cfg.policy_dir;
        managed_group = group_of cfg;
      })
      cfg?

-- The arguments of `policy set`.
pub record EditArgs : Type 0 where
  pub enforcement : Option Bool
  pub timezone : Option Text
  pub day_start : Option Text
  pub daily : List QuotaArg
  pub weekly : Option Text
  pub window : List WindowArg
  pub clear_windows : Bool
  pub grace : Option DurationSpec
  pub idle : Option DurationSpec
  pub on_exhausted : Option Text
  pub record_titles : Option Bool

-- `map(f).transpose()`: nothing stays nothing, and what f refuses is an error.
abbrev transposed {ℓ κ} : {A : Type ℓ} {B : Type κ} → Option A → (A → Option B) → Option (Option B)
transposed none f = some none
transposed (some a) f = map_option some (f a)

abbrev action_of : Text → LockAction
action_of a =
    if a =t codes "terminate"
    then terminate
    else if a =t codes "lock_then_terminate"
    then lock_then_terminate
    else lock

module _ (is_alphabetic : ℕ → Bool) where
  abbrev weekly_of : Text → Option Quota
  weekly_of w =
      if lowered w =t codes "unlimited"
      then some unlimited
      else elim (from_str is_alphabetic w) [ refused e ↦ none | parsed d ↦ some (limited d) ]

  -- `EditArgs::into_edit`.
  unfoldable pub into_edit : EditArgs → Option PolicyEdit
  into_edit args = and_then (transposed args.day_start parse_time) (λ day_start.
      map_option
        (λ weekly. record {
          enforcement = args.enforcement;
          timezone = args.timezone;
          day_start = day_start;
          daily = args.daily;
          weekly = weekly;
          windows = args.window;
          clear_windows = args.clear_windows;
          grace_period = args.grace;
          idle_threshold = args.idle;
          on_exhausted = map_option action_of args.on_exhausted;
          record_window_titles = args.record_titles;
          warnings = none;
        })
        (transposed args.weekly weekly_of))

-- What a report on a user is made from.
pub record Status (j : Jiff) : Type 0 where
  pub policy : Policy
  pub usage : UsageSnapshot
  pub verdict : Verdict
  pub day : PolicyDay j

-- What a report on the applications is made from.
pub record UsageReport : Type 0 where
  pub from : Timestamp
  pub totals : List (AppId × DurationSpec)
  pub total_time : DurationSpec

module _ (j : Jiff) (date_text : j.Date → Text) where
  -- `load_policy`: a user without a policy is an error here.
  abbrev pub load_policy : Files → Text → Option Policy
  load_policy files user = and_then (load j files user) (λ p. p)

  abbrev pub subjects_or : Files → Option Text → List Text
  subjects_or files (some u) = u ∷ []
  subjects_or files none = subjects files

  abbrev pub status_with : Policy → Timestamp → UsageSnapshot × PolicyDay j → Status j
  status_with policy now (usage, day) = record {
    policy = policy;
    usage = usage;
    verdict = evaluate j policy usage now;
    day = day;
  }

  -- What `status` and `grant_bonus` print of a user; nothing where the store gives no snapshot.
  unfoldable pub status_of : Tables → Policy → Timestamp → Option (Status j)
  status_of tables policy now =
      map_option (status_with policy now) (snapshot j date_text tables policy now)

  -- The loop of `status`: what was printed, and whether no user was missing.
  unfoldable pub status_each : Files → Tables → Timestamp → List Text → List (Status j) × Bool
  unfolding status_of
  status_each files tables now [] = ([], true)
  status_each files tables now (s ∷ rest) =
      let (later, fine) = status_each files tables now rest in
      elim (load_policy files s) [
        | none ↦ ([], false)
        | some policy ↦ elim (status_of tables policy now) [
          | none ↦ ([], false)
          | some status ↦ (status ∷ later, fine)
        ]
      ]

  -- The begin of the period of `usage`.
  unfoldable pub usage_from : Policy → Bool → PolicyDay j → Timestamp
  usage_from policy week day =
      let tz = zone_of j policy in
      let end = policy_day_end j day policy.day_start tz in
      let days_back = if week then monday_offset (j.weekday day.date) + 1 else 1 in
      unwrap_or (j.zoned_sub_days tz end days_back) end

  unfoldable pub usage : Files → Tables → Text → Bool → Timestamp → Option UsageReport
  unfolding usage_from segments_between totals_by_app total
  usage files tables user week now = and_then (load_policy files user) (λ policy.
      map_option
        (λ (_, day).
          let start = usage_from policy week day in
          let segments = segments_between tables user start now in
          record { from = start; totals = totals_by_app segments; total_time = total segments })
        (snapshot j date_text tables policy now))

  -- `grant_bonus`: the tables afterwards, and the report unless it fails. `writable` is whether the database takes the
  -- bonus; `new_id` and `at` are those of `add_bonus`.
  unfoldable pub grant_bonus :
      (ℕ → Bool)
      → Bool
      → Files
      → Tables
      → Text
      → Text
      → Text
      → Uuid
      → Timestamp
      → Timestamp
      → Tables × Option (Status j)
  unfolding status_of
  grant_bonus is_alphabetic writable files tables user amount granted_by new_id at now =
      elim (from_str is_alphabetic amount) [
        | refused e ↦ (tables, none)
        | parsed d ↦ elim (load_policy files user) [
          | none ↦ (tables, none)
          | some policy ↦ elim (snapshot j date_text tables policy now) [
            | none ↦ (tables, none)
            | some (_, day) ↦
                let after = add_bonus j date_text tables user day d granted_by new_id at in
                if writable then (after, status_of after policy now) else (tables, none)
          ]
        ]
      ]

module _ (j : Jiff) (reread : Policy → Option (Option Policy)) (is_alphabetic : ℕ → Bool) where
  -- `policy set`: the policy that was written, if one was, and the files.
  unfoldable pub policy_set : Bool → Files → Text → EditArgs → Option Policy × Files
  unfolding into_edit
  policy_set writable files user args = elim (into_edit is_alphabetic args) [
    | none ↦ (none, files)
    | some edit ↦ if changes_nothing edit then (none, files) else elim (load j files user) [
      | none ↦ (none, files)
      | some existing ↦ elim (apply j edit (unwrap_or existing (permissive user))) [
        | none ↦ (none, files)
        | some updated ↦ elim (save_policy j reread writable files updated) [
          | none ↦ (none, files)
          | some (false, files') ↦ (none, files')
          | some (true, files') ↦ (some updated, files')
        ]
      ]
    ]
  ]

module _ (j : Jiff) (reread : Policy → Option (Option Policy)) where
  -- `policy import`, with what the file reads as; whether the policy was written is not looked at.
  unfoldable pub policy_import : Bool → Files → Text → Option Policy → Option Policy × Files
  policy_import writable files user none = (none, files)
  policy_import writable files user (some policy) =
      if not (policy.subject =t user)
      then (none, files)
      else if is_some (validate j policy)
      then (none, files)
      else elim (load j files user) [
        | none ↦ (none, files)
        | some existing ↦
            let current = elim existing as (λ _. ℕ) [ none ↦ 0 | some p ↦ p.version ] in
            let numbered = record policy { version = next_version current } in
            elim (save_policy j reread writable files numbered) [
              | none ↦ (none, files)
              | some (_, files') ↦ (some numbered, files')
            ]
      ]

-- `policy remove`: whether there was something to remove.
unfoldable pub policy_remove : Bool → Files → Text → Bool → Option Bool × Files
policy_remove removable files user confirmed =
    if not confirmed then (none, files) else elim (remove removable files user) [
      | none ↦ (none, files)
      | some (there, files') ↦ (some there, files')
    ]

-- `policy path`: whether it succeeds.
unfoldable pub policy_path : Files → Text → Bool
policy_path files user = if is_usable user then is_some (read files user) else false

-- `pam_dir`: the vendor directory that is looked at.
unfoldable pub vendor_for : Text → Option Text → Option Text
vendor_for root (some v) = some v
vendor_for root none = if root =t codes "/etc/pam.d" then some (codes "/usr/lib/pam.d") else none

-- The commands under `tbctl pam`, for the directory that `pam_dir` makes.
pub data PamCommand : Type 0 where
  pam_enable pam_disable : Bool → PamCommand
  pam_probe : Text → PamCommand
  pam_status : PamCommand

-- `pam_command`: whether it succeeds, and the directory.
unfoldable pub pam_command : Machine → PamCommand → PamDir → Bool × PamDir
pam_command machine (pam_enable dry_run) dir =
    let (changes, dir') = enable machine.disk dry_run dir in (is_some changes, dir')
pam_command machine (pam_disable dry_run) dir =
    let (changes, dir') = disable machine.disk dry_run dir in (is_some changes, dir')
pam_command machine (pam_probe socket) dir = (probe machine socket, dir)
pam_command machine pam_status dir = (is_some (status machine.disk dir), dir)
