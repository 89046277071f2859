-- ===== src/Cli/Doctor.antt =====
-- crates/tb-cli/src/doctor.rs, and the command in main.rs: the checks of an installation, without the
-- texts that explain them.
use time_bandits.Base.{
  Bool, true, false, ◌&&◌, not, Option, none, some, List, [], ◌∷◌, ◌++◌, map, Text, codes, ◌=t◌,
  any, is_some, trim, keep, sort_by, text_le, if◌then◌else◌, find,
}
use time_bandits.Jiff.{Jiff}
use time_bandits.Policy.{Policy, validate, is_empty}
use time_bandits.Store.Files.{Files, File, starts_with_dot, load}
use time_bandits.Pam.Protocol.{Query, Answer, new_query, account}
use time_bandits.PamConf.Block.{ServiceSpec, managed}
use time_bandits.PamConf.Directory.{
  PamDir, Disk, ServiceState, configured, not_configured, missing, status_one,
}

pub data Level : Type 0 where
  ok warn fail : Level

pub record Check : Type 0 where
  pub name : Text
  pub level : Level

abbrev check : Text → Level → Check
check name level = record { name = name; level = level }

-- Where to look.
pub record Environment : Type 0 where
  pub pam : PamDir
  pub socket : Text
  pub database : Text
  pub disable_flag : Text
  pub managed_group : Text
  pub module_dirs : List Text

-- What the daemon's socket does with a connection and a question: whether it can be connected to,
-- whether the question can be sent, and the line that comes back, if one does.
pub record Peer : Type 0 where
  pub connects : Bool
  pub sends : Query → Bool
  pub line : Query → Option Text

-- What the checks see of the machine: which files exist, whether the PAM files can be read, who
-- listens at a socket, the reader of an answer, and `is_member`.
pub record Machine : Type 0 where
  pub exists : Text → Bool
  pub disk : Disk
  pub peer : Text → Peer
  pub parse_answer : Text → Option Answer
  pub is_member : Text → Text → Option Bool

-- The question about a user that every stack ignores.
abbrev probe_query : Query
probe_query = new_query (codes "root") (codes "tbctl-doctor") account

-- `probe`: whether an answer came that can be read.
unfoldable pub probe : Machine → Text → Bool
probe machine socket =
    let peer = machine.peer socket in
    if not peer.connects
    then false
    else if not (peer.sends probe_query)
    then false
    else elim (peer.line probe_query) [
      | none ↦ false
      | some line ↦ if is_empty (trim line) then false else is_some (machine.parse_answer line)
    ]

unfoldable pub check_disable_flag : Machine → Text → Check
check_disable_flag machine flag =
    check (codes "emergency override") (if machine.exists flag then warn else ok)

unfoldable pub check_module : Machine → List Text → Check
check_module machine dirs =
    check (codes "PAM module")
      (elim (find machine.exists (map (λ d. d ++ codes "/pam_timebandits.so") dirs)) [
        | some found ↦ ok
        | none ↦ fail
      ])

unfoldable pub check_daemon : Machine → Text → Check
unfolding probe
check_daemon machine socket =
    if not (machine.exists socket)
    then check (codes "daemon") fail
    else if probe machine socket
    then check (codes "daemon") ok
    else check (codes "daemon") fail

unfoldable pub check_database : Machine → Text → Check
check_database machine db = check (codes "database") (if machine.exists db then ok else warn)

abbrev pub state_level : ServiceState → Level
state_level configured = ok
state_level missing = ok
state_level not_configured = fail

abbrev is_not_configured : ServiceState → Bool
is_not_configured not_configured = true
is_not_configured _ = false

-- A state that takes reading a file.
abbrev is_present : ServiceState → Bool
is_present missing = false
is_present _ = true

-- `PamDir::status`: an error where a file cannot be read.
unfoldable pub status : Disk → PamDir → Option (List (ServiceSpec × ServiceState))
unfolding status_one
status disk dir =
    let states = map (λ spec. (spec, status_one dir spec)) managed in
    if not disk.reads && any (λ (s : ServiceSpec × ServiceState). is_present s.1) states
    then none
    else some states

abbrev check_of_service : ServiceSpec × ServiceState → Check
check_of_service (spec, state) = check (codes "pam.d/" ++ spec.service) (state_level state)

abbrev is_open_lock_screen : ServiceSpec × ServiceState → Bool
is_open_lock_screen (spec, state) = spec.service =t codes "kde" && is_not_configured state

unfoldable pub check_pam : Machine → PamDir → List Check
unfolding status
check_pam machine dir = elim (status machine.disk dir) [
  | none ↦ check (codes "PAM configuration") fail ∷ []
  | some states ↦
      map check_of_service states
      ++ (if any is_open_lock_screen states then check (codes "lock screen") fail ∷ [] else [])
]

module _ (j : Jiff) (machine : Machine) where
  -- One round of the loop over the policies.
  unfoldable pub check_policy : Text → Policy → Check
  check_policy managed_group p =
      let name = codes "policy/" ++ p.subject in
      if is_some (validate j p)
      then check name fail
      else if p.enforcement
      then elim (machine.is_member p.subject managed_group) [
        | some true ↦ check name ok
        | some false ↦ check name fail
        | none ↦ check name warn
      ]
      else check name warn

  unfoldable pub check_policies : Text → List Policy → List Check
  unfolding check_policy
  check_policies managed_group [] = check (codes "policies") warn ∷ []
  check_policies managed_group (p ∷ rest) = map (check_policy managed_group) (p ∷ rest)

  unfoldable pub run_with : Environment → List Policy → List Check
  unfolding check_disable_flag check_module check_daemon check_database check_pam check_policies
  run_with env policies =
      check_disable_flag machine env.disable_flag
      ∷ check_module machine env.module_dirs
      ∷ check_daemon machine env.socket
      ∷ check_database machine env.database
      ∷ (check_pam machine env.pam ++ check_policies env.managed_group policies)

-- The order of the levels.
abbrev pub worse : Level → Level → Level
worse ok b = b
worse warn ok = warn
worse warn b = b
worse fail b = fail

unfoldable pub worst : List Check → Level
worst [] = ok
worst (c ∷ cs) = worse c.level (worst cs)

-- `PolicyStore::subjects`: the names of the files without their ending.
unfoldable pub subjects : Files → List Text
subjects files =
    sort_by text_le
      (keep (λ s. not (is_empty s) && not (starts_with_dot s)) (map (λ (f : File). f.owner) files))

module _ (j : Jiff) (machine : Machine) where
  -- The loop of `doctor_command` over the subjects: the policies that load, and whether one is
  -- unreadable.
  unfoldable pub load_all : Files → List Text → List Policy × Bool
  load_all files [] = ([], false)
  load_all files (s ∷ rest) =
      let (policies, unreadable) = load_all files rest in
      elim (load j files s) [
        | some (some p) ↦ (p ∷ policies, unreadable)
        | some none ↦ (policies, unreadable)
        | none ↦ (policies, true)
      ]

  -- `doctor_command`: the worst level, which a policy that does not load makes the worst of all.
  unfoldable pub doctor_level : Environment → Files → Level
  unfolding run_with worst load_all subjects
  doctor_level env files =
      let (policies, unreadable) = load_all files (subjects files) in
      if unreadable then fail else worst (run_with j machine env policies)

-- Whether the exit code is that of success.
abbrev pub succeeds : Level → Bool
succeeds fail = false
succeeds _ = true
