-- ===== src/AgentServer/Grants.antt =====
-- crates/tb-daemon/src/agentserver.rs: what a report changes, and for whom.
use time_bandits.Base.{
  ◌≡◌, refl, ap, ◌∙◌, false, ◌&&◌, Option, none, some, [], ◌∷◌, Text, ◌=t◌, text-eq, leb, arith,
  if_elim, Bool-cases, Option-cases, inl, inr,
}
use time_bandits.Jiff.{Jiff, Timestamp}
use time_bandits.Policy.{Policy}
use time_bandits.Agent.{Report, AgentReports, find_report, record_report}
use time_bandits.Store.Tables.{snapshot, snapshot_with, record_event_at, usage_between, bonus_secs}
use time_bandits.Store.Bonus.{snapshot_same}
use time_bandits.Pam.Server.{Days}
use time_bandits.AgentServer.Messages.{State, agent_version}
use time_bandits.AgentServer.Receiver.{Shared, record_request, accept, handle}

-- The same usage, bonuses and policies.
abbrev pub SameRights : Shared → Shared → Type 0
SameRights a b =
    (a.tables.segments ≡ b.tables.segments)
    × (a.tables.bonuses ≡ b.tables.bonuses)
    × (a.policies ≡ b.policies)

record_request-SameRights :
    (shared : Shared) (subject : Text) (now : Timestamp)
    → SameRights (record_request shared subject now) shared
unfolding record_request record_event_at
record_request-SameRights shared subject now = (ground arith, ground arith, ground arith)

record_request-reports :
    (shared : Shared) (subject : Text) (now : Timestamp)
    → (record_request shared subject now).reports ≡ shared.reports
unfolding record_request
record_request-reports shared subject now = ground arith

find_report-record_report :
    (reports : AgentReports) (subject other : Text) (report : Report) (at : Timestamp)
    → (subject =t other) ≡ false
    → find_report other (record_report reports subject report at) ≡ find_report other reports
unfolding record_report
find_report-record_report [] subject other report at h = ground arith
find_report-record_report ((user, o) ∷ rest) subject other report at h =
    let later = find_report-record_report rest subject other report at h in
    let same = text-eq user subject in
    elim (Bool-cases (user =t subject)) [
      | inl e ↦ let eq = same e in ground arith
      | inr e ↦ ground arith
    ]

module _ (j : Jiff) (date_text : j.Date → Text) (since : j.Date → j.Date → Option Days)
    (local : j.TimeZone) where
  accept-SameRights :
      (shared : Shared) (subject : Text) (report : Report) (now : Timestamp)
      → SameRights (accept j date_text since local shared subject report now).1 shared
  unfolding accept
  accept-SameRights shared subject report now =
      let (s, b, p) = record_request-SameRights shared subject now in
      elim (Option-cases report.request_minutes) [
        | inl e ↦ rw (e) (refl, refl, refl)
        | inr (n, e) ↦ rw (e) (s, b, p)
      ]

  pub handle-SameRights :
      (shared : Shared) (subject : Text) (message : Option Report) (now : Timestamp)
      → SameRights (handle j date_text since local shared subject message now).1 shared
  unfolding handle
  handle-SameRights shared subject none now = (refl, refl, refl)
  handle-SameRights shared subject (some report) now =
      if_elim (λ (r : State × Shared). SameRights r.1 shared)
        (leb report.v agent_version && leb agent_version report.v) _ _
        (λ _. accept-SameRights shared subject report now) (λ _. (refl, refl, refl))

  accept-others :
      (shared : Shared) (subject : Text) (report : Report) (now : Timestamp) (other : Text)
      → (subject =t other) ≡ false
      → find_report other (accept j date_text since local shared subject report now).1.reports
        ≡ find_report other shared.reports
  unfolding accept
  accept-others shared subject report now other h = elim (Option-cases report.request_minutes) [
    | inl e ↦ rw (e) (find_report-record_report shared.reports subject other _ now h)
    | inr (n, e) ↦ rw (e) (
        find_report-record_report (record_request shared subject now).reports subject other _ now h
        ∙ ap (find_report other) (record_request-reports shared subject now))
  ]

  handle-others :
      (shared : Shared) (subject : Text) (message : Option Report) (now : Timestamp) (other : Text)
      → (subject =t other) ≡ false
      → find_report other (handle j date_text since local shared subject message now).1.reports
        ≡ find_report other shared.reports
  unfolding handle
  handle-others shared subject none now other h = refl
  handle-others shared subject (some report) now other h =
      if_elim
        (λ (r : State × Shared). find_report other r.1.reports ≡ find_report other shared.reports)
        (leb report.v agent_version && leb agent_version report.v) _ _
        (λ _. accept-others shared subject report now other h) (λ _. refl)

  -- Whatever an agent sends, every user's usage and bonus of the day are as before for every policy,
  -- the policies are as before, and so is the latest report of every other user.
  pub handle_grants_nothing :
      (shared : Shared) (subject : Text) (message : Option Report) (now : Timestamp)
      (policy : Policy) (later : Timestamp) (other : Text)
      → (subject =t other) ≡ false
      → let after = (handle j date_text since local shared subject message now).1 in
        (snapshot j date_text after.tables policy later
          ≡ snapshot j date_text shared.tables policy later)
        × (after.policies ≡ shared.policies)
        × (find_report other after.reports ≡ find_report other shared.reports)
  unfolding snapshot_with usage_between bonus_secs
  handle_grants_nothing shared subject message now policy later other h =
      let (s, b, p) = handle-SameRights shared subject message now in
      (
        snapshot_same j date_text
            (handle j date_text since local shared subject message now).1.tables shared.tables
            policy later (λ bonus. rw (s) refl) (rw (b) refl),
        p,
        handle-others shared subject message now other h,
      )
