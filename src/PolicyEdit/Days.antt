-- ===== src/PolicyEdit/Days.antt =====
-- crates/tb-cli/src/policyedit.rs: what holds on a day after an edit.
use time_bandits.Base.{
  ◌≡◌, refl, sym, ap, ◌∙◌, Bool, true, ◌&&◌, ◌||◌, not, Option, none, some, List, [], ◌∷◌, ◌++◌,
  any, any-append, any-sort_by, unwrap_or, if◌then◌else◌, arith, Bool-cases, Option-cases, inl, inr,
}
use time_bandits.Jiff.{Jiff}
use time_bandits.Schedule.{
  Day, monday, tuesday, wednesday, thursday, friday, saturday, sunday, TimeWindow, WeekSchedule,
  uniform, get,
}
use time_bandits.Schedule.Laws.{same_day, get-set}
use time_bandits.Policy.{Policy, Quota}
use time_bandits.PolicyEdit.Parsing.{QuotaArg, WindowArg}
use time_bandits.PolicyEdit.Edit.{
  PolicyEdit, set_quota, set_quotas, same_window, starts_before, push_window, set_window,
  set_windows, edited, apply,
}

-- The argument is about the day: it names it, or none.
abbrev pub concerns : Day → QuotaArg → Bool
concerns d arg = elim arg.day [ none ↦ true | some e ↦ same_day e d ]

-- The last quota that is given for a day.
abbrev pub last_quota : Day → List QuotaArg → Option Quota
last_quota d [] = none
last_quota d (arg ∷ rest) =
    let later = last_quota d rest in
    elim later [ some q ↦ some q | none ↦ if concerns d arg then some arg.quota else none ]

get-uniform {ℓ} : {A : Type ℓ} (v : A) (d : Day) → get (uniform v) d ≡ v
unfolding get
get-uniform v monday = refl
get-uniform v tuesday = refl
get-uniform v wednesday = refl
get-uniform v thursday = refl
get-uniform v friday = refl
get-uniform v saturday = refl
get-uniform v sunday = refl

get-set_quota :
    (schedule : WeekSchedule Quota) (arg : QuotaArg) (d : Day)
    → get (set_quota schedule arg) d ≡ (if concerns d arg then arg.quota else get schedule d)
get-set_quota schedule arg d = elim (Option-cases arg.day) [
  | inl e ↦ rw (e) (get-uniform arg.quota d)
  | inr (day, e) ↦ rw (e) (get-set schedule day d arg.quota)
]

get-set_quotas :
    (args : List QuotaArg) (schedule : WeekSchedule Quota) (d : Day)
    → get (set_quotas schedule args) d ≡ unwrap_or (last_quota d args) (get schedule d)
unfolding set_quotas
get-set_quotas [] schedule d = refl
get-set_quotas (arg ∷ rest) schedule d =
    let here = get-set_quota schedule arg d in
    let later = get-set_quotas rest (set_quota schedule arg) d in ground arith

-- The windows that are given for a day hold one that satisfies the test.
abbrev pub given : (TimeWindow → Bool) → Day → List WindowArg → Bool
given p d args = any (λ (arg : WindowArg). same_day arg.day d && p arg.window) args

same_window-eq : (w v : TimeWindow) → same_window w v ≡ true → w ≡ v
same_window-eq w v h = ground arith

any-same_window :
    (p : TimeWindow → Bool) (w : TimeWindow) (ws : List TimeWindow)
    → any (same_window w) ws ≡ true
    → any p ws || p w ≡ any p ws
any-same_window p w [] h = ground arith
any-same_window p w (v ∷ vs) h = elim (Bool-cases (same_window w v)) [
  | inl e ↦ let eq = ap p (same_window-eq w v e) in ground arith
  | inr e ↦ let rest = any-same_window p w vs (ground arith) in ground arith
]

any-push_window :
    (p : TimeWindow → Bool) (ws : List TimeWindow) (w : TimeWindow)
    → any p (push_window ws w) ≡ any p ws || p w
unfolding push_window
any-push_window p ws w = elim (Bool-cases (any (same_window w) ws)) [
  | inl there ↦ rw (there) (any-sort_by starts_before p ws ∙ sym (any-same_window p w ws there))
  | inr absent ↦
      rw (absent)
        (any-sort_by starts_before p (ws ++ w ∷ []) ∙ any-append p ws (w ∷ []) ∙ ground arith)
]

same_day-eq : (d e : Day) → same_day d e ≡ true → d ≡ e
same_day-eq d e h = ground arith

get-set_windows :
    (args : List WindowArg) (p : TimeWindow → Bool) (schedule : WeekSchedule (List TimeWindow))
    (d : Day)
    → any p (get (set_windows schedule args) d) ≡ any p (get schedule d) || given p d args
unfolding set_windows
get-set_windows [] p schedule d = ground arith
get-set_windows (arg ∷ rest) p schedule d =
    let later = get-set_windows rest p (set_window schedule arg) d in
    let placed = get-set schedule arg.day d (push_window (get schedule arg.day) arg.window) in
    let pushed = any-push_window p (get schedule arg.day) arg.window in
    elim (Bool-cases (same_day arg.day d)) [
      | inl e ↦ let eq = ap (get schedule) (same_day-eq arg.day d e) in ground arith
      | inr e ↦ ground arith
    ]

-- If an edit is accepted, then on every day the quota is the last one given for that day or for every
-- day, and the old one where none is, and the windows are those given for the day and, unless the
-- edit clears them, the old ones.
pub apply_days :
    (j : Jiff) (e : PolicyEdit) (base p : Policy) (d : Day) (w : TimeWindow)
    → apply j e base ≡ some p
    → (get p.daily_quota d ≡ unwrap_or (last_quota d e.daily) (get base.daily_quota d))
      × (any (same_window w) (get p.allowed_windows d)
          ≡ not e.clear_windows && any (same_window w) (get base.allowed_windows d)
            || given (same_window w) d e.windows)
unfolding apply edited
apply_days j e base p d w h =
    let quotas = get-set_quotas e.daily base.daily_quota d in
    let kept = if e.clear_windows then uniform [] else base.allowed_windows in
    let windows = get-set_windows e.windows (same_window w) kept d in
    let none_left = get-uniform {A = List TimeWindow} [] d in (ground arith, ground arith)
