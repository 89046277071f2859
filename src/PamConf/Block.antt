-- ===== src/PamConf/Block.antt =====
-- crates/tb-cli/src/pamconf.rs: the lines that the tool adds to a service file.
use time_bandits.Base.{
  ℕ, Bool, true, false, ◌&&◌, ◌||◌, not, Option, none, some, List, [], ◌∷◌, ◌++◌, Text, codes, ◌=t◌,
  any, if◌then◌else◌, trim, is_some, map_option, length,
}
use time_bandits.AppId.{strip_prefix}
use time_bandits.Policy.{is_empty}
use time_bandits.PamConf.Lines.{newline, lines, unlines, ends_with_newline}

-- `BEGIN` and `END`.
abbrev pub begin_marker : Text
begin_marker = codes "# >>> time-bandits >>>"

abbrev pub end_marker : Text
end_marker = codes "# <<< time-bandits <<<"

pub data Stack : Type 0 where
  auth account : Stack

abbrev pub keyword : Stack → Text
keyword auth = codes "auth"
keyword account = codes "account"

abbrev pub same_stack : Stack → Stack → Bool
same_stack auth auth = true
same_stack account account = true
same_stack _ _ = false

pub record ServiceSpec : Type 0 where
  pub service : Text
  pub stack : Stack
  pub control : Text
  pub why : Text

abbrev pub auth_control : Text
auth_control =
    codes "[success=ok new_authtok_reqd=ok ignore=ignore module_unknown=ignore default=die]"

abbrev account_control : Text
account_control =
    codes "[success=ok new_authtok_reqd=ok ignore=ignore module_unknown=ignore default=bad]"

abbrev on_auth : Text → Text → ServiceSpec
on_auth service why = record { service = service; stack = auth; control = auth_control; why = why }

abbrev on_account : Text → Text → ServiceSpec
on_account service why = record {
  service = service;
  stack = account;
  control = account_control;
  why = why;
}

-- `MANAGED`.
abbrev pub managed : List ServiceSpec
managed =
    on_auth (codes "kde") (codes "the lock screen; KScreenLocker evaluates only the auth stack")
    ∷ on_account (codes "sddm") (codes "the display manager; refuses a fresh session")
    ∷ on_account (codes "plasmalogin") (codes "the display manager on Plasma 6.5 and later")
    ∷ on_auth (codes "kcheckpass") (codes "the lock screen's password helper on some builds")
    ∷ on_account (codes "login") (codes "text console login")
    ∷ []

unfoldable pub rule_line : ServiceSpec → Text
rule_line spec = keyword spec.stack ++ codes " " ++ spec.control ++ codes " pam_timebandits.so"

-- The comment on the rule, in which `why` is one line.
unfoldable pub comment_lines : ServiceSpec → List Text
comment_lines spec =
    codes "# Managed by tbctl. Do not edit between the markers; run `tbctl pam disable`."
    ∷ (codes "# " ++ spec.why)
    ∷ codes "#"
    ∷ codes "# The bracket form rather than a plain control word: `module_unknown=ignore`"
    ∷ codes "# steps over the module if it is ever not installed, instead of locking"
    ∷ codes "# everybody out of the machine."
    ∷ []

-- The lines between the markers.
unfoldable pub inner_lines : ServiceSpec → List Text
unfolding comment_lines rule_line
inner_lines spec = comment_lines spec ++ rule_line spec ∷ []

unfoldable pub block_lines : ServiceSpec → List Text
block_lines spec = begin_marker ∷ (inner_lines spec ++ end_marker ∷ [])

unfoldable pub block : ServiceSpec → Text
block spec = unlines (block_lines spec)

abbrev pub starts_with : Text → Text → Bool
starts_with s p = is_some (strip_prefix p s)

-- One round of the loop in `line_stack`.
unfoldable pub belongs_to : Text → Stack → Bool
belongs_to line stack =
    starts_with line (keyword stack)
    || starts_with line (codes "-" ++ keyword stack)
    || (elim (strip_prefix (codes "@include ") line) [
      | none ↦ false
      | some rest ↦ trim rest =t codes "common-" ++ keyword stack
    ])

-- The loop of `line_stack` over the two stacks.
unfoldable pub stack_of : Text → Option Stack
unfolding belongs_to
stack_of line =
    if belongs_to line auth
    then some auth
    else if belongs_to line account
    then some account
    else none

unfoldable pub line_stack : Text → Option Stack
unfolding stack_of
line_stack line = stack_of (trim line)

abbrev pub is_begin : Text → Bool
is_begin l = trim l =t begin_marker

abbrev pub is_end : Text → Bool
is_end l = trim l =t end_marker

unfoldable pub has_block : Text → Bool
has_block content = any is_begin (lines content)

-- The loop of `remove_block`, with `inside`.
unfoldable pub drop_block : Bool → List Text → List Text
drop_block inside [] = []
drop_block inside (l ∷ ls) =
    let within = if is_begin l then true else if is_end l then false else inside in
    let rest = drop_block within ls in if is_begin l || is_end l || inside then rest else l ∷ rest

unfoldable pub remove_block : Text → Text
remove_block content = unlines (drop_block false (lines content))

pub data Placement : Type 0 where
  before_first_stack_line : ℕ → Placement
  appended_with_no_stack_present : Placement
  adopted_from_vendor : Placement

abbrev pub is_of : Stack → Text → Bool
is_of stack line = elim (line_stack line) [ none ↦ false | some s ↦ same_stack s stack ]

-- `position`: the lines before the first one of the stack, and from it on, if there is one.
unfoldable pub split_at_stack : Stack → List Text → Option (List Text × List Text)
split_at_stack stack [] = none
split_at_stack stack (l ∷ ls) =
    let rest = split_at_stack stack ls in
    if is_of stack l then some ([], l ∷ ls) else map_option (λ p. (l ∷ p.0, p.1)) rest

-- The text with its last line ended.
abbrev pub terminated : Text → Text
terminated s = if not (is_empty s) && not (ends_with_newline s) then s ++ newline ∷ [] else s

-- The two branches of `insert_block`: at the first line of the stack, or at the end.
unfoldable pub place_at : Text → ServiceSpec → Option (List Text × List Text) → Text × Placement
place_at cleaned spec (some (before, after)) =
    (unlines before ++ block spec ++ unlines after, before_first_stack_line (length before))
place_at cleaned spec none = (terminated cleaned ++ block spec, appended_with_no_stack_present)

-- What `insert_block` does once the old block is gone.
unfoldable pub place_block : Text → ServiceSpec → Text × Placement
unfolding place_at
place_block cleaned spec = place_at cleaned spec (split_at_stack spec.stack (lines cleaned))

unfoldable pub insert_block : Text → ServiceSpec → Text × Placement
unfolding place_block remove_block
insert_block content spec = place_block (remove_block content) spec
