-- ===== src/Store/Files.antt =====
-- crates/tb-daemon/src/policystore.rs: one file per user, and `save_policy` of store.rs. A file is
-- what reading it as TOML gives: nothing where that fails. `reread` is what the TOML reader makes of
-- the text that the TOML writer prints for a policy, and nothing where the writer fails.
use time_bandits.Base.{
  ℕ, Bool, true, false, ◌&&◌, ◌||◌, not, Option, none, some, List, [], ◌∷◌, Text, all, length, leb,
  ◌==◌, ◌=t◌, if◌then◌else◌, is_ascii_digit, is_some, map_option,
}
use time_bandits.Jiff.{Jiff}
use time_bandits.Policy.{Policy, validate, is_empty}

pub record File : Type 0 where
  pub owner : Text
  pub content : Option Policy

abbrev pub Files : Type 0
Files = List File

-- `c.is_ascii_alphanumeric() || matches!(c, '_' | '-' | '.')`.
abbrev pub is_plain : ℕ → Bool
is_plain c =
    is_ascii_digit c
    || (leb b'A' c && leb c b'Z')
    || (leb b'a' c && leb c b'z')
    || c == b'_'
    || c == b'-'
    || c == b'.'

abbrev pub starts_with_dot : Text → Bool
starts_with_dot [] = false
starts_with_dot (c ∷ _) = c == b'.'

-- `usable` of `path_for`; a text of such characters has as many bytes.
unfoldable pub is_usable : Text → Bool
is_usable subject =
    not (is_empty subject)
    && leb (length subject) 64
    && all is_plain subject
    && not (starts_with_dot subject)

-- `fs::read_to_string` and the TOML reader: the content of the file, if there is one.
unfoldable pub read : Files → Text → Option (Option Policy)
read [] subject = none
read (f ∷ fs) subject =
    let rest = read fs subject in if f.owner =t subject then some f.content else rest

-- `write_atomically`: the file is replaced as a whole.
unfoldable pub write : Files → Text → Option Policy → Files
write [] subject content = record { owner = subject; content = content } ∷ []
write (f ∷ fs) subject content =
    let rest = write fs subject content in
    if f.owner =t subject then record { owner = subject; content = content } ∷ fs else f ∷ rest

module _ (j : Jiff) where
  -- `load`; nothing stands for an error.
  unfoldable pub load : Files → Text → Option (Option Policy)
  load files subject = if not (is_usable subject) then none else elim (read files subject) [
    | none ↦ some none
    | some none ↦ none
    | some (some policy) ↦
        if not (policy.subject =t subject)
        then none
        else if is_some (validate j policy)
        then none
        else some (some policy)
  ]

module _ (j : Jiff) (reread : Policy → Option (Option Policy)) where
  -- `save`; `writable` is whether the file system does its part.
  unfoldable pub save : Bool → Files → Policy → Option Files
  save writable files policy =
      if is_some (validate j policy)
      then none
      else if not (is_usable policy.subject)
      then none
      else if not writable
      then none
      else map_option (write files policy.subject) (reread policy)

  -- `save_policy` of the store: whether it was written, and the files.
  unfoldable pub save_policy : Bool → Files → Policy → Option (Bool × Files)
  unfolding load save
  save_policy writable files policy =
      let saved = map_option (λ files'. (true, files')) (save writable files policy) in
      elim (load j files policy.subject) [
        | none ↦ none
        | some none ↦ saved
        | some (some existing) ↦
            if leb policy.version existing.version then some (false, files) else saved
      ]

-- The files after a call, whether it returned an error or not.
abbrev pub files_after : Files → Option (Bool × Files) → Files
files_after files none = files
files_after files (some (_, files')) = files'

-- The file of a user without its entry, and whether there was one.
unfoldable pub without : Files → Text → Bool × Files
without [] subject = (false, [])
without (f ∷ fs) subject =
    let rest = without fs subject in
    if f.owner =t subject then (true, rest.1) else (rest.0, f ∷ rest.1)

-- `remove`; `removable` is whether the file system removes a file that is there.
unfoldable pub remove : Bool → Files → Text → Option (Bool × Files)
unfolding without
remove removable files subject =
    if not (is_usable subject)
    then none
    else let (there, files') = without files subject in
      if there && not removable then none else some (there, files')
