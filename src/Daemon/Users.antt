-- ===== src/Daemon/Users.antt =====
-- crates/tb-daemon/src/users.rs: who is in the managed group. The lookups of the C library are
-- arguments.
use time_bandits.Base.{
  ℕ, ◌≤◌, ◌≡◌, refl, ap, ◌∙◌, Bool, true, false, not, ◌||◌, Option, none, some, List, [], ◌∷◌, ◌++◌,
  Text, any, length, leb, ◌==◌, if◌then◌else◌, arith, Option-cases, inl, inr, zero, suc,
}

-- What `getgrouplist` leaves: whether the buffer was large enough, the count, and the buffer.
pub record GroupList : Type 0 where
  pub fits : Bool
  pub count : ℕ
  pub buffer : List ℕ

-- `getgrnam`, `getpwnam` and `getgrouplist` with the size of the buffer; groups are their numbers.
pub record Lookups : Type 0 where
  pub getgrnam : Text → Option ℕ
  pub getpwnam : Text → Option ℕ
  pub getgrouplist : Text → ℕ → ℕ → GroupList

-- `Vec::truncate`.
abbrev pub truncate : ℕ → List ℕ → List ℕ
truncate zero xs = []
truncate (suc n) [] = []
truncate (suc n) (x ∷ xs) = x ∷ truncate n xs

-- `CString::new` fails for a text with a NUL.
abbrev pub has_nul : Text → Bool
has_nul t = any (λ c. c == 0) t

-- `groups.truncate(count); groups.contains(&target_gid)`.
abbrev pub contains_target : ℕ → GroupList → Bool
contains_target target list = any (λ g. g == target) (truncate list.count list.buffer)

-- The part of `user_in_group` from the primary group on.
unfoldable pub in_groups : Lookups → Text → ℕ → ℕ → Option Bool
in_groups names user primary target =
    let first = names.getgrouplist user primary 32 in
    let second = names.getgrouplist user primary first.count in
    if primary == target
    then some true
    else if first.fits
    then some (contains_target target first)
    else if not (leb first.count 65536)
    then none
    else if second.fits
    then some (contains_target target second)
    else none

unfoldable pub user_in_group : Lookups → Text → Text → Option Bool
unfolding in_groups
user_in_group names user group =
    if has_nul user || has_nul group then none else elim (names.getgrnam group) [
      | none ↦ some false
      | some target ↦ elim (names.getpwnam user) [
        | none ↦ none
        | some primary ↦ in_groups names user primary target
      ]
    ]

-- What the manual page says of `getgrouplist`: it counts the groups of the user, writes them to the
-- start of the buffer where they fit, and says so where they do not.
pub record IsGrouplist (names : Lookups) (user : Text) (primary : ℕ) (groups : List ℕ)
    : Type 0 where
  pub counts : (size : ℕ) → (names.getgrouplist user primary size).count ≡ length groups
  pub says : (size : ℕ) → (names.getgrouplist user primary size).fits ≡ leb (length groups) size
  pub writes :
      (size : ℕ)
      → length groups ≤ size
      → (rest : List ℕ) × ((names.getgrouplist user primary size).buffer ≡ groups ++ rest)

truncate-append : (xs ys : List ℕ) → truncate (length xs) (xs ++ ys) ≡ xs
truncate-append [] ys = refl
truncate-append (x ∷ xs) ys = ap (λ zs. x ∷ zs) (truncate-append xs ys)

module _ (names : Lookups) (user : Text) (primary target : ℕ) (groups : List ℕ)
    (lawful : IsGrouplist names user primary groups) where
  contains_target_of_fit :
      (size : ℕ)
      → length groups ≤ size
      → contains_target target (names.getgrouplist user primary size)
        ≡ any (λ g. g == target) groups
  contains_target_of_fit size le =
      let (rest, e) = lawful.writes size le in
      ap (λ n. any (λ g. g == target) (truncate n (names.getgrouplist user primary size).buffer))
        (lawful.counts size)
      ∙ ap (λ b. any (λ g. g == target) (truncate (length groups) b)) e
      ∙ ap (any (λ g. g == target)) (truncate-append groups rest)

  in_groups_lem :
      length groups ≤ 65536
      → in_groups names user primary target
        ≡ some (primary == target || any (λ g. g == target) groups)
  unfolding in_groups
  in_groups_lem le =
      let counted = lawful.counts 32 in
      let said = lawful.says 32 in
      let again = lawful.says (length groups) in
      let small = contains_target_of_fit 32 in
      let exact = contains_target_of_fit (length groups) (omega arith) in ground arith

-- If neither name holds a NUL and the C library does what its manual says for the user, who is in at
-- most 65536 groups, then a user is found in a group that exists exactly if it is the primary one or
-- one of the others, whether or not their list fits into the first buffer; nobody is in a group that
-- does not exist; and an unknown user has no answer.
pub user_in_group_lem :
    (names : Lookups) (user group : Text) (groups : List ℕ)
    → (has_nul user || has_nul group) ≡ false
    → length groups ≤ 65536
    → ((primary : ℕ) → names.getpwnam user ≡ some primary → IsGrouplist names user primary groups)
    → user_in_group names user group ≡ (elim (names.getgrnam group) [
      | none ↦ some false
      | some target ↦ elim (names.getpwnam user) [
        | none ↦ none
        | some primary ↦ some (primary == target || any (λ g. g == target) groups)
      ]
    ])
unfolding user_in_group
user_in_group_lem names user group groups h le lawful = elim (Option-cases (names.getgrnam group)) [
  | inl e ↦ ground arith
  | inr (target, e) ↦ elim (Option-cases (names.getpwnam user)) [
    | inl p ↦ ground arith
    | inr (primary, p) ↦
        let found = in_groups_lem names user primary target groups (lawful primary p) le in
        ground arith
  ]
]
