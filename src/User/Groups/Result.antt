-- ===== src/User/Groups/Result.antt =====
-- What `get_groups` returns on a user whose list of groups is not made yet.
use micro_container.Prelude.{
  ◌==◌, Bool-cases, ℕ, ◌≡◌, refl, ap, ◌∙◌, ◌⊎◌, inl, inr, Option, none, some, List, [], ◌∷◌, arith,
}
use micro_container.User.{User, Passwd, Group, Db}
use micro_container.User.Resolve.{
  resolve_passwd_nodb, resolve_by_uid, assign_first, resolve_by_name, resolve_passwd_in,
  resolve_passwd, has_named_tokens, take_number, by_tokens_in, should_enumerate_groups,
  resolve_groups,
}
use micro_container.User.Groups.{
  get_uid, get_gid_from_passwd, gid_searched, gid_from, get_gid, primary_in,
  ensure_primary_gid_in_groups, remaining_loop, append_remaining_gids, get_groups,
}
use micro_container.User.Groups.Sorted.{
  singleton-IsAscending, IsAscending, Among, IsNumber, remaining_loop-IsCompleted, here, there,
}

-- The lookups leave the list of groups alone.
nodb-groups : (u : User) → (resolve_passwd_nodb u).groups ≡ u.groups
unfolding resolve_passwd_nodb
nodb-groups u = ground arith

by_uid-groups : (u : User) (pf : List Passwd) → (resolve_by_uid u pf).groups ≡ u.groups
unfolding resolve_by_uid
by_uid-groups u [] = ground arith
by_uid-groups u (pw ∷ pf) = elim (Bool-cases (pw.pw_uid == u.uid)) [
  | inl same ↦ simp same refl
  | inr other ↦ simp other (by_uid-groups u pf)
]

assign-groups : (u : User) (a b : Option Passwd) → (assign_first u a b).groups ≡ u.groups
unfolding assign_first
assign-groups u (some a) b = refl
assign-groups u none (some b) = refl
assign-groups u none none = refl

passwd_in-groups :
    (u : User) (pf : Option (List Passwd)) → (resolve_passwd_in u pf).groups ≡ u.groups
unfolding resolve_passwd_in resolve_by_name
passwd_in-groups u none = nodb-groups u
passwd_in-groups u (some pf) = elim (Bool-cases u.uid_filled) [
  | inl filled ↦ simp filled (by_uid-groups u pf)
  | inr open_ ↦ simp open_ (assign-groups u _ _)
]

resolve_passwd-groups : (db : Db) (u : User) → (resolve_passwd db u).groups ≡ u.groups
unfolding resolve_passwd
resolve_passwd-groups db u = elim (Bool-cases u.passwd_parsed) [
  | inl done ↦ simp done refl
  | inr fresh ↦ simp fresh (passwd_in-groups u db.passwd)
]

take_number-groups : (u : User) (n : Option ℕ) → (take_number u n).groups ≡ u.groups
unfolding take_number
take_number-groups u none = refl
take_number-groups u (some g) = refl

by_tokens-groups : (u : User) (gf : Option (List Group)) → (by_tokens_in u gf).groups ≡ u.groups
unfolding by_tokens_in
by_tokens-groups u none = refl
by_tokens-groups u (some gf) = take_number-groups _ _

resolve_groups-groups : (db : Db) (u : User) → (resolve_groups db u).groups ≡ u.groups
unfolding resolve_groups
resolve_groups-groups db u = elim (Bool-cases u.group_parsed) [
  | inl done ↦ simp done refl
  | inr fresh ↦ elim (Bool-cases (should_enumerate_groups u)) [
    | inl all ↦ simp (fresh, all) (resolve_passwd-groups db u)
    | inr given ↦ elim (Bool-cases (has_named_tokens u.group_tokens)) [
      | inl named ↦ simp (fresh, given, named) (by_tokens-groups u db.group)
      | inr numbers ↦ simp (fresh, given, numbers) refl
    ]
  ]
]

get_uid-groups : (db : Db) (u : User) → (get_uid db u).1.groups ≡ u.groups
unfolding get_uid
get_uid-groups db u = elim (Bool-cases u.uid_filled) [
  | inl filled ↦ simp filled refl
  | inr open_ ↦ simp open_ (resolve_passwd-groups db u)
]

gid_searched-groups : (db : Db) (u : User) → (gid_searched db u).groups ≡ u.groups
unfolding gid_searched get_gid_from_passwd
gid_searched-groups db u = elim (Bool-cases u.gid_filled) [
  | inl filled ↦ simp filled refl
  | inr open_ ↦ simp open_ (resolve_passwd-groups db (get_uid db u).1 ∙ get_uid-groups db u)
]

gid_from-groups : (db : Db) (u : User) (n : Option ℕ) → (gid_from db u n).groups ≡ u.groups
unfolding gid_from
gid_from-groups db u (some g) = refl
gid_from-groups db u none =
    gid_searched-groups db (resolve_groups db u) ∙ resolve_groups-groups db u

get_gid-groups : (db : Db) (u : User) → (get_gid db u).groups ≡ u.groups
unfolding get_gid
get_gid-groups db u = elim (Bool-cases u.gid_filled) [
  | inl filled ↦ simp filled refl
  | inr open_ ↦ simp open_ (gid_from-groups db u _)
]

-- What the list of groups of `v` has to be.
pub record IsResult (v : User) (groups : List ℕ) : Type 0 where
  pub held : v.groups ≡ some groups
  pub ascending : IsAscending groups
  pub primary : Among v.gid groups
  pub numbers : (y : ℕ) → IsNumber y v.group_tokens → Among y groups
  pub no_other : (y : ℕ) → Among y groups → (y ≡ v.gid) ⊎ IsNumber y v.group_tokens

only_one : (g y : ℕ) → Among y (g ∷ []) → y ≡ g
only_one g _ (here _) = refl
only_one g y (there _ _ m) = elim m [ ]

finish-IsResult :
    (w : User)
    → w.groups ≡ none
    → (gs : List ℕ) × IsResult (append_remaining_gids (ensure_primary_gid_in_groups w)) gs
unfolding append_remaining_gids ensure_primary_gid_in_groups
finish-IsResult w e =
    let c =
      remaining_loop-IsCompleted w.group_tokens w.gid (w.gid ∷ []) (singleton-IsAscending w.gid)
        (here []) in
    (
      remaining_loop w.group_tokens w.gid (w.gid ∷ []),
      record {
        held = ap (λ t. some (remaining_loop w.group_tokens w.gid (primary_in t w.gid))) e;
        ascending = c.ascending;
        primary = c.kept w.gid (here []);
        numbers = c.added;
        no_other =
            λ y m. elim (c.no_other y m) [ inl o ↦ inl (only_one w.gid y o) | inr n ↦ inr n ];
      },
    )

-- Where no list was made before, `get_groups` makes a strictly ascending one: the primary gid and the
-- numbers of the group tokens, those found in the databases included, each once and nothing else.
pub get_groups-IsResult :
    (db : Db) (u : User) → u.groups ≡ none → (gs : List ℕ) × IsResult (get_groups db u) gs
unfolding get_groups
get_groups-IsResult db u e =
    finish-IsResult (get_gid db (resolve_groups db u))
      (get_gid-groups db (resolve_groups db u) ∙ resolve_groups-groups db u ∙ e)
