-- ===== src/User/Groups.antt =====
-- The getters, each of which resolves what it needs, and the list of supplementary groups. A getter
-- returns its value and the user it leaves; `mutable_user` is the identity.
pub mod Sorted
pub mod Result
use mathlib.Core.Option.{map}
use micro_container.Prelude.{
  ltb, ◌==◌, if◌then◌else◌, ℕ, Bool, true, false, not, ◌||◌, none, some, List, [], ◌∷◌, ◌++◌,
  Option,
}
use micro_container.User.{GroupToken, User, Db}
use micro_container.User.Resolve.{resolve_passwd, is_named, resolve_groups}

unfoldable pub get_uid : Db → User → ℕ × User
unfolding resolve_passwd
get_uid db u = if u.uid_filled then (u.uid, u) else ((resolve_passwd db u).uid, resolve_passwd db u)

unfoldable pub get_name : Db → User → Option (List ℕ) × User
unfolding resolve_passwd
get_name db u = elim u.name [
  | some name ↦ (some name, u)
  | none ↦ ((resolve_passwd db u).name, resolve_passwd db u)
]

unfoldable pub get_home : Db → User → List ℕ × User
unfolding resolve_passwd
get_home db u =
    let v = resolve_passwd db u in
    (
      elim v.home [
        | none ↦ b'/' ∷ b'h' ∷ b'o' ∷ b'm' ∷ b'e' ∷ b'/' ∷ b'.' ∷ b'u' ∷ b's' ∷ b'e' ∷ b'r' ∷ []
        | some home ↦ home
      ],
      v,
    )

unfoldable pub get_shell : Db → User → List ℕ × User
unfolding resolve_passwd
get_shell db u =
    let v = resolve_passwd db u in
    (
      elim v.shell [
        | none ↦ b'/' ∷ b'b' ∷ b'i' ∷ b'n' ∷ b'/' ∷ b's' ∷ b'h' ∷ []
        | some shell ↦ shell
      ],
      v,
    )

unfoldable pub get_gid_from_passwd : Db → User → User
unfolding get_uid
get_gid_from_passwd db u =
    let (uid, v) = get_uid db u in
    let w = resolve_passwd db v in
    record w { gid = if not (uid == 0) then w.passwd_gid else uid; gid_filled = true }

-- The gid of the first token, if that token has no name.
unfoldable pub leading_number : List GroupToken → Option ℕ
unfolding is_named
leading_number [] = none
leading_number (t ∷ tokens) = if is_named t then none else some t.gid

unfoldable pub gid_searched : Db → User → User
unfolding get_gid_from_passwd
gid_searched db u = if u.gid_filled then u else get_gid_from_passwd db u

unfoldable pub gid_from : Db → User → Option ℕ → User
unfolding gid_searched resolve_groups
gid_from db u (some g) = record u { gid = g; gid_filled = true }
gid_from db u none = gid_searched db (resolve_groups db u)

-- The user that `get_gid` leaves; its value is the field `gid` of it.
unfoldable pub get_gid : Db → User → User
unfolding gid_from leading_number
get_gid db u = if u.gid_filled then u else gid_from db u (leading_number u.group_tokens)

unfoldable pub gid_already_in_list : List ℕ → ℕ → Bool
gid_already_in_list [] g = false
gid_already_in_list (x ∷ list) g = (x == g) || gid_already_in_list list g

unfoldable pub primary_in : Option (List ℕ) → ℕ → List ℕ
unfolding gid_already_in_list
primary_in none gid = gid ∷ []
primary_in (some groups) gid = if gid_already_in_list groups gid then groups else groups ++ gid ∷ []

unfoldable pub ensure_primary_gid_in_groups : User → User
unfolding primary_in
ensure_primary_gid_in_groups u = record u { groups = some (primary_in u.groups u.gid) }

unfoldable pub insert_gid_sorted : List ℕ → ℕ → List ℕ
insert_gid_sorted [] g = g ∷ []
insert_gid_sorted (x ∷ groups) g =
    let rest = insert_gid_sorted groups g in if ltb x g then x ∷ rest else g ∷ x ∷ groups

-- The loop of `append_remaining_gids`.
unfoldable pub remaining_loop : List GroupToken → ℕ → List ℕ → List ℕ
unfolding is_named gid_already_in_list insert_gid_sorted
remaining_loop [] gid groups = groups
remaining_loop (t ∷ tokens) gid groups = remaining_loop tokens gid (
    if is_named t || (t.gid == gid || gid_already_in_list groups t.gid)
    then groups
    else insert_gid_sorted groups t.gid)

unfoldable pub append_remaining_gids : User → User
unfolding remaining_loop
append_remaining_gids u = record u { groups = map (remaining_loop u.group_tokens u.gid) u.groups }

-- The user that `get_groups` leaves; its value is the field `groups` of it.
unfoldable pub get_groups : Db → User → User
unfolding append_remaining_gids ensure_primary_gid_in_groups get_gid resolve_groups
get_groups db u =
    append_remaining_gids (ensure_primary_gid_in_groups (get_gid db (resolve_groups db u)))
