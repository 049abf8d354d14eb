-- ===== src/User/Resolve.antt =====
-- The lookups in the databases. A duplicate of a string is the string.
use micro_container.Prelude.{
  ◌==◌, if◌then◌else◌, length, ℕ, Bool, true, false, not, ◌&&◌, ◌||◌, Option, none, some, List, [],
  ◌∷◌, ◌++◌, str_eq,
}
use micro_container.User.{GroupToken, User, Passwd, Group, Db}

-- NOBODY_ID, "root", "/root" and "nobody".
abbrev pub nobody_id : ℕ
nobody_id = 65534

abbrev pub root_name : List ℕ
root_name = b'r' ∷ b'o' ∷ b'o' ∷ b't' ∷ []

abbrev pub nobody_name : List ℕ
nobody_name = b'n' ∷ b'o' ∷ b'b' ∷ b'o' ∷ b'd' ∷ b'y' ∷ []

unfoldable pub set_root_fallback : User → User
set_root_fallback u = record u {
  name = some root_name;
  home = some (b'/' ∷ root_name);
  passwd_gid = 0;
}

unfoldable pub resolve_passwd_nodb : User → User
unfolding set_root_fallback
resolve_passwd_nodb u =
    if not u.uid_filled
    then record u { uid = nobody_id; uid_filled = true; passwd_gid = nobody_id }
    else if not (u.uid == 0)
    then record u { passwd_gid = u.uid }
    else set_root_fallback u

unfoldable pub resolve_by_uid : User → List Passwd → User
unfolding set_root_fallback
resolve_by_uid u [] = if u.uid == 0 then set_root_fallback u else record u { passwd_gid = u.uid }
resolve_by_uid u (pw ∷ pf) =
    let rest = resolve_by_uid u pf in
    if pw.pw_uid == u.uid
    then record u {
      name = some pw.pw_name;
      home = some pw.pw_dir;
      shell = some pw.pw_shell;
      passwd_gid = pw.pw_gid;
    }
    else rest

unfoldable pub assign_from_passwd : User → Passwd → User
assign_from_passwd u pw = record u {
  uid = pw.pw_uid;
  passwd_gid = pw.pw_gid;
  home = some pw.pw_dir;
  shell = some pw.pw_shell;
  uid_filled = true;
}

-- The first entry with a name.
unfoldable pub find_name : List Passwd → List ℕ → Option Passwd
find_name [] name = none
find_name (pw ∷ pf) name =
    let rest = find_name pf name in if str_eq pw.pw_name name then some pw else rest

-- The first loop's entry, or else the second's, or else the fixed number.
unfoldable pub assign_first : User → Option Passwd → Option Passwd → User
unfolding assign_from_passwd
assign_first u (some pw) second = assign_from_passwd u pw
assign_first u none (some pw) = assign_from_passwd u pw
assign_first u none none = record u { uid = nobody_id; passwd_gid = nobody_id; uid_filled = true }

-- A user without a number has a name.
unfoldable pub resolve_by_name : User → List Passwd → User
unfolding assign_first find_name
resolve_by_name u pf =
    assign_first u (elim u.name [ none ↦ none | some name ↦ find_name pf name ])
      (find_name pf nobody_name)

unfoldable pub resolve_passwd_in : User → Option (List Passwd) → User
unfolding resolve_passwd_nodb resolve_by_uid resolve_by_name
resolve_passwd_in u none = resolve_passwd_nodb u
resolve_passwd_in u (some pf) = if u.uid_filled then resolve_by_uid u pf else resolve_by_name u pf

unfoldable pub resolve_passwd : Db → User → User
unfolding resolve_passwd_in
resolve_passwd db u =
    if u.passwd_parsed then u else record (resolve_passwd_in u db.passwd) { passwd_parsed = true }

unfoldable pub is_named : GroupToken → Bool
is_named t = elim t.name [ none ↦ false | some _ ↦ true ]

unfoldable pub has_named_tokens : List GroupToken → Bool
unfolding is_named
has_named_tokens [] = false
has_named_tokens (t ∷ tokens) = is_named t || has_named_tokens tokens

unfoldable pub named_as : List ℕ → GroupToken → Bool
named_as gr_name t = elim t.name [ none ↦ false | some name ↦ str_eq gr_name name ]

-- The inner loop of `resolve_named_in_group`: the first token with the group's name gets its number.
unfoldable pub resolve_token : Group → List GroupToken → List GroupToken
unfolding named_as
resolve_token gr [] = []
resolve_token gr (t ∷ tokens) =
    let rest = resolve_token gr tokens in
    if named_as gr.gr_name t then record { name = none; gid = gr.gr_gid } ∷ tokens else t ∷ rest

unfoldable pub resolve_named_in_group : List GroupToken → List Group → List GroupToken
unfolding resolve_token
resolve_named_in_group tokens [] = tokens
resolve_named_in_group tokens (gr ∷ gf) = resolve_named_in_group (resolve_token gr tokens) gf

-- The comparison with `strncmp` over the length of the name, and a NUL behind it.
unfoldable pub any_member : List ℕ → List (List ℕ) → Bool
any_member name [] = false
any_member name (m ∷ members) = str_eq m name || any_member name members

unfoldable pub member_of_group : List ℕ → Option (List (List ℕ)) → Bool
unfolding any_member
member_of_group name none = false
member_of_group name (some members) = any_member name members

unfoldable pub append_group_token : List GroupToken → ℕ → List GroupToken
append_group_token tokens gid = tokens ++ record { name = none; gid = gid } ∷ []

unfoldable pub enum_loop : List ℕ → List Group → List GroupToken → List GroupToken
unfolding member_of_group append_group_token
enum_loop name [] tokens = tokens
enum_loop name (gr ∷ gf) tokens =
    enum_loop name gf
      (if member_of_group name gr.gr_mem then append_group_token tokens gr.gr_gid else tokens)

unfoldable pub enum_in : Option (List Group) → Option (List ℕ) → List GroupToken → List GroupToken
unfolding enum_loop
enum_in none name tokens = tokens
enum_in (some gf) none tokens = tokens
enum_in (some gf) (some name) tokens = enum_loop name gf tokens

unfoldable pub resolve_groups_enum : Db → User → User
unfolding resolve_passwd enum_in
resolve_groups_enum db u =
    let v = resolve_passwd db u in
    record v {
      gid = v.passwd_gid;
      gid_filled = true;
      group_tokens = enum_in db.group v.name v.group_tokens;
      group_parsed = true;
    }

-- The number of the first token without a name.
unfoldable pub first_number : List GroupToken → Option ℕ
unfolding is_named
first_number [] = none
first_number (t ∷ tokens) = if is_named t then first_number tokens else some t.gid

unfoldable pub take_number : User → Option ℕ → User
take_number u none = u
take_number u (some g) = record u { gid = g; gid_filled = true }

unfoldable pub by_tokens_in : User → Option (List Group) → User
unfolding resolve_named_in_group take_number first_number
by_tokens_in u none = record u { group_parsed = true }
by_tokens_in u (some gf) =
    let tokens = resolve_named_in_group u.group_tokens gf in
    take_number (record u { group_tokens = tokens; group_parsed = true }) (first_number tokens)

unfoldable pub resolve_groups_by_tokens : Db → User → User
unfolding by_tokens_in
resolve_groups_by_tokens db u = by_tokens_in u db.group

unfoldable pub should_enumerate_groups : User → Bool
should_enumerate_groups u =
    length u.group_tokens == 0
    && (not u.gid_filled && (u.name_given && elim u.name [ none ↦ false | some _ ↦ true ]))

unfoldable pub resolve_groups : Db → User → User
unfolding resolve_groups_enum has_named_tokens resolve_groups_by_tokens should_enumerate_groups
resolve_groups db u =
    if u.group_parsed
    then u
    else if should_enumerate_groups u
    then resolve_groups_enum db u
    else if not (has_named_tokens u.group_tokens)
    then record u { group_parsed = true }
    else resolve_groups_by_tokens db u
