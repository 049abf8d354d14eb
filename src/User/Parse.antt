-- ===== src/User/Parse.antt =====
-- The user and group specifications of the command line. A function that returns -1 is `none`; what
-- it wrote before is not looked at, since `user_new` frees it.
pub mod Split
use mathlib.Core.Option.{map}
use micro_container.Prelude.{
  ltb, leb, ◌==◌, if◌then◌else◌, length, ℕ, zero, suc, ◌+◌, ◌-◌, ◌*◌, ◌^◌, Bool, true, false, ◌||◌,
  none, some, List, [], ◌∷◌, ◌++◌, Option,
}
use micro_container.User.{GroupToken, User}

-- Whether every byte from here on is a digit.
unfoldable pub digits_loop : List ℕ → Bool
digits_loop [] = true
digits_loop (c ∷ s) = let rest = digits_loop s in if ltb c b'0' || ltb b'9' c then false else rest

unfoldable pub all_digits : List ℕ → Bool
unfolding digits_loop
all_digits [] = false
all_digits (c ∷ s) = digits_loop (c ∷ s)

-- `strtoul` in base 10 on digits.
unfoldable pub strtoul : ℕ → List ℕ → ℕ
strtoul v [] = v
strtoul v (c ∷ s) = strtoul (v * 10 + (c - b'0')) s

-- On digits: a value that overflows `unsigned long` is above UINT32_MAX too.
unfoldable pub parse_id : List ℕ → Option ℕ
unfolding strtoul
parse_id s = let v = strtoul 0 s in if ltb (2 ^ 32 - 1) v then none else some v

unfoldable pub count_colons : List ℕ → ℕ
count_colons [] = 0
count_colons (c ∷ s) = if c == b':' then suc (count_colons s) else count_colons s

unfoldable pub count_tokens : Option (List ℕ) → ℕ
unfolding count_colons
count_tokens none = 0
count_tokens (some []) = 0
count_tokens (some (c ∷ s)) = 1 + count_colons (c ∷ s)

unfoldable pub parse_one_token : List ℕ → Option GroupToken
unfolding all_digits parse_id
parse_one_token s =
    if length s == 0 || leb 256 (length s)
    then none
    else if all_digits s
    then map (λ g. record { name = none; gid = g }) (parse_id s)
    else some (record { name = some s; gid = 0 })

-- What stands before the first colon, and what stands behind it, if there is one.
unfoldable pub skip_colon : List ℕ → List ℕ × Option (List ℕ)
skip_colon [] = ([], none)
skip_colon (c ∷ p) = if c == b':' then ([], some p) else (c ∷ (skip_colon p).0, (skip_colon p).1)

-- The end of a round of `fill_tokens`; `next` is the rest of the loop.
unfoldable pub fill_token :
    Option GroupToken
    → Option (List ℕ)
    → List GroupToken
    → (List GroupToken → List ℕ → Option (List GroupToken))
    → Option (List GroupToken)
fill_token none rest t next = none
fill_token (some token) none t next = some (t ++ token ∷ [])
fill_token (some token) (some a) t next = next (t ++ token ∷ []) a

unfoldable pub fill_loop : ℕ → List GroupToken → List ℕ → Option (List GroupToken)
unfolding fill_token parse_one_token skip_colon
fill_loop zero t a = none
fill_loop (suc fuel) t a =
    let (part, rest) = skip_colon a in
    if length part == 0
    then none
    else fill_token (parse_one_token part) rest t (λ t' a'. fill_loop fuel t' a')

-- Each round takes a byte, so one round more than there are bytes is enough.
unfoldable pub fill_tokens : List GroupToken → List ℕ → Option (List GroupToken)
unfolding fill_loop
fill_tokens t s = fill_loop (length s + 1) t s

unfoldable pub append_tokens : List GroupToken → Option (List ℕ) → Option (List GroupToken)
unfolding fill_tokens count_tokens
append_tokens t none = some t
append_tokens t (some s) = if count_tokens (some s) == 0 then some t else fill_tokens t s

unfoldable pub store_identity : User → List ℕ → Option User
unfolding all_digits parse_id
store_identity u ub =
    if all_digits ub
    then map (λ v. record u { uid_filled = true; uid = v }) (parse_id ub)
    else some (record u { name = some ub; name_given = true })

unfoldable pub parse_user_identity : User → List ℕ → Option User
unfolding store_identity
parse_user_identity u part =
    if length part == 0 || leb 256 (length part) then none else store_identity u part

abbrev pub with_tokens : User → Option (List GroupToken) → Option User
with_tokens u t = map (λ t'. record u { group_tokens = t' }) t

unfoldable pub then_tokens : Option User → Option (List ℕ) → Option User
unfolding append_tokens
then_tokens none s = none
then_tokens (some u) s = with_tokens u (append_tokens u.group_tokens s)

unfoldable pub parse_user_body : User → Option (List ℕ) → Option (List ℕ) → Option User
unfolding then_tokens parse_user_identity skip_colon
parse_user_body u none g = then_tokens (some (record u { uid_filled = true; uid = 0 })) g
parse_user_body u (some []) g = then_tokens (some (record u { uid_filled = true; uid = 0 })) g
parse_user_body u (some (c ∷ s)) g =
    let (part, rest) = skip_colon (c ∷ s) in
    then_tokens (then_tokens (parse_user_identity u part) g) rest

-- `calloc`.
abbrev pub blank : User
blank = record {
  uid = 0;
  uid_filled = false;
  name_given = false;
  name = none;
  group_tokens = [];
  gid = 0;
  gid_filled = false;
  groups = none;
  passwd_gid = 0;
  home = none;
  shell = none;
  passwd_parsed = false;
  group_parsed = false;
}

unfoldable pub user_new : Option (List ℕ) → Option (List ℕ) → Option User
unfolding parse_user_body
user_new s g = parse_user_body blank s g

abbrev pub user_root_new : User
user_root_new = record blank { uid_filled = true; gid_filled = true }
