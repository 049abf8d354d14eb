-- ===== src/Env/Vars/Parsed.antt =====
-- What `parse_envs` puts into the table.
use micro_container.Prelude.{
  if◌then◌else◌, Bool-cases, str_eq, ℕ, ◌≡◌, refl, ◌∙◌, inl, inr, Bool, true, false, Option, none,
  some, List, [], ◌∷◌, ◌++◌,
}
use micro_container.Pkg.Deps.{part_at}
use micro_container.Pkg.Names.{starts_with}
use micro_container.Env.{EnvMap, env_map_get}
use micro_container.Env.Vars.{
  EnvVars, path_key, term_key, lang_key, home_key, shell_key, user_key, try_any, parse_parts,
  parse_one_env, parse_loop, def_path, def_term, def_lang, sync_field, default_of, set_default_env,
  zeroed, parse_envs,
}
use micro_container.Env.Resize.{IsMap}
use micro_container.Env.Finite.{IsAssigned, env_map_put-IsAssigned, env_map_init-IsEmpty}

-- What a string, parted at '=', makes of the value of a key.
abbrev pub binding : List ℕ × Option (List ℕ) → List ℕ → Option (List ℕ) → Option (List ℕ)
binding (k, none) key old = old
binding (k, some v) key old = if str_eq k key then some v else old

-- The value of a key after the strings: that of the last one with the key.
abbrev pub value_in : List (List ℕ) → List ℕ → Option (List ℕ) → Option (List ℕ)
value_in [] key old = old
value_in (kv ∷ kvs) key old = value_in kvs key (binding (part_at b'=' kv) key old)

abbrev pub has_equals : List ℕ × Option (List ℕ) → Bool
has_equals (k, none) = false
has_equals (k, some v) = true

abbrev pub all_valid : List (List ℕ) → Bool
all_valid [] = true
all_valid (kv ∷ kvs) =
    let rest = all_valid kvs in if has_equals (part_at b'=' kv) then rest else false

-- The two outcomes: a string without '=' is refused; otherwise the table has the values.
data Outcome (kvs : List (List ℕ)) (before : List ℕ → Option (Option (List ℕ)))
    (r : Option (Option EnvVars)) : Type 0 where
  refused : all_valid kvs ≡ false → r ≡ some none → Outcome kvs before r
  accepted :
      (e : EnvVars)
      → all_valid kvs ≡ true
      → r ≡ some (some e)
      → IsMap e.map
      → ((key : List ℕ) (old : Option (List ℕ))
          → before key ≡ some old
          → env_map_get e.map key ≡ some (value_in kvs key old))
      → Outcome kvs before r

put_value :
    (m : EnvMap) (k v : List ℕ) (p : IsAssigned m k v) (key : List ℕ) (old : Option (List ℕ))
    → env_map_get m key ≡ some old
    → env_map_get p.made key ≡ some (binding (k, some v) key old)
put_value m k v p key old t =
    p.gets key
    ∙ elim (Bool-cases (str_eq k key)) [ inl same ↦ rw same refl | inr other ↦ rw other t ]

if-map :
    (b : Bool) (x y : EnvVars) (m : EnvMap) → x.map ≡ m → y.map ≡ m → (if b then x else y).map ≡ m
if-map true x y m h g = h
if-map false x y m h g = g

-- The fields of the environment are beside its table.
try_any-map : (kv : List ℕ) (env : EnvVars) → (try_any kv env).map ≡ env.map
unfolding try_any
try_any-map kv env =
    let among = λ (key : List ℕ) (x y : EnvVars). if-map (starts_with kv key) x y env.map in
    among path_key _ _ refl (
      among term_key _ _ refl (
        among lang_key _ _ refl
          (among home_key _ _ refl (among shell_key _ _ refl (among user_key _ _ refl refl)))))

-- A string in front that was put into the table.
in_front :
    (kv : List ℕ) (envs : List (List ℕ)) (env env' : EnvVars) (k v : List ℕ)
    → part_at b'=' kv ≡ (k, some v)
    → parse_loop (kv ∷ envs) env ≡ parse_loop envs env'
    → ((key : List ℕ) (old : Option (List ℕ))
        → env_map_get env.map key ≡ some old
        → env_map_get env'.map key ≡ some (binding (k, some v) key old))
    → Outcome envs (env_map_get env'.map) (parse_loop envs env')
    → Outcome (kv ∷ envs) (env_map_get env.map) (parse_loop (kv ∷ envs) env)
in_front kv envs env env' k v e same put (refused a r) = refused (rw e a) (same ∙ r)
in_front kv envs env env' k v e same put (accepted made a r h g) =
    accepted made (rw e a) (same ∙ r) h (λ key old t. rw e (g key _ (put key old t)))

step-Outcome :
    (parts : List ℕ × Option (List ℕ)) (kv : List ℕ) (envs : List (List ℕ)) (env : EnvVars)
    → part_at b'=' kv ≡ parts
    → IsMap env.map
    → ((next : EnvVars)
        → IsMap next.map
        → Outcome envs (env_map_get next.map) (parse_loop envs next))
    → Outcome (kv ∷ envs) (env_map_get env.map) (parse_loop (kv ∷ envs) env)
unfolding parse_loop parse_one_env parse_parts
step-Outcome (k, none) kv envs env e h rest = refused (rw e refl) (rw e refl)
step-Outcome (k, some v) kv envs env e h rest =
    let same = try_any-map kv env in
    let p = env_map_put-IsAssigned (try_any kv env).map k v (rw same h) in
    let env' : EnvVars = record (try_any kv env) { map = p.made } in
    in_front kv envs env env' k v e (rw (e, p.done) refl)
      (λ key old t. put_value (try_any kv env).map k v p key old (rw same t)) (rest env' p.is_map)

parse_loop-Outcome :
    (envs : List (List ℕ)) (env : EnvVars)
    → IsMap env.map
    → Outcome envs (env_map_get env.map) (parse_loop envs env)
unfolding parse_loop
parse_loop-Outcome [] env h = accepted _ refl refl h (λ key old t. t)
parse_loop-Outcome (kv ∷ envs) env h =
    step-Outcome (part_at b'=' kv) kv envs env refl h (λ next h'. parse_loop-Outcome envs next h')

abbrev or_default : Option (List ℕ) → List ℕ → List ℕ
or_default none def = def
or_default (some val) def = val

abbrev name_path : List ℕ
name_path = b'P' ∷ b'A' ∷ b'T' ∷ b'H' ∷ []

abbrev name_term : List ℕ
name_term = b'T' ∷ b'E' ∷ b'R' ∷ b'M' ∷ []

abbrev name_lang : List ℕ
name_lang = b'L' ∷ b'A' ∷ b'N' ∷ b'G' ∷ []

-- The variables that are there before those on the command line.
abbrev pub default_vars : (List ℕ → Option (List ℕ)) → List (List ℕ)
default_vars getenv =
    (path_key ++ def_path)
    ∷ (term_key ++ or_default (getenv name_term) def_term)
    ∷ (lang_key ++ or_default (getenv name_lang) def_lang)
    ∷ []

default_of-key :
    (key : List ℕ) (val : Option (List ℕ)) (def : List ℕ)
    → default_of key none val def ≡ some (key ++ or_default val def)
default_of-key key none def = refl
default_of-key key (some val) def = refl

-- The two outcomes of `parse_envs`, where no key had a value before.
pub data Result (kvs : List (List ℕ)) (r : Option (Option EnvVars)) : Type 0 where
  rejected : all_valid kvs ≡ false → r ≡ some none → Result kvs r
  filled :
      (e : EnvVars)
      → all_valid kvs ≡ true
      → r ≡ some (some e)
      → IsMap e.map
      → ((key : List ℕ) → env_map_get e.map key ≡ some (value_in kvs key none))
      → Result kvs r

with_defaults :
    (getenv : List ℕ → Option (List ℕ)) (envs : List (List ℕ))
    (before : List ℕ → Option (Option (List ℕ))) (r r' : Option (Option EnvVars))
    → r' ≡ r
    → ((key : List ℕ) → before key ≡ some (value_in (default_vars getenv) key none))
    → Outcome envs before r
    → Result (default_vars getenv ++ envs) r'
unfolding part_at
with_defaults getenv envs before r r' e at (refused a t) = rejected a (e ∙ t)
with_defaults getenv envs before r r' e at (accepted made a t h g) =
    filled made a (e ∙ t) h (λ key. g key _ (at key))

-- `parse_envs` ends on every list of strings. It refuses a list with a string without '='. Otherwise
-- `env_map_get` gives for each key the value of the last string that sets it, where the defaults of
-- PATH, TERM and LANG come first, and fails for every other key.
pub parse_envs-Result :
    (getenv : List ℕ → Option (List ℕ)) (envs : List (List ℕ))
    → Result (default_vars getenv ++ envs) (parse_envs getenv envs)
unfolding parse_envs sync_field set_default_env part_at
parse_envs-Result getenv envs =
    let m = env_map_init-IsEmpty in
    let path = env_map_put-IsAssigned m.made name_path def_path m.is_map in
    let term_val = or_default (getenv name_term) def_term in
    let term = env_map_put-IsAssigned path.made name_term term_val path.is_map in
    let lang_val = or_default (getenv name_lang) def_lang in
    let lang = env_map_put-IsAssigned term.made name_lang lang_val term.is_map in
    let env : EnvVars = record (set_default_env getenv (zeroed m.made)) { map = lang.made } in
    with_defaults getenv envs (env_map_get lang.made) (parse_loop envs env) _
      (rw
        (
          m.done,
          path.done,
          default_of-key term_key (getenv name_term) def_term,
          term.done,
          default_of-key lang_key (getenv name_lang) def_lang,
          lang.done,
        )
        refl)
      (λ key. put_value term.made name_lang lang_val lang key _ (
        put_value path.made name_term term_val term key _
          (put_value m.made name_path def_path path key _ (m.gets key))))
      (parse_loop-Outcome envs env lang.is_map)
