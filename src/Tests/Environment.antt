-- ===== src/Tests/Environment.antt =====
-- The theorems on the table of variables at concrete inputs.
use micro_container.Prelude.{
  set, replicate, ℕ, ◌≡◌, refl, Option, none, some, List, [], ◌∷◌, ◌++◌, arith,
}
use micro_container.Env.{lookup_loop, Entry, EnvMap, fnv1a, env_map_init, env_map_put}
use micro_container.Env.Placed.{insert-IsPlaced}
use micro_container.Env.Resize.{IsMap, fresh-IsPlaced}
use micro_container.Env.Finite.{IsAssigned, env_map_put-IsAssigned}
use micro_container.Env.Built.{IsBuilt, env_map_build-IsBuilt}
use micro_container.Env.Vars.{parse_envs}
use micro_container.Env.Vars.Parsed.{Result, parse_envs-Result, default_vars}

abbrev key_a : List ℕ
key_a = b'A' ∷ []

abbrev val_1 : List ℕ
val_1 = b'1' ∷ []

abbrev entry_a : Entry
unfolding fnv1a
entry_a = record { hash = fnv1a key_a; key = key_a; val = val_1 }

-- A table of 16 slots with the variable A.
abbrev table : EnvMap
unfolding fnv1a
table = record { slots = set (replicate 16 none) 12 (some entry_a); cap = 16; len = 1 }

table-IsMap : IsMap table
unfolding fnv1a lookup_loop
table-IsMap = record {
  placed =
      insert-IsPlaced (replicate 16 none) 16 (fresh-IsPlaced 16 (omega arith)) entry_a 12 refl
        (omega arith) refl;
  counted = refl;
}

env_map_put-IsAssigned_example : IsAssigned table (b'B' ∷ []) (b'2' ∷ [])
env_map_put-IsAssigned_example = env_map_put-IsAssigned table (b'B' ∷ []) (b'2' ∷ []) table-IsMap

env_map_build-IsBuilt_example : IsBuilt table
env_map_build-IsBuilt_example = env_map_build-IsBuilt table table-IsMap

-- "A=2", "X" and "TERM=vt".
abbrev a_is_2 : List ℕ
a_is_2 = b'A' ∷ b'=' ∷ b'2' ∷ []

abbrev no_variables : List ℕ → Option (List ℕ)
no_variables name = none

refuses : parse_envs no_variables (a_is_2 ∷ (b'X' ∷ []) ∷ []) ≡ some none
unfolding parse_envs env_map_init env_map_put fnv1a
refuses = refl

parse_envs-Result_example :
    Result (default_vars no_variables ++ a_is_2 ∷ []) (parse_envs no_variables (a_is_2 ∷ []))
parse_envs-Result_example = parse_envs-Result no_variables (a_is_2 ∷ [])

-- "DISPLAY=:0".
abbrev display_key : List ℕ
display_key = b'D' ∷ b'I' ∷ b'S' ∷ b'P' ∷ b'L' ∷ b'A' ∷ b'Y' ∷ []

abbrev display : List ℕ
display = display_key ++ b'=' ∷ b':' ∷ b'0' ∷ []
