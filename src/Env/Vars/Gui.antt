-- ===== src/Env/Vars/Gui.antt =====
-- What `env_map_ensure` and `env_inherit_gui` put into the table.
use micro_container.Prelude.{
  leb, if◌then◌else◌, length, str_eq, ℕ, ◌≡◌, Option, none, some, List, [], ◌∷◌,
}
use micro_container.Pkg.Deps.{part_at}
use micro_container.Env.{EnvMap, env_map_get}
use micro_container.Env.Resize.{IsMap}
use micro_container.Env.Vars.{key_is_gui}

-- A value that was there stays; an empty one is not put in.
abbrev pub or_else : Option (List ℕ) → List ℕ → Option (List ℕ)
or_else (some old) v = some old
or_else none [] = none
or_else none (c ∷ v) = some (c ∷ v)

-- What a string of the blob, parted at '=', makes of the value of a key.
abbrev pub adopted : List ℕ × Option (List ℕ) → List ℕ → Option (List ℕ) → Option (List ℕ)
adopted (k, none) key old = old
adopted (k, some v) key old =
    if leb 128 (length k)
    then old
    else if key_is_gui k
    then (if str_eq k key then or_else old v else old)
    else old

-- The value of a key after the blob: what it had, or else the first that the blob gives it.
abbrev pub first_gui : List (List ℕ) → List ℕ → Option (List ℕ) → Option (List ℕ)
first_gui [] key old = old
first_gui ([] ∷ strings) key old = old
first_gui ((c ∷ s) ∷ strings) key old =
    first_gui strings key (adopted (part_at b'=' (c ∷ s)) key old)

-- A call ended with a table in which `value` gives each key its value from the one it had.
record Maps (m : EnvMap) (r : Option EnvMap) (value : List ℕ → Option (List ℕ) → Option (List ℕ))
    : Type 0 where
  made : EnvMap
  done : r ≡ some made
  is_map : IsMap made
  gets :
      (key : List ℕ) (old : Option (List ℕ))
      → env_map_get m key ≡ some old
      → env_map_get made key ≡ some (value key old)

-- The call ended, and the key has the value.
pub record IsInherited (key : List ℕ) (value : Option (List ℕ)) (r : Option EnvMap) : Type 0 where
  pub made : EnvMap
  pub done : r ≡ some made
  pub is_map : IsMap made
  pub gets : env_map_get made key ≡ some value
