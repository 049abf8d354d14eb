-- ===== src/Env.antt =====
-- src/util/env_map.c: the hash table of the environment variables, with open addressing. The arrays
-- `hashes`, `keys`, `vals` and `used` are one array of slots, `none` where `used` is 0; `hashes` is
-- NULL where `cap` is 0. A loop that runs out of its rounds gives `none`.
pub mod Probe
pub mod Ends
pub mod Placed
pub mod Rehash
pub mod Resize
pub mod Gets
pub mod Finite
pub mod Vars
pub mod Built
use micro_container.Prelude.{
  ◌>>=◌, leb, ◌==◌, if◌then◌else◌, get_or, set, replicate, u32, str_eq, ℕ, zero, suc, ◌+◌, ◌*◌, ◌/◌,
  ◌%◌, bit_xor, Bool, ◌&&◌, Option, none, some, List, [], ◌∷◌, ◌++◌,
}

pub record Entry : Type 0 where
  pub hash : ℕ
  pub key : List ℕ
  pub val : List ℕ

pub record EnvMap : Type 0 where
  pub slots : List (Option Entry)
  pub cap : ℕ
  pub len : ℕ

abbrev pub fnv_loop : ℕ → List ℕ → ℕ
fnv_loop h [] = h
fnv_loop h (c ∷ s) = fnv_loop (u32 (bit_xor h c * 16777619)) s

unfoldable pub fnv1a : List ℕ → ℕ
fnv1a s = fnv_loop 2166136261 s

-- The slot at which the search ends: it holds the key, or it is not in use.
pub data Looked : Type 0 where
  found unused : ℕ → Looked

abbrev pub has_key : Entry → ℕ → List ℕ → Bool
has_key e h k = (e.hash == h) && str_eq e.key k

-- One round at slot `i`; `rest` is the outcome of the rounds after it.
unfoldable pub lookup_step : Option Entry → ℕ → List ℕ → ℕ → Option Looked → Option Looked
lookup_step none h k i rest = some (unused i)
lookup_step (some e) h k i rest = if has_key e h k then some (found i) else rest

unfoldable pub lookup_loop : ℕ → List (Option Entry) → ℕ → ℕ → List ℕ → ℕ → Option Looked
unfolding lookup_step
lookup_loop zero slots size h k i = none
lookup_loop (suc fuel) slots size h k i =
    lookup_step (get_or slots i none) h k i (lookup_loop fuel slots size h k ((i + 1) % size))

unfoldable pub map_lookup : EnvMap → ℕ → List ℕ → Option Looked
unfolding lookup_loop
map_lookup m h k = lookup_loop m.cap m.slots m.cap h k (h % m.cap)

unfoldable pub free_step : Option Entry → ℕ → Option ℕ → Option ℕ
free_step none i rest = some i
free_step (some e) i rest = rest

unfoldable pub free_loop : ℕ → List (Option Entry) → ℕ → ℕ → Option ℕ
unfolding free_step
free_loop zero slots size i = none
free_loop (suc fuel) slots size i =
    free_step (get_or slots i none) i (free_loop fuel slots size ((i + 1) % size))

-- The slots of `dst`, an array of `size`, after the slots of `src` were put into it.
unfoldable pub map_rehash :
    List (Option Entry) → List (Option Entry) → ℕ → Option (List (Option Entry))
unfolding free_loop
map_rehash [] dst size = some dst
map_rehash (none ∷ src) dst size = map_rehash src dst size
map_rehash (some e ∷ src) dst size = do
  idx ← free_loop size dst size (e.hash % size)
  map_rehash src (set dst idx (some e)) size

unfoldable pub map_resize : EnvMap → ℕ → Option EnvMap
unfolding map_rehash
map_resize m nc = do
  slots ← map_rehash m.slots (replicate nc none) nc
  some (record { slots = slots; cap = nc; len = m.len })

unfoldable pub env_map_init : Option EnvMap
unfolding map_resize
env_map_init = map_resize (record { slots = []; cap = 0; len = 0 }) 16

abbrev pub env_map_free : EnvMap → EnvMap
env_map_free m = record { slots = []; cap = 0; len = 0 }

unfoldable pub maybe_grow : EnvMap → Option EnvMap
unfolding map_resize
maybe_grow m =
    if leb (m.cap * 7 / 10) m.len
    then map_resize m (m.cap + (if leb 64 m.cap then m.cap else 64))
    else some m

abbrev pub set_val : Option Entry → List ℕ → Option Entry
set_val none v = none
set_val (some e) v = some (record e { val = v })

-- The writes at the slot where the search ended.
unfoldable pub store : EnvMap → Looked → ℕ → List ℕ → List ℕ → EnvMap
store m (found i) h k v = record m { slots = set m.slots i (set_val (get_or m.slots i none) v) }
store m (unused i) h k v = record m {
  slots = set m.slots i (some (record { hash = h; key = k; val = v }));
  len = m.len + 1;
}

unfoldable pub env_map_put : EnvMap → List ℕ → List ℕ → Option EnvMap
unfolding maybe_grow map_lookup store
env_map_put m k v =
    if m.cap == 0
    then some m
    else (do m' ← maybe_grow m; r ← map_lookup m' (fnv1a k) k; some (store m' r (fnv1a k) k v))

abbrev pub val_of : Option Entry → Option (List ℕ)
val_of none = none
val_of (some e) = some e.val

abbrev pub val_at : List (Option Entry) → Looked → Option (List ℕ)
val_at slots (found i) = val_of (get_or slots i none)
val_at slots (unused i) = none

-- The inner `none` is NULL.
unfoldable pub env_map_get : EnvMap → List ℕ → Option (Option (List ℕ))
unfolding map_lookup
env_map_get m k =
    if m.cap == 0 then some none else (do r ← map_lookup m (fnv1a k) k; some (val_at m.slots r))

unfoldable pub ensure_with : EnvMap → List ℕ → List ℕ → Option (List ℕ) → Option EnvMap
unfolding env_map_put
ensure_with m k v (some old) = some m
ensure_with m k v none = env_map_put m k v

unfoldable pub env_map_ensure : EnvMap → List ℕ → Option (List ℕ) → Option EnvMap
unfolding env_map_get ensure_with
env_map_ensure m k none = some m
env_map_ensure m k (some []) = some m
env_map_ensure m k (some (c ∷ v)) = do old ← env_map_get m k; ensure_with m k (c ∷ v) old

abbrev pub build_kv : List ℕ → List ℕ → List ℕ
build_kv k v = k ++ b'=' ∷ v

-- The strings, without the NULL behind them.
unfoldable pub build_loop : List (Option Entry) → List (List ℕ)
build_loop [] = []
build_loop (none ∷ slots) = build_loop slots
build_loop (some e ∷ slots) = build_kv e.key e.val ∷ build_loop slots

unfoldable pub env_map_build : EnvMap → List (List ℕ)
unfolding build_loop
env_map_build m = build_loop m.slots
