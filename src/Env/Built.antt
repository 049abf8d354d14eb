-- ===== src/Env/Built.antt =====
-- `env_map_build`: the variables of the table as strings.
use mathlib.Core.List.{Memᴰ}
use micro_container.Prelude.{
  length, get_or, ℕ, zero, suc, ◌≡◌, refl, ap, Option, none, some, List, [], ◌∷◌, ◌∙◌, inl, inr,
}
use micro_container.Env.{Entry, EnvMap, env_map_get, build_kv, build_loop, env_map_build}
use micro_container.Env.Probe.{used_count}
use micro_container.Env.Rehash.{Has}
use micro_container.Env.Resize.{IsMap}
use micro_container.Env.Gets.{key_cases, get_present, get_absent}

build_loop-counts : (slots : List (Option Entry)) → length (build_loop slots) ≡ used_count slots
unfolding build_loop
build_loop-counts [] = refl
build_loop-counts (none ∷ slots) = build_loop-counts slots
build_loop-counts (some e ∷ slots) = ap suc (build_loop-counts slots)

build_loop-holds :
    (slots : List (Option Entry)) (i : ℕ) (e : Entry)
    → get_or slots i none ≡ some e
    → Memᴰ (build_kv e.key e.val) (build_loop slots)
unfolding build_loop
build_loop-holds [] i e t = absurd (cc t)
build_loop-holds (none ∷ slots) zero e t = absurd (cc t)
build_loop-holds (some x ∷ slots) zero e t = let same : x ≡ e = cc t in rw (← same) (Memᴰ.head refl)
build_loop-holds (none ∷ slots) (suc i) e t = build_loop-holds slots i e t
build_loop-holds (some x ∷ slots) (suc i) e t = Memᴰ.tail (build_loop-holds slots i e t)

build_loop-only :
    (slots : List (Option Entry)) (s : List ℕ)
    → Memᴰ s (build_loop slots)
    → (e : Entry) × Has slots e × (s ≡ build_kv e.key e.val)
unfolding build_loop
build_loop-only [] s t = elim t [ ]
build_loop-only (none ∷ slots) s t =
    let (e, (i, here), same) = build_loop-only slots s t in (e, (suc i, here), same)
build_loop-only (some x ∷ slots) s (Memᴰ.head t) = (x, (0, refl), t)
build_loop-only (some x ∷ slots) s (Memᴰ.tail t) =
    let (e, (i, here), same) = build_loop-only slots s t in (e, (suc i, here), same)

-- What `env_map_build` makes: as many strings as there is room for in its array, and those of the
-- variables that `env_map_get` finds.
pub record IsBuilt (m : EnvMap) : Type 0 where
  pub fits : length (env_map_build m) ≡ m.len
  pub complete :
      (k v : List ℕ) → env_map_get m k ≡ some (some v) → Memᴰ (build_kv k v) (env_map_build m)
  pub sound :
      (s : List ℕ)
      → Memᴰ s (env_map_build m)
      → (k v : List ℕ) × (env_map_get m k ≡ some (some v)) × (s ≡ build_kv k v)

lists :
    (m : EnvMap) (k v : List ℕ)
    → IsMap m
    → env_map_get m k ≡ some (some v)
    → Memᴰ (build_kv k v) (env_map_build m)
unfolding env_map_build
lists m k v h t = elim (key_cases m h k) [
  | inl (e, (i, here), same) ↦
      let value : e.val ≡ v = cc (get_present m h e (i, here), rw (← same) at t) in
      rw (← same, ← value) (build_loop-holds m.slots i e here)
  | inr lacks ↦ absurd (cc (get_absent m h k lacks, t))
]

-- On a table that keeps its invariant, `env_map_build` makes as many strings as the table counts
-- variables, and they are those of the variables that `env_map_get` finds.
pub env_map_build-IsBuilt : (m : EnvMap) → IsMap m → IsBuilt m
unfolding env_map_build
env_map_build-IsBuilt m h = record {
  fits = build_loop-counts m.slots ∙ h.counted;
  complete = λ k v t. lists m k v h t;
  sound = λ s t.
      let (e, has, same) = build_loop-only m.slots s t in
      (e.key, e.val, get_present m h e has, same);
}
