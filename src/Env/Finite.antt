-- ===== src/Env/Finite.antt =====
-- The table is a finite map: what the calls of env_map.c give, stated by their keys alone.
use mathlib.Core.Path.{subst}
use native.Mathlib.Nat.{mod-lt}
use micro_container.Prelude.{
  leb, if◌then◌else◌, leb→gt, Bool-cases, length, set, str_eq, ℕ, suc, ◌+◌, ◌*◌, ◌/◌, ◌%◌, ◌<◌, ◌≡◌,
  refl, sym, ap, ◌∙◌, inl, inr, none, some, List, arith,
}
use micro_container.Env.{
  Entry, EnvMap, fnv1a, Looked, lookup_loop, map_lookup, env_map_init, maybe_grow, set_val, store,
  env_map_put, env_map_get, found, unused,
}
use micro_container.Env.Probe.{used_count, found_there, unused_there, unused_inside}
use micro_container.Env.Ends.{lookup_ends}
use micro_container.Env.Placed.{
  IsPlaced, inside_of, used_count-set_free, used_count-set_used, insert-IsPlaced, update-IsPlaced,
}
use micro_container.Env.Resize.{IsMap, map_resize-Resized, env_map_init-Resized}
use micro_container.Env.Gets.{has_room, get_absent, get_same, get_written}

-- The outcome of `maybe_grow`: the same entries, and room for one more.
record Grown (m : EnvMap) : Type 0 where
  made : EnvMap
  done : maybe_grow m ≡ some made
  is_map : IsMap made
  room : suc made.len < made.cap
  same : (k : List ℕ) → env_map_get made k ≡ env_map_get m k

maybe_grow-Grown : (m : EnvMap) → IsMap m → Grown m
unfolding maybe_grow
maybe_grow-Grown m h = elim (Bool-cases (leb (m.cap * 7 / 10) m.len)) [
  | inl full ↦
      let g =
        map_resize-Resized m (m.cap + (if leb 64 m.cap then m.cap else 64)) h
          (ground (arith, h.placed.room, h.counted)) in
      record {
        made = g.made;
        done = rw full g.done;
        is_map = g.is_map;
        room = ground (arith, h.placed.room, h.counted, g.cap, g.len);
        same = get_same m g.made h g.is_map g.keeps g.only;
      }
  | inr more ↦ record {
    made = m;
    done = rw more refl;
    is_map = h;
    room = let lt = leb→gt (m.cap * 7 / 10) m.len more in omega (arith, lt);
    same = λ k. refl;
  }
]

-- The outcome of `env_map_put`.
pub record IsAssigned (m : EnvMap) (k v : List ℕ) : Type 0 where
  pub made : EnvMap
  pub done : env_map_put m k v ≡ some made
  pub is_map : IsMap made
  pub gets :
      (key : List ℕ)
      → env_map_get made key ≡ (if str_eq k key then some (some v) else env_map_get m key)

-- The write at the slot where the search ended.
record IsStored (m : EnvMap) (r : Looked) (k v : List ℕ) : Type 0 where
  is_map : IsMap (store m r (fnv1a k) k v)
  gets :
      (key : List ℕ)
      → env_map_get (store m r (fnv1a k) k v) key
        ≡ (if str_eq k key then some (some v) else env_map_get m key)

store-IsStored :
    (m : EnvMap) (h : IsMap m) (r : Looked) (k v : List ℕ)
    → suc m.len < m.cap
    → lookup_loop m.cap m.slots m.cap (fnv1a k) k (fnv1a k % m.cap) ≡ some r
    → IsStored m r k v
unfolding store
store-IsStored m h (unused j) k v room t =
    let e : Entry = record { hash = fnv1a k; key = k; val = v } in
    let free = unused_there m.cap m.slots m.cap (fnv1a k) k _ j t in
    let j_inside =
      unused_inside m.cap m.slots m.cap (fnv1a k) k _ j (mod-lt (fnv1a k) {m = m.cap} (omega arith))
        t in
    let inside : j < length m.slots = omega (arith, h.placed.fits, j_inside) in
    let is_map : IsMap (store m (unused j) (fnv1a k) k v) = record {
      placed = insert-IsPlaced m.slots m.cap h.placed e j refl (omega (arith, h.counted)) t;
      counted = omega (arith, used_count-set_free m.slots j e inside free, h.counted);
    } in
    record {
      is_map = is_map;
      gets = λ key. get_written m _ h is_map j e key inside refl (λ e' t'. absurd (cc (free, t')));
    }
store-IsStored m h (found j) k v room t =
    let (e, here, same_hash, same_key) = found_there m.cap m.slots m.cap (fnv1a k) k _ j t in
    let made : Entry = record e { val = v } in
    let inside = inside_of m.slots j e here in
    let written : (store m (found j) (fnv1a k) k v).slots ≡ set m.slots j (some made) =
      ap (λ o. set m.slots j (set_val o v)) here in
    let is_map : IsMap (store m (found j) (fnv1a k) k v) = record {
      placed =
          subst (λ s. IsPlaced s m.cap) (sym written)
            (update-IsPlaced m.slots m.cap h.placed e j v here);
      counted = ap used_count written ∙ used_count-set_used m.slots j e made here ∙ h.counted;
    } in
    record {
      is_map = is_map;
      gets = λ key.
          get_written m _ h is_map j made key inside written
            (λ e' t'. let same : e' ≡ e = cc (here, t') in ap (λ x. x.key) same)
          ∙ ap (λ x. if str_eq x key then some (some v) else env_map_get m key) same_key;
    }

-- On a table that keeps its invariant, `env_map_put` ends and keeps it. Afterwards `env_map_get` gives
-- the new value for its key, and for every other key what it gave before.
pub env_map_put-IsAssigned : (m : EnvMap) (k v : List ℕ) → IsMap m → IsAssigned m k v
unfolding env_map_put map_lookup
env_map_put-IsAssigned m k v h =
    let g = maybe_grow-Grown m h in
    let (r, t) =
      lookup_ends g.made.slots g.made.cap (fnv1a k) k g.is_map.placed.fits g.is_map.placed.room in
    let stored = store-IsStored g.made g.is_map r k v g.room t in
    record {
      made = store g.made r (fnv1a k) k v;
      done = rw (has_room m h, g.done, t) refl;
      is_map = stored.is_map;
      gets =
          λ key. stored.gets key ∙ ap (λ x. if str_eq k key then some (some v) else x) (g.same key);
    }

-- The outcome of `env_map_init`.
pub record IsEmpty : Type 0 where
  pub made : EnvMap
  pub done : env_map_init ≡ some made
  pub is_map : IsMap made
  pub gets : (key : List ℕ) → env_map_get made key ≡ some none

-- The table that `env_map_init` makes keeps the invariant and has no key.
pub env_map_init-IsEmpty : IsEmpty
unfolding env_map_init
env_map_init-IsEmpty =
    let g = env_map_init-Resized in
    record {
      made = g.made;
      done = g.done;
      is_map = g.is_map;
      gets = λ key. get_absent g.made g.is_map key (λ e has. absurd (cc (g.only e has).1));
    }
