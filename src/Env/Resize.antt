-- ===== src/Env/Resize.antt =====
-- The outcome of `map_resize`, on a table that keeps its invariant.
use micro_container.Prelude.{
  get_or, replicate, length-replicate, ℕ, zero, suc, ◌<◌, ◌≡◌, refl, inl, inr, Option, none, some,
  [], arith,
}
use micro_container.Env.{Entry, EnvMap, map_resize}
use micro_container.Env.Probe.{used_count}
use micro_container.Env.Placed.{IsPlaced, one_slot}
use micro_container.Env.Rehash.{Has, Joined, map_rehash-Joined}

-- A table that keeps its invariant and counts its entries.
pub record IsMap (m : EnvMap) : Type 0 where
  pub placed : IsPlaced m.slots m.cap
  pub counted : used_count m.slots ≡ m.len

get_or-replicate : (n i : ℕ) → get_or (replicate {A = Option Entry} n none) i none ≡ none
get_or-replicate zero i = refl
get_or-replicate (suc n) zero = refl
get_or-replicate (suc n) (suc i) = get_or-replicate n i

pub used_count-replicate : (n : ℕ) → used_count (replicate n none) ≡ 0
used_count-replicate zero = refl
used_count-replicate (suc n) = used_count-replicate n

none_free : {A : Type 0} (n i : ℕ) (e : Entry) → get_or (replicate n none) i none ≡ some e → A
none_free n i e t = absurd (cc (get_or-replicate n i, t))

pub fresh-IsPlaced : (n : ℕ) → 0 < n → IsPlaced (replicate n none) n
fresh-IsPlaced n room = record {
  fits = length-replicate n none;
  room = omega (arith, used_count-replicate n);
  hashed = λ i e t. none_free n i e t;
  own = λ i e t. none_free n i e t;
}

-- The outcome of `map_resize`.
pub record Resized (m : EnvMap) (nc : ℕ) : Type 0 where
  pub made : EnvMap
  pub done : map_resize m nc ≡ some made
  pub is_map : IsMap made
  pub keeps : (e : Entry) → Has m.slots e → Has made.slots e
  pub only : (e : Entry) → Has made.slots e → Has m.slots e
  pub cap : made.cap ≡ nc
  pub len : made.len ≡ m.len

from_rehash :
    (m : EnvMap) (nc : ℕ)
    → used_count m.slots ≡ m.len
    → Joined m.slots (replicate nc none) nc
    → Resized m nc
unfolding map_resize
from_rehash m nc counted g = record {
  made = record { slots = g.out; cap = nc; len = m.len };
  done = rw g.done refl;
  is_map = record {
    placed = g.placed;
    counted = omega (arith, g.counted, used_count-replicate nc, counted);
  };
  keeps = g.keeps_src;
  only = λ e has. elim (g.only e has) [ inl old ↦ old | inr (i, t) ↦ none_free nc i e t ];
  cap = refl;
  len = refl;
}

pub map_resize-Resized : (m : EnvMap) (nc : ℕ) → IsMap m → m.len < nc → Resized m nc
map_resize-Resized m nc h room =
    let p = h.placed in
    from_rehash m nc h.counted (
      map_rehash-Joined m.slots (replicate nc none) nc (record {
        placed = fresh-IsPlaced nc (omega arith);
        room = omega (arith, used_count-replicate nc, h.counted);
        hashed = p.hashed;
        single = one_slot m.slots m.cap p;
        apart = λ i j e e' t t'. none_free nc j e' t';
      }))

pub env_map_init-Resized : Resized (record { slots = []; cap = 0; len = 0 }) 16
env_map_init-Resized =
    from_rehash (record { slots = []; cap = 0; len = 0 }) 16 refl
      (map_rehash-Joined [] (replicate 16 none) 16 (record {
        placed = fresh-IsPlaced 16 (omega arith);
        room = omega (arith, used_count-replicate 16);
        hashed = λ i e t. absurd (cc t);
        single = λ i j e e' t. absurd (cc t);
        apart = λ i j e e' t. absurd (cc t);
      }))
