-- ===== src/Env/Rehash.antt =====
-- A resize keeps every entry and adds none.
use native.Mathlib.Nat.{mod-lt}
use micro_container.Prelude.{
  length, get_or, set, get_or-set_self, ℕ, zero, suc, ◌+◌, ◌%◌, ◌<◌, ◌≡◌, refl, sym, ap, ◌∙◌, ◌≢◌,
  ◌⊎◌, inl, inr, Option, none, some, List, [], ◌∷◌, arith,
}
use micro_container.Env.{Entry, fnv1a, lookup_loop, map_rehash, found, unused, Looked}
use micro_container.Env.Probe.{
  used_count, unused_there, unused_inside, free_loop-lookup, found_there, still_there,
}
use micro_container.Env.Ends.{lookup_ends}
use micro_container.Env.Placed.{IsPlaced, used_count-set_free, set_cases, insert-IsPlaced}

-- A slot holds the entry.
abbrev pub Has : List (Option Entry) → Entry → Type 0
Has slots e = (i : ℕ) × (get_or slots i none ≡ some e)

-- What the slots still to come are to the slots that they are put into.
pub record Joins (src dst : List (Option Entry)) (size : ℕ) : Type 0 where
  pub placed : IsPlaced dst size
  pub room : used_count src + used_count dst < size
  pub hashed : (i : ℕ) (e : Entry) → get_or src i none ≡ some e → e.hash ≡ fnv1a e.key
  pub single :
      (i j : ℕ) (e e' : Entry)
      → get_or src i none ≡ some e
      → get_or src j none ≡ some e'
      → e.key ≡ e'.key
      → i ≡ j
  pub apart :
      (i j : ℕ) (e e' : Entry)
      → get_or src i none ≡ some e
      → get_or dst j none ≡ some e'
      → e.key ≢ e'.key

-- What `map_rehash` makes of them.
pub record Joined (src dst : List (Option Entry)) (size : ℕ) : Type 0 where
  pub out : List (Option Entry)
  pub done : map_rehash src dst size ≡ some out
  pub placed : IsPlaced out size
  pub counted : used_count out ≡ used_count src + used_count dst
  pub keeps_src : (e : Entry) → Has src e → Has out e
  pub keeps_dst : (e : Entry) → Has dst e → Has out e
  pub only : (e : Entry) → Has out e → Has src e ⊎ Has dst e

none-Has : (src : List (Option Entry)) (e : Entry) → Has (none ∷ src) e → Has src e
none-Has src e (zero, t) = absurd (cc t)
none-Has src e (suc i, t) = (i, t)

some-Has : (src : List (Option Entry)) (a e : Entry) → Has (some a ∷ src) e → (a ≡ e) ⊎ Has src e
some-Has src a e (zero, t) = inl (cc t)
some-Has src a e (suc i, t) = inr (i, t)

skip_none :
    (src dst : List (Option Entry)) (size : ℕ) → Joins (none ∷ src) dst size → Joins src dst size
skip_none src dst size h = record {
  placed = h.placed;
  room = h.room;
  hashed = λ i e t. h.hashed (suc i) e t;
  single =
      λ i j e e' t t' same. let at = h.single (suc i) (suc j) e e' t t' same in omega (arith, at);
  apart = λ i j e e' t t'. h.apart (suc i) j e e' t t';
}

-- Where the search for the first entry ends, it can be put.
put_first :
    (e : Entry) (src dst : List (Option Entry)) (size j : ℕ)
    → Joins (some e ∷ src) dst size
    → lookup_loop size dst size e.hash e.key (e.hash % size) ≡ some (unused j)
    → Joins src (set dst j (some e)) size
put_first e src dst size j h t =
    let p = h.placed in
    let j_inside =
      unused_inside size dst size e.hash e.key _ j
        (mod-lt e.hash {m = size} (omega (arith, h.room))) t in
    let inside : j < length dst = omega (arith, p.fits, j_inside) in
    let free = unused_there size dst size e.hash e.key _ j t in
    record {
      placed = insert-IsPlaced dst size p e j (h.hashed 0 e refl) (omega (arith, h.room)) t;
      room = omega (arith, h.room, used_count-set_free dst j e inside free);
      hashed = λ i e' t'. h.hashed (suc i) e' t';
      single = λ i i' a b ta tb same.
          let at = h.single (suc i) (suc i') a b ta tb same in omega (arith, at);
      apart = λ i i' a b ta tb same. elim (set_cases dst i' j e b inside tb) [
        | inl (at, eq) ↦
            let zero_suc = h.single (suc i) 0 a e ta refl (same ∙ ap (λ x. x.key) (sym eq)) in
            absurd (omega (arith, zero_suc))
        | inr (ne, old) ↦ h.apart (suc i) i' a b ta old same
      ];
    }

not_found :
    (e : Entry) (src dst : List (Option Entry)) (size : ℕ)
    → Joins (some e ∷ src) dst size
    → (r : Looked) → lookup_loop size dst size e.hash e.key (e.hash % size) ≡ some r
    → (j : ℕ) × (lookup_loop size dst size e.hash e.key (e.hash % size) ≡ some (unused j))
not_found e src dst size h (found j) t =
    let (e', here, same_hash, same_key) = found_there size dst size e.hash e.key _ j t in
    absurd (h.apart 0 j e e' refl here (sym same_key))
not_found e src dst size h (unused j) t = (j, t)

-- The first entry and the rest.
with_first :
    (e : Entry) (src dst : List (Option Entry)) (size j : ℕ)
    → Joins (some e ∷ src) dst size
    → lookup_loop size dst size e.hash e.key (e.hash % size) ≡ some (unused j)
    → Joined src (set dst j (some e)) size
    → Joined (some e ∷ src) dst size
unfolding map_rehash
with_first e src dst size j h t g =
    let p = h.placed in
    let j_inside =
      unused_inside size dst size e.hash e.key _ j
        (mod-lt e.hash {m = size} (omega (arith, h.room))) t in
    let inside : j < length dst = omega (arith, p.fits, j_inside) in
    let free = unused_there size dst size e.hash e.key _ j t in
    let stored = get_or-set_self dst j (some e) none inside in
    record {
      out = g.out;
      done = rw (free_loop-lookup size dst size e.hash e.key _ j t) g.done;
      placed = g.placed;
      counted = omega (arith, g.counted, used_count-set_free dst j e inside free);
      keeps_src = λ a has. elim (some-Has src e a has) [
        | inl eq ↦ g.keeps_dst a (j, stored ∙ ap some eq)
        | inr later ↦ g.keeps_src a later
      ];
      keeps_dst = λ a has. g.keeps_dst a (has.0, still_there dst has.0 j a (some e) has.1 free);
      only = λ a has. elim (g.only a has) [
        | inl (i, ta) ↦ inl (suc i, ta)
        | inr (i, ta) ↦ elim (set_cases dst i j e a inside ta) [
          | inl (at, eq) ↦ inl (0, ap some eq)
          | inr (ne, old) ↦ inr (i, old)
        ]
      ];
    }

pub map_rehash-Joined :
    (src dst : List (Option Entry)) (size : ℕ) → Joins src dst size → Joined src dst size
unfolding map_rehash
map_rehash-Joined [] dst size h = record {
  out = dst;
  done = refl;
  placed = h.placed;
  counted = omega arith;
  keeps_src = λ e has. absurd (cc has.1);
  keeps_dst = λ e has. has;
  only = λ e has. inr has;
}
map_rehash-Joined (none ∷ src) dst size h =
    let g = map_rehash-Joined src dst size (skip_none src dst size h) in
    record {
      out = g.out;
      done = g.done;
      placed = g.placed;
      counted = g.counted;
      keeps_src = λ e has. g.keeps_src e (none-Has src e has);
      keeps_dst = g.keeps_dst;
      only = λ e has. elim (g.only e has) [ inl (i, t) ↦ inl (suc i, t) | inr d ↦ inr d ];
    }
map_rehash-Joined (some e ∷ src) dst size h =
    let (r, t) = lookup_ends dst size e.hash e.key h.placed.fits h.placed.room in
    let (j, t') = not_found e src dst size h r t in
    with_first e src dst size j h t'
      (map_rehash-Joined src (set dst j (some e)) size (put_first e src dst size j h t'))
