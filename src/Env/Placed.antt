-- ===== src/Env/Placed.antt =====
-- The invariant of the slots: the search for the key of an entry ends at the entry. Putting an entry
-- where the search for its key ended, and changing a value, keep it.
use native.Mathlib.Nat.{mod-lt}
use micro_container.Prelude.{
  ◌==◌, ==→eq, Bool-cases, length, get_or, set, length-set, get_or-set_self, get_or-set_ne, ℕ, zero,
  suc, ◌%◌, ◌<◌, ◌≡◌, refl, sym, ap, ◌∙◌, ◌≢◌, ◌⊎◌, inl, inr, Option, none, some, List, [], ◌∷◌,
  arith,
}
use micro_container.Env.{Entry, fnv1a, lookup_loop, found, unused}
use micro_container.Env.Probe.{used_count, unused_there, unused_inside, found-set, found_own}
use micro_container.Env.Ends.{lookup-set_val}

pub record IsPlaced (slots : List (Option Entry)) (size : ℕ) : Type 0 where
  pub fits : length slots ≡ size
  pub room : used_count slots < size
  pub hashed : (i : ℕ) (e : Entry) → get_or slots i none ≡ some e → e.hash ≡ fnv1a e.key
  pub own :
      (i : ℕ) (e : Entry)
      → get_or slots i none ≡ some e
      → lookup_loop size slots size e.hash e.key (e.hash % size) ≡ some (found i)

pub inside_of :
    (slots : List (Option Entry)) (i : ℕ) (e : Entry)
    → get_or slots i none ≡ some e
    → i < length slots
inside_of [] i e t = absurd (cc t)
inside_of (x ∷ slots) zero e t = omega arith
inside_of (x ∷ slots) (suc i) e t = omega (arith, inside_of slots i e t)

pub used_count-set_free :
    (slots : List (Option Entry)) (i : ℕ) (e : Entry)
    → i < length slots
    → get_or slots i none ≡ none
    → used_count (set slots i (some e)) ≡ suc (used_count slots)
used_count-set_free [] i e inside free = absurd (omega arith)
used_count-set_free (none ∷ slots) zero e inside free = refl
used_count-set_free (some x ∷ slots) zero e inside free = absurd (cc free)
used_count-set_free (none ∷ slots) (suc i) e inside free =
    used_count-set_free slots i e (omega arith) free
used_count-set_free (some x ∷ slots) (suc i) e inside free =
    ap suc (used_count-set_free slots i e (omega arith) free)

pub used_count-set_used :
    (slots : List (Option Entry)) (i : ℕ) (e e' : Entry)
    → get_or slots i none ≡ some e
    → used_count (set slots i (some e')) ≡ used_count slots
used_count-set_used [] i e e' here = refl
used_count-set_used (none ∷ slots) zero e e' here = absurd (cc here)
used_count-set_used (some x ∷ slots) zero e e' here = refl
used_count-set_used (none ∷ slots) (suc i) e e' here = used_count-set_used slots i e e' here
used_count-set_used (some x ∷ slots) (suc i) e e' here =
    ap suc (used_count-set_used slots i e e' here)

-- Which entry a slot holds after a write.
pub set_cases :
    (slots : List (Option Entry)) (i j : ℕ) (e e' : Entry)
    → j < length slots
    → get_or (set slots j (some e)) i none ≡ some e'
    → ((i ≡ j) × (e ≡ e')) ⊎ ((j ≢ i) × (get_or slots i none ≡ some e'))
set_cases slots i j e e' inside t = elim (Bool-cases (i == j)) [
  | inl same ↦
      let at = ==→eq i j same in
      inl (at, cc (get_or-set_self slots j (some e) none inside, rw at at t))
  | inr other ↦
      let ne : j ≢ i = ground arith in inr (ne, sym (get_or-set_ne slots j i (some e) none ne) ∙ t)
]

module _ (slots : List (Option Entry)) (size : ℕ) (p : IsPlaced slots size) where
  -- Two slots never hold the same key.
  pub one_slot :
      (i j : ℕ) (e e' : Entry)
      → get_or slots i none ≡ some e
      → get_or slots j none ≡ some e'
      → e.key ≡ e'.key
      → i ≡ j
  one_slot i j e e' here there same =
      let t = p.own i e here in
      let t' = p.own j e' there in
      let h : e.hash ≡ e'.hash = p.hashed i e here ∙ ap fnv1a same ∙ sym (p.hashed j e' there) in
      cc (rw (h, same) at t, t')

  -- Where the search ends without the key, no slot has it.
  pub absent :
      (k : List ℕ) (j : ℕ)
      → lookup_loop size slots size (fnv1a k) k (fnv1a k % size) ≡ some (unused j)
      → (i : ℕ) (e : Entry) → get_or slots i none ≡ some e
      → e.key ≢ k
  absent k j t i e here same =
      let t' = p.own i e here in
      let h : e.hash ≡ fnv1a k = p.hashed i e here ∙ ap fnv1a same in
      absurd (cc (rw (h, same) at t', t))

  pub insert-IsPlaced :
      (e : Entry) (j : ℕ)
      → e.hash ≡ fnv1a e.key
      → suc (used_count slots) < size
      → lookup_loop size slots size e.hash e.key (e.hash % size) ≡ some (unused j)
      → IsPlaced (set slots j (some e)) size
  insert-IsPlaced e j hash_right room t =
      let free = unused_there size slots size e.hash e.key _ j t in
      let inside' =
        unused_inside size slots size e.hash e.key _ j (mod-lt e.hash (omega arith)) t in
      let inside : j < length slots = omega (arith, p.fits, inside') in
      record {
        fits = length-set slots j (some e) ∙ p.fits;
        room = omega (arith, used_count-set_free slots j e inside free);
        hashed = λ i e' here. elim (set_cases slots i j e e' inside here) [
          | inl (at, same) ↦ rw same at hash_right
          | inr (ne, there) ↦ p.hashed i e' there
        ];
        own = λ i e' here. elim (set_cases slots i j e e' inside here) [
          | inl (at, same) ↦
              rw (← same, at) (found_own size slots size e (e.hash % size) j inside t)
          | inr (ne, there) ↦
              found-set size slots size e'.hash e'.key (e'.hash % size) i j (some e) free
                (p.own i e' there)
        ];
      }

  pub update-IsPlaced :
      (e : Entry) (j : ℕ) (v : List ℕ)
      → get_or slots j none ≡ some e
      → IsPlaced (set slots j (some (record e { val = v }))) size
  update-IsPlaced e j v here =
      let made : Entry = record e { val = v } in
      let inside = inside_of slots j e here in
      record {
        fits = length-set slots j (some made) ∙ p.fits;
        room = omega (arith, p.room, used_count-set_used slots j e made here);
        hashed = λ i e' there. elim (set_cases slots i j made e' inside there) [
          | inl (at, same) ↦ rw (← same) (p.hashed j e here)
          | inr (ne, old) ↦ p.hashed i e' old
        ];
        own = λ i e' there.
            lookup-set_val size slots size e'.hash e'.key (e'.hash % size) j e v here inside
            ∙ elim (set_cases slots i j made e' inside there) [
              | inl (at, same) ↦ rw (← same, at) (p.own j e here)
              | inr (ne, old) ↦ p.own i e' old
            ];
      }
