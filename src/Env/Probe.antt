-- ===== src/Env/Probe.antt =====
-- The search through the slots: what it finds, and what a write to a slot changes for it.
use micro_container.Prelude.{
  ◌==◌, ==→eq, eq→==, Bool-cases, str_eq→eq, str_eq_refl, ℕ, suc, ◌≡◌, refl, ◌⊎◌, inl, inr, true,
  false, Option, none, some, List, [], ◌∷◌, length, get_or, set, get_or-set_self, get_or-set_ne,
  zero, ◌+◌, ◌%◌, ◌<◌, ap, ◌∙◌, arith, sym,
}
use native.Mathlib.Nat.{mod-lt}
use micro_container.Env.{Entry, Looked, has_key, lookup_step, found, unused, lookup_loop, free_loop}

-- Which slots are in use.
abbrev pub used_count : List (Option Entry) → ℕ
used_count [] = 0
used_count (none ∷ slots) = used_count slots
used_count (some e ∷ slots) = suc (used_count slots)

pub has_key_here :
    (e : Entry) (h : ℕ) (k : List ℕ) → has_key e h k ≡ true → (e.hash ≡ h) × (e.key ≡ k)
has_key_here e h k t = elim (Bool-cases (e.hash == h)) [
  | inl same ↦ (==→eq e.hash h same, str_eq→eq e.key k (rw same at t))
  | inr other ↦ absurd (cc (rw other at t))
]

pub has_key_own : (e : Entry) → has_key e e.hash e.key ≡ true
has_key_own e = rw (eq→== e.hash e.hash refl, str_eq_refl e.key) refl

found_cases :
    (o : Option Entry) (h : ℕ) (k : List ℕ) (i : ℕ) (rest : Option Looked) (j : ℕ)
    → lookup_step o h k i rest ≡ some (found j)
    → (e : Entry) × (o ≡ some e)
      × (((has_key e h k ≡ true) × (i ≡ j)) ⊎ ((has_key e h k ≡ false) × (rest ≡ some (found j))))
unfolding lookup_step
found_cases none h k i rest j t = absurd (cc t)
found_cases (some e) h k i rest j t = elim (Bool-cases (has_key e h k)) [
  | inl same ↦ (e, refl, inl (same, cc (rw same at t)))
  | inr other ↦ (e, refl, inr (other, rw other at t))
]

unused_cases :
    (o : Option Entry) (h : ℕ) (k : List ℕ) (i : ℕ) (rest : Option Looked) (j : ℕ)
    → lookup_step o h k i rest ≡ some (unused j)
    → ((o ≡ none) × (i ≡ j))
      ⊎ ((e : Entry) × (o ≡ some e) × (has_key e h k ≡ false) × (rest ≡ some (unused j)))
unfolding lookup_step
unused_cases none h k i rest j t = inl (refl, cc t)
unused_cases (some e) h k i rest j t = elim (Bool-cases (has_key e h k)) [
  | inl same ↦ absurd (cc (rw same at t))
  | inr other ↦ inr (e, refl, other, rw other at t)
]

-- Where the search finds its key, the key is there.
pub found_there :
    (fuel : ℕ) (slots : List (Option Entry)) (size h : ℕ) (k : List ℕ) (i j : ℕ)
    → lookup_loop fuel slots size h k i ≡ some (found j)
    → (e : Entry) × (get_or slots j none ≡ some e) × (e.hash ≡ h) × (e.key ≡ k)
unfolding lookup_loop
found_there zero slots size h k i j t = absurd (cc t)
found_there (suc fuel) slots size h k i j t =
    let (e, here, how) = found_cases (get_or slots i none) h k i _ j t in
    elim how [
      | inl (same, at) ↦
          let own = has_key_here e h k same in
          (e, ap (λ x. get_or slots x none) (sym at) ∙ here, own.0, own.1)
      | inr (other, rest) ↦ found_there fuel slots size h k ((i + 1) % size) j rest
    ]

-- Where it ends without the key, the slot is not in use.
pub unused_there :
    (fuel : ℕ) (slots : List (Option Entry)) (size h : ℕ) (k : List ℕ) (i j : ℕ)
    → lookup_loop fuel slots size h k i ≡ some (unused j)
    → get_or slots j none ≡ none
unfolding lookup_loop
unused_there zero slots size h k i j t = absurd (cc t)
unused_there (suc fuel) slots size h k i j t =
    elim (unused_cases (get_or slots i none) h k i _ j t) [
      | inl (here, at) ↦ rw (← at) here
      | inr (e, here, other, rest) ↦ unused_there fuel slots size h k ((i + 1) % size) j rest
    ]

-- It ends at a slot of the array.
pub unused_inside :
    (fuel : ℕ) (slots : List (Option Entry)) (size h : ℕ) (k : List ℕ) (i j : ℕ)
    → i < size
    → lookup_loop fuel slots size h k i ≡ some (unused j)
    → j < size
unfolding lookup_loop
unused_inside zero slots size h k i j inside t = absurd (cc t)
unused_inside (suc fuel) slots size h k i j inside t =
    elim (unused_cases (get_or slots i none) h k i _ j t) [
      | inl (here, at) ↦ omega (arith, at, inside)
      | inr (e, here, other, rest) ↦
          unused_inside fuel slots size h k ((i + 1) % size) j (mod-lt (i + 1) (omega arith)) rest
    ]

-- The search for a free slot ends where the search for an absent key ends.
pub free_loop-lookup :
    (fuel : ℕ) (slots : List (Option Entry)) (size h : ℕ) (k : List ℕ) (i j : ℕ)
    → lookup_loop fuel slots size h k i ≡ some (unused j)
    → free_loop fuel slots size i ≡ some j
unfolding lookup_loop free_loop
free_loop-lookup zero slots size h k i j t = absurd (cc t)
free_loop-lookup (suc fuel) slots size h k i j t =
    elim (unused_cases (get_or slots i none) h k i _ j t) [
      | inl (here, at) ↦ rw here (ap some at)
      | inr (e, here, other, rest) ↦
          rw here (free_loop-lookup fuel slots size h k ((i + 1) % size) j rest)
    ]

-- A write to a slot that is not in use is not seen at one that is.
pub still_there :
    (slots : List (Option Entry)) (i j : ℕ) (e : Entry) (v : Option Entry)
    → get_or slots i none ≡ some e
    → get_or slots j none ≡ none
    → get_or (set slots j v) i none ≡ some e
still_there slots i j e v here free =
    get_or-set_ne slots j i v none (λ same. absurd (cc (free, rw (← same) at here))) ∙ here

-- What was found is still found after an entry was put into a free slot.
pub found-set :
    (fuel : ℕ) (slots : List (Option Entry)) (size h : ℕ) (k : List ℕ) (i j f : ℕ)
    (v : Option Entry)
    → get_or slots f none ≡ none
    → lookup_loop fuel slots size h k i ≡ some (found j)
    → lookup_loop fuel (set slots f v) size h k i ≡ some (found j)
unfolding lookup_loop lookup_step
found-set zero slots size h k i j f v free t = absurd (cc t)
found-set (suc fuel) slots size h k i j f v free t =
    let (e, here, how) = found_cases (get_or slots i none) h k i _ j t in
    rw (still_there slots i f e v here free) (elim how [
      | inl (same, at) ↦ rw same (ap (λ x. some (found x)) at)
      | inr (other, rest) ↦
          rw other (found-set fuel slots size h k ((i + 1) % size) j f v free rest)
    ])

-- An entry that is put where the search for its key ended is found there.
pub found_own :
    (fuel : ℕ) (slots : List (Option Entry)) (size : ℕ) (e : Entry) (i j : ℕ)
    → j < length slots
    → lookup_loop fuel slots size e.hash e.key i ≡ some (unused j)
    → lookup_loop fuel (set slots j (some e)) size e.hash e.key i ≡ some (found j)
unfolding lookup_loop lookup_step
found_own zero slots size e i j inside t = absurd (cc t)
found_own (suc fuel) slots size e i j inside t =
    elim (unused_cases (get_or slots i none) e.hash e.key i _ j t) [
      | inl (here, at) ↦
          rw
            (
              ap (λ x. get_or (set slots j (some e)) x none) at
                  ∙ get_or-set_self slots j (some e) none inside,
              has_key_own e,
            )
            (ap (λ x. some (found x)) at)
      | inr (e', here, other, rest) ↦
          rw
            (
              still_there slots i j e' (some e) here
                  (unused_there fuel slots size e.hash e.key ((i + 1) % size) j rest),
              other,
            )
            (found_own fuel slots size e ((i + 1) % size) j inside rest)
    ]
