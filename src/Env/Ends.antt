-- ===== src/Env/Ends.antt =====
-- The search ends where a slot is free, and a changed value does not change it.
use native.Mathlib.Nat.{mod-lt, mod-eq_of_lt, mod_self}
use micro_container.Prelude.{
  leb, ◌==◌, leb→le, leb→gt, ==→eq, Bool-cases, length, get_or, ℕ, zero, suc, ◌+◌, ◌%◌, ◌≤◌, ◌<◌,
  ◌≡◌, refl, ap, ◌∙◌, inl, inr, Option, none, some, List, [], ◌∷◌, arith, if◌then◌else◌, set,
  get_or-set_self, get_or-set_ne,
}
use micro_container.Env.{Entry, Looked, has_key, lookup_step, lookup_loop, found, unused}
use micro_container.Env.Probe.{used_count}

pub free_slot :
    (slots : List (Option Entry))
    → used_count slots < length slots
    → (j : ℕ) × (j < length slots) × (get_or slots j none ≡ none)
free_slot [] room = absurd (omega arith)
free_slot (none ∷ slots) room = (0, omega arith, refl)
free_slot (some e ∷ slots) room =
    let (j, inside, free) = free_slot slots (omega arith) in (suc j, omega arith, free)

-- The search has an outcome.
abbrev Ends : ℕ → List (Option Entry) → ℕ → ℕ → List ℕ → ℕ → Type 0
Ends fuel slots size h k i = (r : Looked) × (lookup_loop fuel slots size h k i ≡ some r)

step_ends :
    (o : Option Entry) (h : ℕ) (k : List ℕ) (i : ℕ) (rest : Option Looked) (r : Looked)
    → rest ≡ some r
    → (r' : Looked) × (lookup_step o h k i rest ≡ some r')
unfolding lookup_step
step_ends none h k i rest r t = (unused i, refl)
step_ends (some e) h k i rest r t = elim (Bool-cases (has_key e h k)) [
  | inl same ↦ (found i, rw same refl)
  | inr other ↦ (r, rw other t)
]

stops_ahead :
    (fuel : ℕ) (slots : List (Option Entry)) (size h : ℕ) (k : List ℕ) (i j : ℕ)
    → get_or slots j none ≡ none
    → j < size
    → i ≤ j
    → j < i + fuel
    → Ends fuel slots size h k i
unfolding lookup_loop lookup_step
stops_ahead zero slots size h k i j free inside ahead near = absurd (omega arith)
stops_ahead (suc fuel) slots size h k i j free inside ahead near = elim (Bool-cases (i == j)) [
  | inl here ↦ (unused i, rw (ap (λ x. get_or slots x none) (==→eq i j here) ∙ free) refl)
  | inr there ↦
      let less : i + 1 < size = ground arith in
      let (r, t) =
        stops_ahead fuel slots size h k (i + 1) j free inside (ground arith) (omega arith) in
      step_ends (get_or slots i none) h k i _ r (rw (mod-eq_of_lt less) t)
]

stops_around :
    (fuel : ℕ) (slots : List (Option Entry)) (size h : ℕ) (k : List ℕ) (i j : ℕ)
    → get_or slots j none ≡ none
    → j < size
    → i < size
    → size + j < i + fuel
    → Ends fuel slots size h k i
unfolding lookup_loop
stops_around zero slots size h k i j free inside here near = absurd (omega arith)
stops_around (suc fuel) slots size h k i j free inside here near =
    elim (Bool-cases (i + 1 == size)) [
      | inl last ↦
          let (r, t) =
            stops_ahead fuel slots size h k 0 j free inside (omega arith) (ground arith) in
          step_ends (get_or slots i none) h k i _ r
            (rw (ap (λ x. x % size) (==→eq (i + 1) size last) ∙ mod_self size) t)
      | inr more ↦
          let less : i + 1 < size = ground arith in
          let (r, t) =
            stops_around fuel slots size h k (i + 1) j free inside (ground arith) (omega arith) in
          step_ends (get_or slots i none) h k i _ r (rw (mod-eq_of_lt less) t)
    ]

-- Where a slot is free, as many rounds as there are slots are enough.
pub lookup_ends :
    (slots : List (Option Entry)) (size h : ℕ) (k : List ℕ)
    → length slots ≡ size
    → used_count slots < size
    → (r : Looked) × (lookup_loop size slots size h k (h % size) ≡ some r)
lookup_ends slots size h k fits room =
    let (j, inside, free) = free_slot slots (omega arith) in
    let start = mod-lt h {m = size} (omega arith) in
    elim (Bool-cases (leb (h % size) j)) [
      | inl ahead ↦
          stops_ahead size slots size h k (h % size) j free (omega arith) (leb→le _ _ ahead)
            (omega arith)
      | inr behind ↦
          let lt = leb→gt (h % size) j behind in
          stops_around size slots size h k (h % size) j free (omega arith) start (omega arith)
    ]

-- The search does not look at the values.
pub lookup-set_val :
    (fuel : ℕ) (slots : List (Option Entry)) (size h : ℕ) (k : List ℕ) (i j : ℕ) (e : Entry)
    (v : List ℕ)
    → get_or slots j none ≡ some e
    → j < length slots
    → lookup_loop fuel (set slots j (some (record e { val = v }))) size h k i
      ≡ lookup_loop fuel slots size h k i
unfolding lookup_loop lookup_step
lookup-set_val zero slots size h k i j e v here inside = refl
lookup-set_val (suc fuel) slots size h k i j e v here inside =
    let rest = lookup-set_val fuel slots size h k ((i + 1) % size) j e v here inside in
    elim (Bool-cases (i == j)) [
      | inl same ↦
          let at = ==→eq i j same in
          rw (at, get_or-set_self slots j (some (record e { val = v })) none inside, here)
            (ap (λ x. if has_key e h k then some (found j) else x) (rw at at rest))
      | inr other ↦
          rw (get_or-set_ne slots j i (some (record e { val = v })) none (ground arith))
            (ap (λ x. lookup_step (get_or slots i none) h k i x) rest)
    ]
