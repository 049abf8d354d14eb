-- ===== src/Env/Gets.antt =====
-- What `env_map_get` gives, by the entries of the table.
use micro_container.Prelude.{
  ◌==◌, if◌then◌else◌, Bool-cases, length, get_or, set, get_or-set_self, get_or-set_ne, str_eq,
  str_eq→eq, str_eq→ne, ℕ, ◌%◌, ◌<◌, ◌≡◌, refl, sym, ap, ◌∙◌, ◌≢◌, ◌⊎◌, inl, inr, false, Option,
  none, some, List, arith,
}
use micro_container.Env.{
  Entry, EnvMap, fnv1a, Looked, lookup_loop, map_lookup, val_at, env_map_get, found, unused,
}
use micro_container.Env.Probe.{found_there}
use micro_container.Env.Ends.{lookup_ends}
use micro_container.Env.Placed.{set_cases, absent}
use micro_container.Env.Rehash.{Has}
use micro_container.Env.Resize.{IsMap}

-- No entry has the key.
abbrev pub Lacks : List (Option Entry) → List ℕ → Type 0
Lacks slots k = (e : Entry) → Has slots e → e.key ≢ k

module _ (m : EnvMap) (h : IsMap m) where
  pub has_room : (m.cap == 0) ≡ false
  has_room = let room = h.placed.room in ground arith

  pub get_present : (e : Entry) → Has m.slots e → env_map_get m e.key ≡ some (some e.val)
  unfolding env_map_get map_lookup
  get_present e (i, t) = rw (has_room, ← h.placed.hashed i e t, h.placed.own i e t) (rw t refl)

  pub get_absent : (k : List ℕ) → Lacks m.slots k → env_map_get m k ≡ some none
  unfolding env_map_get map_lookup
  get_absent k lacks =
      let (r, t) = lookup_ends m.slots m.cap (fnv1a k) k h.placed.fits h.placed.room in
      rw (has_room, t) (value r t)
    where
      value :
          (r : Looked)
          → lookup_loop m.cap m.slots m.cap (fnv1a k) k (fnv1a k % m.cap) ≡ some r
          → some (val_at m.slots r) ≡ some none
      value (unused j) t = refl
      value (found j) t =
          let (e, here, same_hash, same_key) = found_there m.cap m.slots m.cap (fnv1a k) k _ j t in
          absurd (lacks e (j, here) same_key)

  looked_cases :
      (k : List ℕ) (r : Looked)
      → lookup_loop m.cap m.slots m.cap (fnv1a k) k (fnv1a k % m.cap) ≡ some r
      → ((e : Entry) × Has m.slots e × (e.key ≡ k)) ⊎ Lacks m.slots k
  looked_cases k (found j) t =
      let (e, here, same_hash, same_key) = found_there m.cap m.slots m.cap (fnv1a k) k _ j t in
      inl (e, (j, here), same_key)
  looked_cases k (unused j) t = inr (λ e has. absent m.slots m.cap h.placed k j t has.0 e has.1)

  pub key_cases : (k : List ℕ) → ((e : Entry) × Has m.slots e × (e.key ≡ k)) ⊎ Lacks m.slots k
  key_cases k =
      let (r, t) = lookup_ends m.slots m.cap (fnv1a k) k h.placed.fits h.placed.room in
      looked_cases k r t

-- A table with the same entries answers the same.
pub get_same :
    (m m' : EnvMap) (h : IsMap m) (h' : IsMap m')
    → ((e : Entry) → Has m.slots e → Has m'.slots e)
    → ((e : Entry) → Has m'.slots e → Has m.slots e)
    → (k : List ℕ) → env_map_get m' k ≡ env_map_get m k
get_same m m' h h' keeps only k = elim (key_cases m h k) [
  | inl (e, has, same) ↦
      rw (← same) (get_present m' h' e (keeps e has) ∙ sym (get_present m h e has))
  | inr lacks ↦ get_absent m' h' k (λ e has. lacks e (only e has)) ∙ sym (get_absent m h k lacks)
]

-- A write of another key does not bring the key in.
still-Lacks :
    (slots slots' : List (Option Entry)) (j : ℕ) (made : Entry) (k : List ℕ)
    → j < length slots
    → slots' ≡ set slots j (some made)
    → made.key ≢ k
    → Lacks slots k
    → Lacks slots' k
still-Lacks slots slots' j made k inside written other lacks e (i, t) same =
    elim (set_cases slots i j made e inside (sym (ap (λ x. get_or x i none) written) ∙ t)) [
      | inl (at, eq) ↦ other (ap (λ x. x.key) eq ∙ same)
      | inr (ne, old) ↦ lacks e (i, old) same
    ]

-- The table with an entry at `j`, where no other key stood.
pub get_written :
    (m m' : EnvMap) (h : IsMap m) (h' : IsMap m') (j : ℕ) (made : Entry) (k : List ℕ)
    → j < length m.slots
    → m'.slots ≡ set m.slots j (some made)
    → ((e : Entry) → get_or m.slots j none ≡ some e → e.key ≡ made.key)
    → env_map_get m' k ≡ (if str_eq made.key k then some (some made.val) else env_map_get m k)
get_written m m' h h' j made k inside written stood = elim (Bool-cases (str_eq made.key k)) [
  | inl same ↦
      rw (same, ← str_eq→eq made.key k same)
        (get_present m' h' made (
          j,
          ap (λ x. get_or x j none) written ∙ get_or-set_self m.slots j (some made) none inside,
        ))
  | inr other ↦ rw other (elim (key_cases m h k) [
    | inl (e, (i, t), same) ↦
        let ne : j ≢ i = λ at. str_eq→ne made.key k other (sym (stood e (rw (← at) at t)) ∙ same) in
        let still =
          ap (λ x. get_or x i none) written ∙ get_or-set_ne m.slots j i (some made) none ne ∙ t in
        rw (← same) (get_present m' h' e (i, still) ∙ sym (get_present m h e (i, t)))
    | inr lacks ↦
        get_absent m' h' k
          (still-Lacks m.slots m'.slots j made k inside written (str_eq→ne made.key k other) lacks)
        ∙ sym (get_absent m h k lacks)
  ])
]

-- `env_map_get` ends.
pub get_ends :
    (m : EnvMap) (h : IsMap m) (k : List ℕ) → (r : Option (List ℕ)) × (env_map_get m k ≡ some r)
get_ends m h k = elim (key_cases m h k) [
  | inl (e, has, same) ↦ (some e.val, rw (← same) (get_present m h e has))
  | inr lacks ↦ (none, get_absent m h k lacks)
]
