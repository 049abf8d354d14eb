-- ===== src/Vol/Safe.antt =====
-- Which volumes are accepted, and what they are.
use mathlib.Core.Path.{subst}
use mathlib.Core.Option.{some-injective}
use micro_container.Prelude.{
  ◌==◌, ==→eq, Bool-cases, length, ℕ, ◌<◌, ◌≡◌, ap, inl, inr, Option, none, some, List, [], ◌∷◌,
  ◌++◌, leb, sym, ◌∙◌, false, ◌||◌, arith,
}
use micro_container.Mem.Paths.{mem_path_escapes}
use micro_container.Mem.Paths.Escape.{HasDotDot, mem_path_escapes_iff}
use micro_container.Vol.{set_target, Vol, find_colon, with_target, parse_vol}

-- What an accepted volume is: its two paths fit their arrays, and the target stays below the root.
pub record IsSafe (v : Vol) : Type 0 where
  pub host_fits : (0 < length v.host) × (length v.host < 4096)
  pub target_fits : length v.target < 4096
  pub no_dotdot : ¬ HasDotDot v.target

-- How the text of a specification is read.
pub data IsSpec (spec : List ℕ) (v : Vol) : Type 0 where
  both_paths : spec ≡ v.host ++ b':' ∷ v.target → 0 < length v.target → IsSpec spec v
  one_path : spec ≡ v.host → v.target ≡ v.host → IsSpec spec v

-- The colon that is found parts the text, and there is none before it.
pub data IsParted (spec : List ℕ) : List ℕ × Option (List ℕ) → Type 0 where
  parted : (host behind : List ℕ) → spec ≡ host ++ b':' ∷ behind → IsParted spec (host, some behind)
  whole : IsParted spec (spec, none)

find_colon-IsParted : (spec : List ℕ) → IsParted spec (find_colon spec)
unfolding find_colon
find_colon-IsParted [] = whole
find_colon-IsParted (c ∷ p) = elim (Bool-cases (c == b':')) [
  | inl colon ↦ rw colon (parted [] p (ap (λ x. x ∷ p) (==→eq c b':' colon)))
  | inr other ↦ rw other (longer (find_colon p) (find_colon-IsParted p))
]
  where
    longer : (r : List ℕ × Option (List ℕ)) → IsParted p r → IsParted (c ∷ p) (c ∷ r.0, r.1)
    longer _ (parted host behind e) = parted (c ∷ host) behind (ap (λ x. c ∷ x) e)
    longer _ whole = whole

with_target-IsSafe :
    (host target : List ℕ) (v : Vol)
    → length target < 4096
    → with_target host (some target) ≡ some v
    → (v.host ≡ host) × (v.target ≡ target) × IsSafe v
unfolding with_target
with_target-IsSafe host target v h e = elim (Bool-cases (mem_path_escapes target)) [
  | inl escapes ↦ absurd (cc (rw escapes at e))
  | inr below ↦ elim (Bool-cases (length host == 0 || leb 4096 (length host))) [
    | inl misfit ↦ absurd (cc (rw (below, misfit) at e))
    | inr fit ↦
        let same : made ≡ v = some-injective made v (rw (below, fit) at e) in
        (
          ap (λ w. w.host) (sym same),
          ap (λ w. w.target) (sym same),
          subst IsSafe same (made-IsSafe below (ground arith)),
        )
  ]
]
  where
    made : Vol
    made = record { host = host; target = target }

    made-IsSafe :
        mem_path_escapes target ≡ false → (0 < length host) × (length host < 4096) → IsSafe made
    made-IsSafe below fits = record {
      host_fits = fits;
      target_fits = h;
      no_dotdot = λ d. absurd (cc (below, (mem_path_escapes_iff target).1 d));
    }

of_parted :
    (spec : List ℕ) (v : Vol) (r : List ℕ × Option (List ℕ))
    → IsParted spec r
    → with_target r.0 (set_target spec r.1) ≡ some v
    → IsSpec spec v × IsSafe v
unfolding set_target with_target
of_parted spec v _ (parted host behind p) e =
    elim (Bool-cases (length behind == 0 || leb 4096 (length behind))) [
      | inl misfit ↦ absurd (cc (rw misfit at e))
      | inr fit ↦
          let (h, t, safe) = with_target-IsSafe host behind v (ground arith) (rw fit at e) in
          (both_paths (rw (h, t) p) (rw t (ground arith)), safe)
    ]
of_parted spec v _ whole e = elim (Bool-cases (leb 4096 (length spec))) [
  | inl misfit ↦ absurd (cc (rw misfit at e))
  | inr fit ↦
      let (h, t, safe) = with_target-IsSafe spec spec v (ground arith) (rw fit at e) in
      (one_path (sym h) (t ∙ sym h), safe)
]

-- A volume that `parse_vol` accepts is the text of its specification, parted at a colon or taken for
-- both paths; the paths are not empty and fit their arrays, and the target has no component "..".
pub parse_vol-IsSafe :
    (spec : List ℕ) (v : Vol) → parse_vol spec ≡ some v → IsSpec spec v × IsSafe v
unfolding parse_vol
parse_vol-IsSafe spec v e = of_parted spec v (find_colon spec) (find_colon-IsParted spec) e
