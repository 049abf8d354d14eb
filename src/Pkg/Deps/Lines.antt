-- ===== src/Pkg/Deps/Lines.antt =====
-- The lines of modules.dep, one after another: `find_in_buf` against the list of the lines.
use mathlib.Core.Option.{some-injective}
use mathlib.Core.Path.{subst}
use micro_container.Pkg.Deps.Module.{IsLineOf, find_in_deps-IsLineOf, IsLineOf-find_in_deps}
use micro_container.Prelude.{
  ◌==◌, if◌then◌else◌, Bool-cases, length, ℕ, zero, suc, ◌≤◌, ◌<◌, ◌≡◌, refl, sym, ap, inl, inr,
  Option, none, some, List, [], ◌∷◌, arith,
}
use micro_container.Pkg.Deps.{
  DepLine, part_at, parse_dep_line, find_in_deps, find_line, find_loop, find_in_buf,
}

abbrev onto_first : ℕ → List (List ℕ) → List (List ℕ)
onto_first c [] = (c ∷ []) ∷ []
onto_first c (line ∷ rest) = (c ∷ line) ∷ rest

-- The lines of a text. Behind the last newline there is one more line only if it is not empty.
abbrev pub lines : List ℕ → List (List ℕ)
lines [] = []
lines (c ∷ s) = if c == b'\n' then [] ∷ lines s else onto_first c (lines s)

abbrev pub lines_behind : Option (List ℕ) → List (List ℕ)
lines_behind none = []
lines_behind (some p) = lines p

pub part_at-lines :
    (c : ℕ) (s : List ℕ)
    → lines (c ∷ s) ≡ (part_at b'\n' (c ∷ s)).0 ∷ lines_behind (part_at b'\n' (c ∷ s)).1
unfolding part_at
part_at-lines c [] = elim (Bool-cases (c == b'\n')) [ inl e ↦ rw e refl | inr e ↦ rw e refl ]
part_at-lines c (d ∷ s) = elim (Bool-cases (c == b'\n')) [
  | inl newline ↦ rw newline refl
  | inr other ↦ rw other (ap (onto_first c) (part_at-lines d s))
]

pub part_at-shorter : (x : ℕ) (s p : List ℕ) → (part_at x s).1 ≡ some p → length p < length s
unfolding part_at
part_at-shorter x [] p e = absurd (cc e)
part_at-shorter x (c ∷ s) p e = elim (Bool-cases (c == x)) [
  | inl found ↦
      let same : some s ≡ some p = rw found at e in
      let h : length s ≡ length p = ap length (some-injective s p same) in omega arith
  | inr other ↦ let h = part_at-shorter x s p (rw other at e) in omega arith
]

-- The parts of the first line that is a line of the module, if there is one.
pub data FirstLine (name : List ℕ) : List (List ℕ) → Option DepLine → Type 0 where
  no_line : FirstLine name [] none
  this_line :
      (line : List ℕ) (rest : List (List ℕ)) (d : DepLine)
      → IsLineOf name line d
      → FirstLine name (line ∷ rest) (some d)
  later_line :
      (line : List ℕ) (rest : List (List ℕ)) (r : Option DepLine)
      → ((d : DepLine) → ¬ IsLineOf name line d)
      → FirstLine name rest r
      → FirstLine name (line ∷ rest) r

line-FirstLine :
    (name line : List ℕ) (rest : List (List ℕ)) (r : Option DepLine)
    → FirstLine name rest r
    → FirstLine name (line ∷ rest) (if find_in_deps line name then parse_dep_line line else r)
line-FirstLine name line rest r later = elim (Bool-cases (find_in_deps line name)) [
  | inl found ↦
      let (d, parsed, is_line) = find_in_deps-IsLineOf name line found in
      rw (found, parsed) (this_line line rest d is_line)
  | inr other ↦ rw other (
      later_line line rest r (λ d h. absurd (cc (other, (IsLineOf-find_in_deps name line d h).0)))
        later)
]

find_line-FirstLine :
    (parts : List ℕ × Option (List ℕ)) (name : List ℕ) (next : List ℕ → Option DepLine)
    → ((p : List ℕ) → parts.1 ≡ some p → FirstLine name (lines p) (next p))
    → FirstLine name (parts.0 ∷ lines_behind parts.1) (find_line parts name next)
unfolding find_line
find_line-FirstLine (line, none) name next h = line-FirstLine name line [] none no_line
find_line-FirstLine (line, some p) name next h =
    line-FirstLine name line (lines p) (next p) (h p refl)

find_loop-FirstLine :
    (fuel : ℕ) (p name : List ℕ)
    → length p ≤ fuel
    → FirstLine name (lines p) (find_loop fuel p name)
unfolding find_loop
find_loop-FirstLine zero [] name h = no_line
find_loop-FirstLine zero (c ∷ p) name h = absurd (omega arith)
find_loop-FirstLine (suc fuel) [] name h = no_line
find_loop-FirstLine (suc fuel) (c ∷ p) name h =
    subst
      (λ ls.
        FirstLine name ls (find_line (part_at b'\n' (c ∷ p)) name (λ p'. find_loop fuel p' name)))
      (sym (part_at-lines c p))
      (find_line-FirstLine (part_at b'\n' (c ∷ p)) name (λ p'. find_loop fuel p' name)
        (λ p' e.
          find_loop-FirstLine fuel p' name
            (let shorter = part_at-shorter b'\n' (c ∷ p) p' e in omega arith)))

-- `find_in_buf` gives the parts of the first line of the buffer that has a path of a file of the module
-- before its first colon, and fails when no line has one. Such a path is a directory, the name up to
-- '-' and '_', ".ko", and nothing or one of ".gz", ".xz" and ".zst".
pub find_in_buf-FirstLine : (buf name : List ℕ) → FirstLine name (lines buf) (find_in_buf buf name)
unfolding find_in_buf
find_in_buf-FirstLine buf name = find_loop-FirstLine (length buf) buf name (omega arith)
