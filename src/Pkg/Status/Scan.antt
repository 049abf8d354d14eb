-- ===== src/Pkg/Status/Scan.antt =====
-- The scan of a list of modules, against the list of its lines.
use micro_container.Pkg.Status.Listed.{IsListed, line_has_name-IsListed, IsListed-line_has_name}
use micro_container.Prelude.{
  if◌then◌else◌, Bool-cases, length, ℕ, zero, suc, ◌≤◌, ◌≡◌, refl, sym, ap, ◌∙◌, inl, inr, Bool,
  true, false, Option, none, some, List, [], ◌∷◌, arith, ◌↔◌,
}
use micro_container.Pkg.Deps.{part_at}
use micro_container.Pkg.Deps.Lines.{lines, lines_behind, part_at-lines, part_at-shorter}
use micro_container.Pkg.Status.{line_has_name, scan_line, scan_loop, scan_module_list}

-- A line of the data is the module's.
pub data AnyListed (name : List ℕ) : List (List ℕ) → Type 0 where
  this_listed :
      (line : List ℕ) (rest : List (List ℕ)) → IsListed name line → AnyListed name (line ∷ rest)
  later_listed :
      (line : List ℕ) (rest : List (List ℕ)) → AnyListed name rest → AnyListed name (line ∷ rest)

abbrev any_line : List (List ℕ) → List ℕ → Bool
any_line [] name = false
any_line (line ∷ rest) name = if line_has_name line name then true else any_line rest name

scan_line-any :
    (parts : List ℕ × Option (List ℕ)) (name : List ℕ) (next : List ℕ → Bool)
    → ((p : List ℕ) → parts.1 ≡ some p → next p ≡ any_line (lines p) name)
    → scan_line parts name next ≡ any_line (parts.0 ∷ lines_behind parts.1) name
unfolding scan_line
scan_line-any (line, none) name next h = elim (Bool-cases (line_has_name line name)) [
  | inl e ↦ rw e refl
  | inr e ↦ rw e refl
]
scan_line-any (line, some p) name next h =
    ap (λ x. if line_has_name line name then true else x) (h p refl)

scan_loop-any :
    (fuel : ℕ) (p name : List ℕ) → length p ≤ fuel → scan_loop fuel p name ≡ any_line (lines p) name
unfolding scan_loop
scan_loop-any zero [] name h = refl
scan_loop-any zero (c ∷ p) name h = absurd (omega arith)
scan_loop-any (suc fuel) [] name h = refl
scan_loop-any (suc fuel) (c ∷ p) name h =
    scan_line-any (part_at b'\n' (c ∷ p)) name (λ p'. scan_loop fuel p' name)
      (λ p' e.
        scan_loop-any fuel p' name
          (let shorter = part_at-shorter b'\n' (c ∷ p) p' e in omega arith))
    ∙ ap (λ ls. any_line ls name) (sym (part_at-lines c p))

any_line-AnyListed :
    (name : List ℕ) (ls : List (List ℕ)) → any_line ls name ≡ true → AnyListed name ls
any_line-AnyListed name [] e = absurd (cc e)
any_line-AnyListed name (line ∷ rest) e = elim (Bool-cases (line_has_name line name)) [
  | inl found ↦ this_listed line rest (line_has_name-IsListed line name found)
  | inr other ↦ later_listed line rest (any_line-AnyListed name rest (rw other at e))
]

AnyListed-any_line :
    (name : List ℕ) (ls : List (List ℕ)) → AnyListed name ls → any_line ls name ≡ true
AnyListed-any_line name _ (this_listed line rest h) = rw (IsListed-line_has_name line name h) refl
AnyListed-any_line name _ (later_listed line rest h) = elim (Bool-cases (line_has_name line name)) [
  | inl found ↦ rw found refl
  | inr other ↦ rw other (AnyListed-any_line name rest h)
]

-- `scan_module_list` answers whether the first word of a line of the data is the module's name up to
-- '-' and '_', alone or with ".ko" behind it, and with a directory before it or none.
pub scan_module_list_iff :
    (data_ name : List ℕ) → (scan_module_list data_ name ≡ true) ↔ AnyListed name (lines data_)
unfolding scan_module_list
scan_module_list_iff data_ name =
    let same : scan_loop (length data_) data_ name ≡ any_line (lines data_) name =
      scan_loop-any (length data_) data_ name (omega arith) in
    (
      λ e. any_line-AnyListed name (lines data_) (sym same ∙ e),
      λ h. same ∙ AnyListed-any_line name (lines data_) h,
    )
