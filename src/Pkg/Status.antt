-- ===== src/Pkg/Status.antt =====
-- modprobe.c: the lists of loaded and of built-in modules.
pub mod Listed
pub mod Scan
use micro_container.Prelude.{
  ltb, ◌==◌, if◌then◌else◌, length, take, drop, ℕ, zero, suc, ◌-◌, Bool, true, false, not, ◌||◌,
  none, some, List, [], ◌∷◌, Option,
}
use micro_container.Pkg.Names.{module_name_eq, skip_to_name, starts_with}
use micro_container.Pkg.Deps.{part_at, dot_ko, is_space}

-- The first word of a line; `first_word_len` is its length.
unfoldable pub first_word : List ℕ → List ℕ
unfolding is_space
first_word [] = []
first_word (c ∷ line) = let rest = first_word line in if is_space c then [] else c ∷ rest

unfoldable pub line_has_name : List ℕ → List ℕ → Bool
unfolding first_word skip_to_name module_name_eq starts_with
line_has_name line name =
    let s = skip_to_name (first_word line) in
    let nlen = length name in
    let rest = length s - nlen in
    if ltb (length s) nlen || not (module_name_eq name (take nlen s))
    then false
    else if rest == 0
    then true
    else if rest == 3
    then starts_with (drop nlen s) dot_ko
    else false

-- One line of the data and what stands behind it; `next` is the rest of the loop.
unfoldable pub scan_line : List ℕ × Option (List ℕ) → List ℕ → (List ℕ → Bool) → Bool
unfolding line_has_name
scan_line (line, none) name next = line_has_name line name
scan_line (line, some p) name next = if line_has_name line name then true else next p

-- The loop of `scan_module_list` over the rest of the data.
unfoldable pub scan_loop : ℕ → List ℕ → List ℕ → Bool
unfolding scan_line part_at
scan_loop zero p name = false
scan_loop (suc fuel) [] name = false
scan_loop (suc fuel) (c ∷ p) name =
    scan_line (part_at b'\n' (c ∷ p)) name (λ p'. scan_loop fuel p' name)

-- Each round takes a byte.
unfoldable pub scan_module_list : List ℕ → List ℕ → Bool
unfolding scan_loop
scan_module_list data_ name = scan_loop (length data_) data_ name
