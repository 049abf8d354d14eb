-- ===== src/Pkg/Deps.antt =====
-- resolve.c: the lines of modules.dep, "path: path path …".
pub mod Module
pub mod Lines
pub mod Named
pub mod Words
use micro_container.Prelude.{
  ltb, leb, ◌==◌, if◌then◌else◌, length, take, drop, ℕ, zero, suc, ◌+◌, ◌-◌, Bool, false, not, ◌&&◌,
  ◌||◌, Option, none, some, List, [], ◌∷◌, ◌++◌,
}
use micro_container.Pkg.Names.{module_name_eq, skip_to_name, starts_with, mod_format_suffix_ok}

pub record DepLine : Type 0 where
  pub mod_path : List ℕ
  pub deps_str : List ℕ

-- What stands before the first byte `c`, and what stands behind it, if there is one: `memchr`.
unfoldable pub part_at : ℕ → List ℕ → List ℕ × Option (List ℕ)
part_at c [] = ([], none)
part_at c (x ∷ p) = if x == c then ([], some p) else (x ∷ (part_at c p).0, (part_at c p).1)

unfoldable pub dep_line : List ℕ × Option (List ℕ) → Option DepLine
dep_line (path, none) = none
dep_line (path, some deps) = some (record { mod_path = path; deps_str = deps })

unfoldable pub parse_dep_line : List ℕ → Option DepLine
unfolding part_at dep_line
parse_dep_line line = dep_line (part_at b':' line)

abbrev pub dot_ko : List ℕ
dot_ko = b'.' ∷ b'k' ∷ b'o' ∷ []

unfoldable pub name_matches : List ℕ → List ℕ → Bool
unfolding module_name_eq mod_format_suffix_ok starts_with
name_matches name s =
    let nlen = length name in
    if ltb (length s) (nlen + 3) || not (starts_with (drop nlen s) dot_ko)
    then false
    else if not (module_name_eq name (take nlen s))
    then false
    else mod_format_suffix_ok (drop (nlen + 3) s)

unfoldable pub in_dep_line : Option DepLine → List ℕ → Bool
unfolding name_matches skip_to_name
in_dep_line none name = false
in_dep_line (some d) name =
    if length d.mod_path == 0 then false else name_matches name (skip_to_name d.mod_path)

unfoldable pub find_in_deps : List ℕ → List ℕ → Bool
unfolding in_dep_line parse_dep_line
find_in_deps line name = in_dep_line (parse_dep_line line) name

-- One line of the buffer and what stands behind it; `next` is the rest of the loop.
unfoldable pub find_line :
    List ℕ × Option (List ℕ) → List ℕ → (List ℕ → Option DepLine) → Option DepLine
unfolding find_in_deps parse_dep_line
find_line (line, none) name next = if find_in_deps line name then parse_dep_line line else none
find_line (line, some p) name next = if find_in_deps line name then parse_dep_line line else next p

-- The loop of `find_in_buf` over the rest of the buffer.
unfoldable pub find_loop : ℕ → List ℕ → List ℕ → Option DepLine
unfolding find_line part_at
find_loop zero p name = none
find_loop (suc fuel) [] name = none
find_loop (suc fuel) (c ∷ p) name =
    find_line (part_at b'\n' (c ∷ p)) name (λ p'. find_loop fuel p' name)

-- Each round takes a byte.
unfoldable pub find_in_buf : List ℕ → List ℕ → Option DepLine
unfolding find_loop
find_in_buf buf name = find_loop (length buf) buf name

-- `isspace` of the C locale.
unfoldable pub is_space : ℕ → Bool
is_space c = c == 32 || (leb 9 c && leb c 13)

unfoldable pub skip_ws : List ℕ → List ℕ
unfolding is_space
skip_ws [] = []
skip_ws (c ∷ p) = let rest = skip_ws p in if is_space c then rest else c ∷ p

-- What `skip_nws` passes over, and where it stops.
unfoldable pub skip_nws : List ℕ → List ℕ × List ℕ
unfolding is_space
skip_nws [] = ([], [])
skip_nws (c ∷ p) = let rest = skip_nws p in if is_space c then ([], c ∷ p) else (c ∷ rest.0, rest.1)

-- `while (ko_at >= 3 && memcmp(start + ko_at - 3, ".ko", 3) != 0) ko_at--;` from `ko_at` on.
unfoldable pub ko_loop : List ℕ → ℕ → ℕ
unfolding starts_with
ko_loop word zero = zero
ko_loop word (suc n) =
    let lower = ko_loop word n in
    if leb 3 (suc n) && not (starts_with (drop (suc n - 3) word) dot_ko) then lower else suc n

-- The name that `try_add_dep` adds for a word, or `none` where it adds none.
unfoldable pub try_add_dep : List ℕ → Option (List ℕ)
unfolding ko_loop mod_format_suffix_ok skip_to_name
try_add_dep word =
    let ko_at = ko_loop word (length word) in
    if leb (length word) 3
    then none
    else if ltb ko_at 3
    then none
    else if not (mod_format_suffix_ok (drop ko_at word))
    then none
    else some (skip_to_name (take (ko_at - 3) word))

abbrev pub add_dep_name : List (List ℕ) → Option (List ℕ) → List (List ℕ)
add_dep_name deps none = deps
add_dep_name deps (some name) = deps ++ name ∷ []

-- The body of the loop behind its `skip_ws`; `next` is the rest of the loop.
unfoldable pub extract_step :
    List ℕ → List (List ℕ) → (List ℕ → List (List ℕ) → List (List ℕ)) → List (List ℕ)
unfolding skip_nws try_add_dep
extract_step [] deps next = deps
extract_step (c ∷ p) deps next =
    let (word, rest) = skip_nws (c ∷ p) in next rest (add_dep_name deps (try_add_dep word))

unfoldable pub extract_loop : ℕ → List ℕ → List (List ℕ) → List (List ℕ)
unfolding skip_ws extract_step
extract_loop zero dp deps = deps
extract_loop (suc fuel) [] deps = deps
extract_loop (suc fuel) (c ∷ dp) deps =
    extract_step (skip_ws (c ∷ dp)) deps (λ p deps'. extract_loop fuel p deps')

-- Each round takes a byte.
unfoldable pub extract_deps : List ℕ → List (List ℕ)
unfolding extract_loop
extract_deps str = extract_loop (length str) str []
