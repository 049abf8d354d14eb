-- ===== src/Mem/Paths.antt =====
-- `mem_path` and `mem_path_escapes`. A C string is the list of its bytes before the NUL.
pub mod Join
pub mod Escape
use micro_container.Prelude.{
  ◌==◌, if◌then◌else◌, length, get_or, take, ℕ, zero, suc, Bool, true, false, ◌&&◌, Option, none,
  some, List, [], ◌∷◌, ◌++◌,
}

-- `while (blen > 0 && base[blen - 1] == '/') blen--;`
unfoldable pub base_len : List ℕ → ℕ → ℕ
base_len base zero = zero
base_len base (suc n) =
    let shorter = base_len base n in if get_or base n 0 == b'/' then shorter else suc n

-- `while (alen > 0 && append[0] == '/') { append++; alen--; }`
unfoldable pub skip_slashes : List ℕ → List ℕ
skip_slashes [] = []
skip_slashes (c ∷ append) = let rest = skip_slashes append in if c == b'/' then rest else c ∷ append

unfoldable pub mem_path : List ℕ → List ℕ → List ℕ
unfolding base_len skip_slashes
mem_path base append = take (base_len base (length base)) base ++ b'/' ∷ skip_slashes append

-- `strchr(p, '/')`: what stands before the first slash, and what stands behind it, if there is one.
unfoldable pub find_slash : List ℕ → List ℕ × Option (List ℕ)
find_slash [] = ([], none)
find_slash (c ∷ p) = if c == b'/' then ([], some p) else (c ∷ (find_slash p).0, (find_slash p).1)

-- `len == 2 && strncmp(p, "..", 2) == 0`.
unfoldable pub is_dotdot : List ℕ → Bool
is_dotdot part = length part == 2 && (get_or part 0 0 == b'.' && get_or part 1 0 == b'.')

-- The loop of `mem_path_escapes`, with rounds for each byte of the string.
unfoldable pub escapes_loop : ℕ → List ℕ → Bool
unfolding find_slash is_dotdot
escapes_loop zero p = is_dotdot p
escapes_loop (suc fuel) p =
    if is_dotdot (find_slash p).0
    then true
    else elim (find_slash p).1 [ none ↦ false | some rest ↦ escapes_loop fuel rest ]

unfoldable pub mem_path_escapes : List ℕ → Bool
unfolding escapes_loop
mem_path_escapes rel = escapes_loop (length rel) rel
