-- ===== src/Pkg/Names.antt =====
-- mod_util.h and mod_format.c: names of modules, and the formats in which their files are packed.
use micro_container.Prelude.{
  ◌==◌, if◌then◌else◌, length, ℕ, Bool, true, false, ◌&&◌, ◌||◌, Option, none, some, List, [], ◌∷◌,
}

-- '-' and '_' are equal in a name.
abbrev pub dash_as_underscore : ℕ → ℕ
dash_as_underscore c = if c == b'-' then b'_' else c

-- `s` is the range of `len` characters.
unfoldable pub module_name_eq : List ℕ → List ℕ → Bool
module_name_eq [] [] = true
module_name_eq [] (c ∷ s) = false
module_name_eq (a ∷ name) [] = false
module_name_eq (a ∷ name) (c ∷ s) =
    let rest = module_name_eq name s in
    if dash_as_underscore a == dash_as_underscore c then rest else false

-- The loop of `skip_to_name` over the rest `q` of the range, with what stands behind the last slash.
unfoldable pub skip_loop : List ℕ → List ℕ → List ℕ
skip_loop [] s = s
skip_loop (c ∷ q) s = skip_loop q (if c == b'/' then q else s)

unfoldable pub skip_to_name : List ℕ → List ℕ
unfolding skip_loop
skip_to_name start = skip_loop start start

-- `memcmp(p, magic, …) == 0` where `p` is long enough.
unfoldable pub starts_with : List ℕ → List ℕ → Bool
starts_with p [] = true
starts_with [] (m ∷ magic) = false
starts_with (c ∷ p) (m ∷ magic) = let rest = starts_with p magic in if c == m then rest else false

unfoldable pub bytes_eq : List ℕ → List ℕ → Bool
unfolding starts_with
bytes_eq a b = length a == length b && starts_with a b

-- `struct mod_format`; `filter` is the program that unpacks the format, unless the code here does.
pub record ModFormat : Type 0 where
  pub code : ℕ
  pub magic : List ℕ
  pub suffix : List ℕ
  pub filter : Option (List ℕ)

abbrev pub formats : List ModFormat
formats =
    record { code = 1; magic = 0x1F ∷ 0x8B ∷ []; suffix = b'.' ∷ b'g' ∷ b'z' ∷ []; filter = none }
    ∷ record {
      code = 2;
      magic = 0xFD ∷ 0x37 ∷ [];
      suffix = b'.' ∷ b'x' ∷ b'z' ∷ [];
      filter = some (b'x' ∷ b'z' ∷ b'c' ∷ b'a' ∷ b't' ∷ []);
    }
    ∷ record {
      code = 3;
      magic = 0x28 ∷ 0xB5 ∷ 0x2F ∷ 0xFD ∷ [];
      suffix = b'.' ∷ b'z' ∷ b's' ∷ b't' ∷ [];
      filter = some (b'z' ∷ b's' ∷ b't' ∷ b'd' ∷ b'c' ∷ b'a' ∷ b't' ∷ []);
    }
    ∷ []

-- The loops over the table.
unfoldable pub by_magic_in : List ModFormat → List ℕ → Option ModFormat
unfolding starts_with
by_magic_in [] p = none
by_magic_in (f ∷ fs) p =
    let rest = by_magic_in fs p in if starts_with p f.magic then some f else rest

unfoldable pub mod_format_by_magic : List ℕ → Option ModFormat
unfolding by_magic_in
mod_format_by_magic p = by_magic_in formats p

unfoldable pub by_code_in : List ModFormat → ℕ → Option ModFormat
by_code_in [] code = none
by_code_in (f ∷ fs) code = let rest = by_code_in fs code in if f.code == code then some f else rest

unfoldable pub mod_format_by_code : ℕ → Option ModFormat
unfolding by_code_in
mod_format_by_code code = by_code_in formats code

unfoldable pub suffix_in : List ModFormat → List ℕ → Bool
unfolding bytes_eq
suffix_in [] s = false
suffix_in (f ∷ fs) s = bytes_eq s f.suffix || suffix_in fs s

unfoldable pub mod_format_suffix_ok : List ℕ → Bool
unfolding suffix_in
mod_format_suffix_ok s = if length s == 0 then true else suffix_in formats s
