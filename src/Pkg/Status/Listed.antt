-- ===== src/Pkg/Status/Listed.antt =====
-- Which lines of a list of modules are a module's: the first word is its name or the path of its file.
use mathlib.Core.Path.{subst}
use micro_container.Prelude.{
  ltb, leb, ◌==◌, ==→eq, Bool-cases, length, take, drop, length-drop, All, take-drop, ℕ, ◌-◌, ◌≤◌,
  ◌≡◌, refl, sym, ap, ◌∙◌, ◌⊎◌, inl, inr, true, false, not, ◌&&◌, ◌||◌, List, [], ◌∷◌, ◌++◌, arith,
  if◌then◌else◌, ge→ltb, length-append, All-append, take-append, drop-append, ◌+◌, ◌≢◌,
}
use micro_container.Pkg.Names.{starts_with, module_name_eq, skip_to_name}
use micro_container.Pkg.Deps.{dot_ko, is_space}
use micro_container.Pkg.Files.{Lacks, IsDir, SameName, unpacked}
use micro_container.Pkg.Files.Parts.{
  module_name_eq-SameName, starts_with-rest, skip_to_name-IsTail, Lacks-front,
  SameName-module_name_eq, length-SameName, IsTail-skip_to_name, packing-bare,
}
use micro_container.Pkg.Status.{first_word, line_has_name}

-- A space, or one of the characters from the tabulator to the carriage return.
abbrev pub IsSpace : ℕ → Type 0
IsSpace c = (c ≡ 32) ⊎ ((9 ≤ c) × (c ≤ 13))

-- Nothing, or a text that begins with a space.
pub data IsEnd : List ℕ → Type 0 where
  line_end : IsEnd []
  space_next : (c : ℕ) (s : List ℕ) → IsSpace c → IsEnd (c ∷ s)

-- What may stand behind the name.
pub data IsSuffix : List ℕ → Type 0 where
  bare_name : IsSuffix []
  file_name : IsSuffix dot_ko

-- The line's first word is a directory, the name and a suffix.
pub record IsListed (name line : List ℕ) : Type 0 where
  pub dir : List ℕ
  pub base : List ℕ
  pub tail : List ℕ
  pub rest : List ℕ
  pub is_dir : IsDir dir
  pub bare : Lacks b'/' base
  pub named : SameName name base
  pub suffix : IsSuffix tail
  pub letters : All (λ c. ¬ IsSpace c) (dir ++ (base ++ tail))
  pub ends : IsEnd rest
  pub parts : line ≡ (dir ++ (base ++ tail)) ++ rest

is_space-IsSpace : (c : ℕ) → is_space c ≡ true → IsSpace c
unfolding is_space
is_space-IsSpace c e = elim (Bool-cases (c == 32)) [
  | inl blank ↦ inl (==→eq c 32 blank)
  | inr other ↦
      let e' : (leb 9 c && leb c 13) ≡ true = rw other at e in inr (ground arith, ground arith)
]

IsSpace-is_space : (c : ℕ) → IsSpace c → is_space c ≡ true
unfolding is_space
IsSpace-is_space c (inl blank) = ground arith
IsSpace-is_space c (inr (low, high)) = ground arith

no_space : (c : ℕ) → ¬ IsSpace c → is_space c ≡ false
no_space c h = elim (Bool-cases (is_space c)) [
  | inl space ↦ absurd (h (is_space-IsSpace c space))
  | inr other ↦ other
]

-- The first word and what follows it.
record IsFirst (line word : List ℕ) : Type 0 where
  rest : List ℕ
  letters : All (λ c. ¬ IsSpace c) word
  ends : IsEnd rest
  parts : line ≡ word ++ rest

first_word-IsFirst : (line : List ℕ) → IsFirst line (first_word line)
unfolding first_word
first_word-IsFirst [] = record { rest = []; letters = tt; ends = line_end; parts = refl }
first_word-IsFirst (c ∷ line) = elim (Bool-cases (is_space c)) [
  | inl space ↦ rw space (record {
    rest = c ∷ line;
    letters = tt;
    ends = space_next c line (is_space-IsSpace c space);
    parts = refl;
  })
  | inr other ↦
      let ih = first_word-IsFirst line in
      rw other (record {
        rest = ih.rest;
        letters = (λ h. absurd (cc (other, IsSpace-is_space c h)), ih.letters);
        ends = ih.ends;
        parts = ap (λ t. c ∷ t) ih.parts;
      })
]

IsFirst-first_word :
    (word rest : List ℕ)
    → All (λ c. ¬ IsSpace c) word
    → IsEnd rest
    → first_word (word ++ rest) ≡ word
unfolding first_word
IsFirst-first_word [] _ h line_end = refl
IsFirst-first_word [] _ h (space_next c s space) = rw (IsSpace-is_space c space) refl
IsFirst-first_word (c ∷ word) rest h e =
    rw (no_space c h.0, IsFirst-first_word word rest h.1 e) refl

-- The test of `line_has_name` on the word without its directory.
record IsNamed (name s : List ℕ) : Type 0 where
  base : List ℕ
  tail : List ℕ
  named : SameName name base
  suffix : IsSuffix tail
  parts : s ≡ base ++ tail

short_nil : (s : List ℕ) → length s ≡ 0 → s ≡ []
short_nil [] h = refl
short_nil (c ∷ s) h = absurd (omega arith)

name-IsNamed :
    (name s tail : List ℕ)
    → module_name_eq name (take (length name) s) ≡ true
    → IsSuffix tail
    → drop (length name) s ≡ tail
    → IsNamed name s
name-IsNamed name s tail same suffix e = record {
  base = take (length name) s;
  tail = tail;
  named = module_name_eq-SameName name (take (length name) s) same;
  suffix = suffix;
  parts = sym (take-drop (length name) s) ∙ ap (λ t. take (length name) s ++ t) e;
}

ko_only : (t : List ℕ) → length t ≡ 3 → starts_with t dot_ko ≡ true → t ≡ dot_ko
ko_only t h e =
    let behind : length (drop 3 t) ≡ 0 = omega (arith, length-drop 3 t) in
    starts_with-rest t dot_ko e ∙ ap (λ u. dot_ko ++ u) (short_nil (drop 3 t) behind)

pub line_has_name-IsListed :
    (line name : List ℕ) → line_has_name line name ≡ true → IsListed name line
unfolding line_has_name
line_has_name-IsListed line name e =
    let word : List ℕ = first_word line in
    let s : List ℕ = skip_to_name word in
    let n : ℕ = length name in
    let m : IsNamed name s =
      elim (Bool-cases (ltb (length s) n || not (module_name_eq name (take n s)))) [
        | inl other ↦ absurd (cc (rw other at e))
        | inr long ↦
            let same : module_name_eq name (take n s) ≡ true = ground arith in
            let gone : length (drop n s) ≡ length s - n = length-drop n s in
            elim (Bool-cases (length s - n == 0)) [
              | inl whole ↦
                  name-IsNamed name s [] same bare_name
                    (short_nil (drop n s) (gone ∙ ==→eq (length s - n) 0 whole))
              | inr more ↦ elim (Bool-cases (length s - n == 3)) [
                | inl three ↦ name-IsNamed name s dot_ko same file_name (
                    ko_only (drop n s) (gone ∙ ==→eq (length s - n) 3 three)
                      (rw (long, more, three) at e))
                | inr four ↦ absurd (cc (rw (long, more, four) at e))
              ]
            ]
      ] in
    let w = first_word-IsFirst line in
    let t = skip_to_name-IsTail word in
    let split : word ≡ t.dir ++ (m.base ++ m.tail) = t.parts ∙ ap (λ x. t.dir ++ x) m.parts in
    record {
      dir = t.dir;
      base = m.base;
      tail = m.tail;
      rest = w.rest;
      is_dir = t.is_dir;
      bare = Lacks-front b'/' m.base m.tail (subst (Lacks b'/') m.parts t.bare);
      named = m.named;
      suffix = m.suffix;
      letters = subst (All (λ c. ¬ IsSpace c)) split w.letters;
      ends = w.ends;
      parts = w.parts ∙ ap (λ x. x ++ w.rest) split;
    }

suffix_bare : (tail : List ℕ) → IsSuffix tail → Lacks b'/' tail
suffix_bare _ bare_name = tt
suffix_bare _ file_name = packing-bare [] unpacked

suffix_ok :
    (tail : List ℕ)
    → IsSuffix tail
    → (if length tail == 0
        then true
        else if length tail == 3
        then starts_with tail dot_ko
        else false)
      ≡ true
unfolding starts_with
suffix_ok _ bare_name = refl
suffix_ok _ file_name = refl

pub IsListed-line_has_name :
    (line name : List ℕ) → IsListed name line → line_has_name line name ≡ true
unfolding line_has_name
IsListed-line_has_name line name h =
    let s : List ℕ = h.base ++ h.tail in
    let word_there : first_word line ≡ h.dir ++ s =
      ap first_word h.parts ∙ IsFirst-first_word (h.dir ++ s) h.rest h.letters h.ends in
    let bare : Lacks b'/' s =
      All-append (λ x. x ≢ b'/') h.base h.tail h.bare (suffix_bare h.tail h.suffix) in
    let name_there : skip_to_name (h.dir ++ s) ≡ s = IsTail-skip_to_name h.dir s h.is_dir bare in
    let n : length name ≡ length h.base = length-SameName name h.base h.named in
    let long : length s ≡ length h.base + length h.tail = length-append h.base h.tail in
    let room : ltb (length s) (length h.base) ≡ false = ge→ltb _ _ (omega (arith, long)) in
    let gone : length s - length h.base ≡ length h.tail = omega (arith, long) in
    rw
      (
        word_there,
        name_there,
        n,
        room,
        take-append h.base h.tail,
        SameName-module_name_eq name h.base h.named,
        gone,
        drop-append h.base h.tail,
      )
      (suffix_ok h.tail h.suffix)
