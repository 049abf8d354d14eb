-- ===== src/Pkg/Deps/Module.antt =====
-- Which lines of modules.dep are a module's: "path: deps", where the path is of a file of the module.
use mathlib.Core.Path.{subst}
use mathlib.Core.Option.{some-injective}
use micro_container.Prelude.{
  ltb, ◌==◌, ge→ltb, ==→eq, eq→==, ne→==, Bool-cases, length, take, drop, length-append, take-drop,
  drop-add, take-append, drop-append, ℕ, suc, ◌+◌, ◌≡◌, refl, sym, ap, ◌∙◌, inl, inr, true, false,
  not, ◌||◌, some, List, [], ◌∷◌, ◌++◌, arith, All-append, ◌≢◌, Option, none,
}
use micro_container.Pkg.Names.{starts_with, module_name_eq, mod_format_suffix_ok, skip_to_name}
use micro_container.Pkg.Deps.{
  DepLine, part_at, dep_line, parse_dep_line, dot_ko, name_matches, in_dep_line, find_in_deps,
}
use micro_container.Pkg.Files.{Lacks, IsFile, SameName, IsPacking}
use micro_container.Pkg.Files.Parts.{
  module_name_eq-SameName, SameName-module_name_eq, length-SameName, starts_with-rest,
  starts_with-append, mod_format_suffix_ok-IsPacking, IsPacking-mod_format_suffix_ok,
  skip_to_name-IsTail, IsTail-skip_to_name, Lacks-front, packing-bare,
}

-- The parts of a line, whose path is of a file of a module of the name.
pub record IsLineOf (name line : List ℕ) (d : DepLine) : Type 0 where
  pub base : List ℕ
  pub file : IsFile d.mod_path base
  pub named : SameName name base
  pub no_colon : Lacks b':' d.mod_path
  pub parts : line ≡ d.mod_path ++ b':' ∷ d.deps_str

part_at-parts :
    (c : ℕ) (s b : List ℕ)
    → (part_at c s).1 ≡ some b
    → (s ≡ (part_at c s).0 ++ c ∷ b) × Lacks c (part_at c s).0
unfolding part_at
part_at-parts c [] b e = absurd (cc e)
part_at-parts c (x ∷ s) b e = elim (Bool-cases (x == c)) [
  | inl found ↦
      let same : s ≡ b = some-injective s b (rw found at e) in
      rw found (rw (==→eq x c found, same) refl, tt)
  | inr other ↦
      let ih = part_at-parts c s b (rw other at e) in
      rw other (ap (λ t. x ∷ t) ih.0, (λ h. absurd (cc (other, eq→== x c h)), ih.1))
]

part_at-append : (c : ℕ) (a b : List ℕ) → Lacks c a → part_at c (a ++ c ∷ b) ≡ (a, some b)
unfolding part_at
part_at-append c [] b h = rw (eq→== c c refl) refl
part_at-append c (x ∷ a) b h = rw (ne→== x c h.0, part_at-append c a b h.1) refl

-- A file's name without its directory.
record IsNamed (name s : List ℕ) : Type 0 where
  base : List ℕ
  tail : List ℕ
  named : SameName name base
  packing : IsPacking tail
  parts : s ≡ base ++ (dot_ko ++ tail)

name_matches-IsNamed : (name s : List ℕ) → name_matches name s ≡ true → IsNamed name s
unfolding name_matches
name_matches-IsNamed name s e =
    let n = length name in
    elim (Bool-cases (ltb (length s) (n + 3) || not (starts_with (drop n s) dot_ko))) [
      | inl short ↦ absurd (cc (rw short at e))
      | inr long ↦ elim (Bool-cases (module_name_eq name (take n s))) [
        | inr other ↦ absurd (cc (rw (long, other) at e))
        | inl same ↦
            let ok : mod_format_suffix_ok (drop (n + 3) s) ≡ true = rw (long, same) at e in
            let ko : starts_with (drop n s) dot_ko ≡ true = ground arith in
            record {
              base = take n s;
              tail = drop (n + 3) s;
              named = module_name_eq-SameName name (take n s) same;
              packing = mod_format_suffix_ok-IsPacking (drop (n + 3) s) ok;
              parts =
                  sym (take-drop n s)
                  ∙ ap (λ t. take n s ++ t)
                      (starts_with-rest (drop n s) dot_ko ko
                        ∙ ap (λ t. dot_ko ++ t) (sym (drop-add n 3 s)));
            }
      ]
    ]

IsNamed-name_matches :
    (name base tail : List ℕ)
    → SameName name base
    → IsPacking tail
    → name_matches name (base ++ (dot_ko ++ tail)) ≡ true
unfolding name_matches
IsNamed-name_matches name base tail same packing =
    let s = base ++ (dot_ko ++ tail) in
    let n : length name ≡ length base = length-SameName name base same in
    let long : length s ≡ length base + suc (suc (suc (length tail))) =
      length-append base (dot_ko ++ tail) in
    let room : ltb (length s) (length base + 3) ≡ false = ge→ltb _ _ (omega (arith, long)) in
    let behind : drop (length base) s ≡ dot_ko ++ tail = drop-append base (dot_ko ++ tail) in
    let last : drop (length base + 3) s ≡ tail = drop-add (length base) 3 s ∙ ap (drop 3) behind in
    rw
      (
        n,
        room,
        behind,
        starts_with-append dot_ko tail,
        take-append base (dot_ko ++ tail),
        SameName-module_name_eq name base same,
        last,
      )
      (IsPacking-mod_format_suffix_ok tail packing)

in_dep_line-parts :
    (r : List ℕ × Option (List ℕ)) (name : List ℕ)
    → in_dep_line (dep_line r) name ≡ true
    → (deps : List ℕ) × (r.1 ≡ some deps)
      × (dep_line r ≡ some (record { mod_path = r.0; deps_str = deps }))
      × (name_matches name (skip_to_name r.0) ≡ true)
unfolding in_dep_line dep_line
in_dep_line-parts (path, none) name e = absurd (cc e)
in_dep_line-parts (path, some deps) name e = elim (Bool-cases (length path == 0)) [
  | inl empty ↦ absurd (cc (rw empty at e))
  | inr letters ↦ (deps, refl, refl, rw letters at e)
]

pub find_in_deps-IsLineOf :
    (name line : List ℕ)
    → find_in_deps line name ≡ true
    → (d : DepLine) × (parse_dep_line line ≡ some d) × IsLineOf name line d
unfolding find_in_deps parse_dep_line
find_in_deps-IsLineOf name line e =
    let (deps, there, parsed, matches) = in_dep_line-parts (part_at b':' line) name e in
    let path : List ℕ = (part_at b':' line).0 in
    let split = part_at-parts b':' line deps there in
    let m = name_matches-IsNamed name (skip_to_name path) matches in
    let t = skip_to_name-IsTail path in
    (
      record { mod_path = path; deps_str = deps },
      parsed,
      record {
        base = m.base;
        file = record {
          dir = t.dir;
          tail = m.tail;
          is_dir = t.is_dir;
          bare = Lacks-front b'/' m.base (dot_ko ++ m.tail) (subst (Lacks b'/') m.parts t.bare);
          packing = m.packing;
          parts = t.parts ∙ ap (λ x. t.dir ++ x) m.parts;
        };
        named = m.named;
        no_colon = split.1;
        parts = split.0;
      },
    )

pub IsLineOf-find_in_deps :
    (name line : List ℕ) (d : DepLine)
    → IsLineOf name line d
    → (find_in_deps line name ≡ true) × (parse_dep_line line ≡ some d)
unfolding find_in_deps in_dep_line parse_dep_line dep_line
IsLineOf-find_in_deps name line d h =
    let f = h.file in
    let split : part_at b':' line ≡ (d.mod_path, some d.deps_str) =
      ap (part_at b':') h.parts ∙ part_at-append b':' d.mod_path d.deps_str h.no_colon in
    let bare : Lacks b'/' (h.base ++ (dot_ko ++ f.tail)) =
      All-append (λ x. x ≢ b'/') h.base (dot_ko ++ f.tail) f.bare (packing-bare f.tail f.packing) in
    let name_there : skip_to_name d.mod_path ≡ h.base ++ (dot_ko ++ f.tail) =
      ap skip_to_name f.parts
      ∙ IsTail-skip_to_name f.dir (h.base ++ (dot_ko ++ f.tail)) f.is_dir bare in
    let matches : name_matches name (skip_to_name d.mod_path) ≡ true =
      ap (name_matches name) name_there
      ∙ IsNamed-name_matches name h.base f.tail h.named f.packing in
    let long : length d.mod_path ≡ length f.dir + (length h.base + (3 + length f.tail)) = omega (
      arith,
      ap length f.parts,
      length-append f.dir (h.base ++ (dot_ko ++ f.tail)),
      length-append h.base (dot_ko ++ f.tail),
      length-append dot_ko f.tail,
    ) in
    let letters : (length d.mod_path == 0) ≡ false =
      ne→== (length d.mod_path) 0 (λ none_there. absurd (omega arith)) in
    (ap (λ r. in_dep_line (dep_line r) name) split ∙ rw letters matches, ap dep_line split)
