-- ===== src/Pkg/Files/Parts.antt =====
-- The functions that take the path of a module file apart, against the description of such paths.
use mathlib.Core.Path.{subst}
use micro_container.Prelude.{
  ◌==◌, ==→eq, eq→==, ne→==, Bool-cases, length, drop, ℕ, suc, ◌≡◌, refl, sym, ap, ◌∙◌, ◌⊎◌, inl,
  inr, true, false, List, [], ◌∷◌, ◌++◌, append_assoc, append-nil, arith,
}
use micro_container.Pkg.Names.{
  dash_as_underscore, formats, module_name_eq, skip_loop, skip_to_name, starts_with, bytes_eq,
  suffix_in, mod_format_suffix_ok,
}
use micro_container.Pkg.Deps.{dot_ko}
use micro_container.Pkg.Files.{
  Lacks, IsDir, no_dir, slash_behind, SameName, no_letter, same_letter, dash_first, dash_second,
  IsPacking, unpacked, gzip, xz, zstd,
}

same_char :
    (x y : ℕ) (a b : List ℕ)
    → dash_as_underscore x ≡ dash_as_underscore y
    → SameName a b
    → SameName (x ∷ a) (y ∷ b)
same_char x y a b e same = elim (Bool-cases (x == b'-')) [
  | inl dash_x ↦ elim (Bool-cases (y == b'-')) [
    | inl dash_y ↦ rw (==→eq x b'-' dash_x, ==→eq y b'-' dash_y) (same_letter b'-' a b same)
    | inr other ↦
        let e' : b'_' ≡ y = rw (dash_x, other) at e in
        rw (==→eq x b'-' dash_x, ← e') (dash_first a b same)
  ]
  | inr other_x ↦ elim (Bool-cases (y == b'-')) [
    | inl dash_y ↦
        let e' : x ≡ b'_' = rw (other_x, dash_y) at e in
        rw (e', ==→eq y b'-' dash_y) (dash_second a b same)
    | inr other ↦ let e' : x ≡ y = rw (other_x, other) at e in rw e' (same_letter y a b same)
  ]
]

pub module_name_eq-SameName : (a b : List ℕ) → module_name_eq a b ≡ true → SameName a b
unfolding module_name_eq
module_name_eq-SameName [] [] e = no_letter
module_name_eq-SameName [] (y ∷ b) e = absurd (cc e)
module_name_eq-SameName (x ∷ a) [] e = absurd (cc e)
module_name_eq-SameName (x ∷ a) (y ∷ b) e =
    elim (Bool-cases (dash_as_underscore x == dash_as_underscore y)) [
      | inl same ↦
          same_char x y a b (==→eq (dash_as_underscore x) (dash_as_underscore y) same)
            (module_name_eq-SameName a b (rw same at e))
      | inr other ↦ absurd (cc (rw other at e))
    ]

pub SameName-module_name_eq : (a b : List ℕ) → SameName a b → module_name_eq a b ≡ true
unfolding module_name_eq
SameName-module_name_eq _ _ no_letter = refl
SameName-module_name_eq _ _ (same_letter c a b same) =
    rw (eq→== (dash_as_underscore c) (dash_as_underscore c) refl) (SameName-module_name_eq a b same)
SameName-module_name_eq _ _ (dash_first a b same) = SameName-module_name_eq a b same
SameName-module_name_eq _ _ (dash_second a b same) = SameName-module_name_eq a b same

pub length-SameName : (a b : List ℕ) → SameName a b → length a ≡ length b
length-SameName _ _ no_letter = refl
length-SameName _ _ (same_letter c a b same) = ap suc (length-SameName a b same)
length-SameName _ _ (dash_first a b same) = ap suc (length-SameName a b same)
length-SameName _ _ (dash_second a b same) = ap suc (length-SameName a b same)

pub starts_with-rest : (p m : List ℕ) → starts_with p m ≡ true → p ≡ m ++ drop (length m) p
unfolding starts_with
starts_with-rest p [] e = refl
starts_with-rest [] (x ∷ m) e = absurd (cc e)
starts_with-rest (c ∷ p) (x ∷ m) e = elim (Bool-cases (c == x)) [
  | inl same ↦ rw (==→eq c x same) (ap (λ t. x ∷ t) (starts_with-rest p m (rw same at e)))
  | inr other ↦ absurd (cc (rw other at e))
]

pub starts_with-append : (m t : List ℕ) → starts_with (m ++ t) m ≡ true
unfolding starts_with
starts_with-append [] t = refl
starts_with-append (x ∷ m) t = rw (eq→== x x refl) (starts_with-append m t)

-- Behind a text of the same length there is nothing.
drop-length : (p : List ℕ) → drop (length p) p ≡ []
drop-length [] = refl
drop-length (c ∷ p) = drop-length p

bytes_eq→eq : (a b : List ℕ) → bytes_eq a b ≡ true → a ≡ b
unfolding bytes_eq
bytes_eq→eq a b e = elim (Bool-cases (length a == length b)) [
  | inl same ↦
      let n : length a ≡ length b = ==→eq (length a) (length b) same in
      starts_with-rest a b (rw same at e)
      ∙ ap (λ k. b ++ drop k a) (sym n)
      ∙ ap (λ t. b ++ t) (drop-length a)
      ∙ append-nil b
  | inr other ↦ absurd (cc (rw other at e))
]

pub mod_format_suffix_ok-IsPacking : (s : List ℕ) → mod_format_suffix_ok s ≡ true → IsPacking s
unfolding mod_format_suffix_ok suffix_in
mod_format_suffix_ok-IsPacking [] e = unpacked
mod_format_suffix_ok-IsPacking (c ∷ s) e =
    let gz_text : List ℕ = b'.' ∷ b'g' ∷ b'z' ∷ [] in
    let xz_text : List ℕ = b'.' ∷ b'x' ∷ b'z' ∷ [] in
    let zst_text : List ℕ = b'.' ∷ b'z' ∷ b's' ∷ b't' ∷ [] in
    let some_letter : (suc (length s) == 0) ≡ false = ne→== (suc (length s)) 0 (omega arith) in
    let e' : suffix_in formats (c ∷ s) ≡ true = rw some_letter at e in
    elim (Bool-cases (bytes_eq (c ∷ s) gz_text)) [
      | inl is_gz ↦ subst IsPacking (sym (bytes_eq→eq (c ∷ s) gz_text is_gz)) gzip
      | inr not_gz ↦ elim (Bool-cases (bytes_eq (c ∷ s) xz_text)) [
        | inl is_xz ↦ subst IsPacking (sym (bytes_eq→eq (c ∷ s) xz_text is_xz)) xz
        | inr not_xz ↦ elim (Bool-cases (bytes_eq (c ∷ s) zst_text)) [
          | inl is_zst ↦ subst IsPacking (sym (bytes_eq→eq (c ∷ s) zst_text is_zst)) zstd
          | inr not_zst ↦ absurd (cc (rw (not_gz, not_xz, not_zst) at e'))
        ]
      ]
    ]

pub IsPacking-mod_format_suffix_ok : (s : List ℕ) → IsPacking s → mod_format_suffix_ok s ≡ true
unfolding mod_format_suffix_ok suffix_in bytes_eq starts_with
IsPacking-mod_format_suffix_ok _ unpacked = refl
IsPacking-mod_format_suffix_ok _ gzip = refl
IsPacking-mod_format_suffix_ok _ xz = refl
IsPacking-mod_format_suffix_ok _ zstd = refl

-- What stands behind the last slash.
pub record IsTail (s base : List ℕ) : Type 0 where
  pub dir : List ℕ
  pub is_dir : IsDir dir
  pub bare : Lacks b'/' base
  pub parts : s ≡ dir ++ base

skip_loop-cases :
    (q s : List ℕ)
    → (Lacks b'/' q × (skip_loop q s ≡ s))
      ⊎ ((d : List ℕ) × (q ≡ d ++ b'/' ∷ skip_loop q s) × Lacks b'/' (skip_loop q s))
unfolding skip_loop
skip_loop-cases [] s = inl (tt, refl)
skip_loop-cases (c ∷ q) s = elim (Bool-cases (c == b'/')) [
  | inl slash ↦ rw slash (elim (skip_loop-cases q q) [
    | inl (bare, e) ↦ rw e (inr ([], ap (λ x. x ∷ q) (==→eq c b'/' slash), bare))
    | inr (d, e, bare) ↦ inr (c ∷ d, ap (λ t. c ∷ t) e, bare)
  ])
  | inr other ↦ rw other (elim (skip_loop-cases q s) [
    | inl (bare, e) ↦ inl ((λ h. absurd (cc (other, eq→== c b'/' h)), bare), e)
    | inr (d, e, bare) ↦ inr (c ∷ d, ap (λ t. c ∷ t) e, bare)
  ])
]

pub skip_to_name-IsTail : (s : List ℕ) → IsTail s (skip_to_name s)
unfolding skip_to_name
skip_to_name-IsTail s = elim (skip_loop-cases s s) [
  | inl (bare, e) ↦ rw e (record { dir = []; is_dir = no_dir; bare = bare; parts = refl })
  | inr (d, e, bare) ↦ record {
    dir = d ++ b'/' ∷ [];
    is_dir = slash_behind d;
    bare = bare;
    parts = e ∙ sym (append_assoc d (b'/' ∷ []) (skip_loop s s));
  }
]

skip_loop-bare : (q s : List ℕ) → Lacks b'/' q → skip_loop q s ≡ s
unfolding skip_loop
skip_loop-bare [] s h = refl
skip_loop-bare (c ∷ q) s h = rw (ne→== c b'/' h.0) (skip_loop-bare q s h.1)

skip_loop-append : (d base s : List ℕ) → Lacks b'/' base → skip_loop (d ++ b'/' ∷ base) s ≡ base
unfolding skip_loop
skip_loop-append [] base s h = skip_loop-bare base base h
skip_loop-append (c ∷ d) base s h = skip_loop-append d base _ h

pub IsTail-skip_to_name :
    (dir base : List ℕ) → IsDir dir → Lacks b'/' base → skip_to_name (dir ++ base) ≡ base
unfolding skip_to_name
IsTail-skip_to_name _ base no_dir h = skip_loop-bare base base h
IsTail-skip_to_name _ base (slash_behind d) h =
    ap (λ t. skip_loop t t) (append_assoc d (b'/' ∷ []) base)
    ∙ skip_loop-append d base (d ++ b'/' ∷ base) h

pub Lacks-front : (c : ℕ) (a b : List ℕ) → Lacks c (a ++ b) → Lacks c a
Lacks-front c [] b h = tt
Lacks-front c (x ∷ a) b h = (h.0, Lacks-front c a b h.1)

-- ".ko" and a packing have no slash.
pub packing-bare : (tail : List ℕ) → IsPacking tail → Lacks b'/' (dot_ko ++ tail)
packing-bare _ unpacked = (omega arith, (omega arith, (omega arith, tt)))
packing-bare _ gzip =
    (omega arith, (omega arith, (omega arith, (omega arith, (omega arith, (omega arith, tt))))))
packing-bare _ xz =
    (omega arith, (omega arith, (omega arith, (omega arith, (omega arith, (omega arith, tt))))))
packing-bare _ zstd = (
  omega arith,
  (omega arith, (omega arith, (omega arith, (omega arith, (omega arith, (omega arith, tt)))))),
)
