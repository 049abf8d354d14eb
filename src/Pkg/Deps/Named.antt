-- ===== src/Pkg/Deps/Named.antt =====
-- Which words of a line of modules.dep are paths of module files, and the names of their modules.
use mathlib.Core.Option.{some-injective}
use micro_container.Prelude.{
  ltb, leb, ltb→ge, leb→le, leb→gt, Bool-cases, length, take, drop, take-drop, drop-add, ℕ, zero,
  suc, ◌+◌, ◌-◌, ◌≤◌, ◌<◌, ◌≡◌, sym, ap, ◌∙◌, ◌⊎◌, inl, inr, true, some, List, ◌++◌, append_assoc,
  arith, ge→ltb, le→leb, length-append, take-append, drop-append, refl, false,
}
use micro_container.Pkg.Names.{starts_with, mod_format_suffix_ok, skip_to_name}
use micro_container.Pkg.Deps.{dot_ko, ko_loop, try_add_dep}
use micro_container.Pkg.Files.{IsFile, IsPacking, unpacked, gzip, xz, zstd}
use micro_container.Pkg.Files.Parts.{
  starts_with-rest, mod_format_suffix_ok-IsPacking, skip_to_name-IsTail, starts_with-append,
  IsPacking-mod_format_suffix_ok, IsTail-skip_to_name,
}

-- Where the loop ends: before the third character, or behind a ".ko".
ko_loop-cases :
    (word : List ℕ) (m : ℕ)
    → (ko_loop word m < 3)
      ⊎ ((3 ≤ ko_loop word m) × (starts_with (drop (ko_loop word m - 3) word) dot_ko ≡ true))
unfolding ko_loop
ko_loop-cases word zero = inl (omega arith)
ko_loop-cases word (suc n) = elim (Bool-cases (leb 3 (suc n))) [
  | inr low ↦ rw low (inl (leb→gt 3 (suc n) low))
  | inl high ↦ elim (Bool-cases (starts_with (drop (suc n - 3) word) dot_ko)) [
    | inl here ↦ rw (high, here) (inr (leb→le 3 (suc n) high, here))
    | inr lower ↦ rw (high, lower) (ko_loop-cases word n)
  ]
]

-- What stands before and behind the ".ko" at which the loop ends.
ko_parts :
    (word : List ℕ) (k : ℕ)
    → 3 ≤ k
    → starts_with (drop (k - 3) word) dot_ko ≡ true
    → word ≡ take (k - 3) word ++ (dot_ko ++ drop k word)
ko_parts word k h e =
    let back : k ≡ k - 3 + 3 = omega arith in
    sym (take-drop (k - 3) word)
    ∙ ap (λ t. take (k - 3) word ++ t)
        (starts_with-rest (drop (k - 3) word) dot_ko e
          ∙ ap (λ t. dot_ko ++ t)
              (sym (drop-add (k - 3) 3 word) ∙ ap (λ i. drop i word) (sym back)))

pub try_add_dep-IsFile :
    (word name : List ℕ) → try_add_dep word ≡ some name → (3 < length word) × IsFile word name
unfolding try_add_dep
try_add_dep-IsFile word name e =
    let k : ℕ = ko_loop word (length word) in
    let start : List ℕ = take (k - 3) word in
    elim (Bool-cases (leb (length word) 3)) [
      | inl short ↦ absurd (cc (rw short at e))
      | inr long ↦ elim (Bool-cases (ltb k 3)) [
        | inl none_there ↦ absurd (cc (rw (long, none_there) at e))
        | inr there ↦ elim (Bool-cases (mod_format_suffix_ok (drop k word))) [
          | inr other ↦ absurd (cc (rw (long, there, other) at e))
          | inl packed ↦
              let same : skip_to_name start ≡ name =
                some-injective (skip_to_name start) name (rw (long, there, packed) at e) in
              let three : 3 ≤ k = ltb→ge k 3 there in
              let found : starts_with (drop (k - 3) word) dot_ko ≡ true =
                elim (ko_loop-cases word (length word)) [
                  | inl low ↦ absurd (omega (arith, low, three))
                  | inr (high, ko) ↦ ko
                ] in
              let t = skip_to_name-IsTail start in
              rw (← same) (
                leb→gt (length word) 3 long,
                record {
                  dir = t.dir;
                  tail = drop k word;
                  is_dir = t.is_dir;
                  bare = t.bare;
                  packing = mod_format_suffix_ok-IsPacking (drop k word) packed;
                  parts =
                      ko_parts word k three found
                      ∙ ap (λ x. x ++ (dot_ko ++ drop k word)) t.parts
                      ∙ append_assoc t.dir (skip_to_name start) (dot_ko ++ drop k word);
                },
              )
        ]
      ]
    ]

-- In a packing, and from there back to the ".ko" before it, no other ".ko" ends.
no_ko :
    (tail : List ℕ)
    → IsPacking tail
    → (i : ℕ) → 1 ≤ i
    → i ≤ length tail
    → starts_with (drop i (dot_ko ++ tail)) dot_ko ≡ false
unfolding starts_with
no_ko _ unpacked i low high = absurd (omega arith)
no_ko _ gzip zero low high = absurd (omega arith)
no_ko _ gzip (suc zero) low high = refl
no_ko _ gzip (suc (suc zero)) low high = refl
no_ko _ gzip (suc (suc (suc zero))) low high = refl
no_ko _ gzip (suc (suc (suc (suc i)))) low high = absurd (omega arith)
no_ko _ xz zero low high = absurd (omega arith)
no_ko _ xz (suc zero) low high = refl
no_ko _ xz (suc (suc zero)) low high = refl
no_ko _ xz (suc (suc (suc zero))) low high = refl
no_ko _ xz (suc (suc (suc (suc i)))) low high = absurd (omega arith)
no_ko _ zstd zero low high = absurd (omega arith)
no_ko _ zstd (suc zero) low high = refl
no_ko _ zstd (suc (suc zero)) low high = refl
no_ko _ zstd (suc (suc (suc zero))) low high = refl
no_ko _ zstd (suc (suc (suc (suc zero)))) low high = refl
no_ko _ zstd (suc (suc (suc (suc (suc i))))) low high = absurd (omega arith)

ko_loop-here : (p tail : List ℕ) → ko_loop (p ++ (dot_ko ++ tail)) (length p + 3) ≡ length p + 3
unfolding ko_loop
ko_loop-here p tail =
    let word = p ++ (dot_ko ++ tail) in
    let e : length p + 3 ≡ suc (length p + 2) = omega arith in
    let back : suc (length p + 2) - 3 ≡ length p = omega arith in
    let there : starts_with (drop (suc (length p + 2) - 3) word) dot_ko ≡ true =
      ap (λ k. starts_with (drop k word) dot_ko) back
      ∙ ap (λ t. starts_with t dot_ko) (drop-append p (dot_ko ++ tail))
      ∙ starts_with-append dot_ko tail in
    rw (e, le→leb 3 (suc (length p + 2)) (omega arith), there) refl

ko_loop-behind :
    (p tail : List ℕ) (j : ℕ)
    → IsPacking tail
    → j ≤ length tail
    → ko_loop (p ++ (dot_ko ++ tail)) (length p + 3 + j) ≡ length p + 3
unfolding ko_loop
ko_loop-behind p tail zero packing h =
    let e : length p + 3 + zero ≡ length p + 3 = omega arith in
    ap (ko_loop (p ++ (dot_ko ++ tail))) e ∙ ko_loop-here p tail
ko_loop-behind p tail (suc j) packing h =
    let word = p ++ (dot_ko ++ tail) in
    let n : ℕ = length p + 3 + j in
    let e : length p + 3 + suc j ≡ suc n = omega arith in
    let back : suc n - 3 ≡ length p + suc j = omega arith in
    let other : starts_with (drop (suc n - 3) word) dot_ko ≡ false =
      ap (λ k. starts_with (drop k word) dot_ko) back
      ∙ ap (λ t. starts_with t dot_ko)
          (drop-add (length p) (suc j) word ∙ ap (drop (suc j)) (drop-append p (dot_ko ++ tail)))
      ∙ no_ko tail packing (suc j) (omega arith) h in
    rw (e, le→leb 3 (suc n) (omega arith), other) (ko_loop-behind p tail j packing (omega arith))

pub IsFile-try_add_dep :
    (word name : List ℕ) → 3 < length word → IsFile word name → try_add_dep word ≡ some name
unfolding try_add_dep
IsFile-try_add_dep word name long h =
    let p : List ℕ = h.dir ++ name in
    let split : word ≡ p ++ (dot_ko ++ h.tail) =
      h.parts ∙ sym (append_assoc h.dir name (dot_ko ++ h.tail)) in
    let whole : length word ≡ length p + 3 + length h.tail =
      omega
        (arith, ap length split, length-append p (dot_ko ++ h.tail), length-append dot_ko h.tail) in
    let ko : ko_loop word (length word) ≡ length p + 3 =
      ap (λ w. ko_loop w (length word)) split
      ∙ ap (ko_loop (p ++ (dot_ko ++ h.tail))) whole
      ∙ ko_loop-behind p h.tail (length h.tail) h.packing (omega arith) in
    let before : length p + 3 - 3 ≡ length p = omega arith in
    let front : take (length p + 3 - 3) word ≡ p =
      ap (λ k. take k word) before
      ∙ ap (take (length p)) split
      ∙ take-append p (dot_ko ++ h.tail) in
    let last : drop (length p + 3) word ≡ h.tail =
      ap (drop (length p + 3)) split
      ∙ drop-add (length p) 3 (p ++ (dot_ko ++ h.tail))
      ∙ ap (drop 3) (drop-append p (dot_ko ++ h.tail)) in
    let more : leb (length word) 3 ≡ false = ground arith in
    rw
      (
        more,
        ko,
        ge→ltb (length p + 3) 3 (omega arith),
        last,
        IsPacking-mod_format_suffix_ok h.tail h.packing,
        front,
        IsTail-skip_to_name h.dir name h.is_dir h.bare,
      )
      refl
