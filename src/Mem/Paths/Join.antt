-- ===== src/Mem/Paths/Join.antt =====
-- `mem_path` joins two strings by one slash, whatever slashes stand at the joint.
use mathlib.Core.Path.{subst}
use micro_container.Prelude.{
  ◌==◌, ==→eq, eq→==, Bool-cases, length, get_or, take, replicate, ℕ, zero, suc, ◌-◌, ◌≤◌, ◌<◌, ◌≡◌,
  refl, sym, ap, ◌∙◌, ◌≢◌, ◌⊎◌, inl, inr, List, [], ◌∷◌, ◌++◌, append_assoc, append-nil, arith,
  length-take,
}
use micro_container.Mem.Paths.{base_len, skip_slashes, mem_path}

abbrev pub slashes : ℕ → List ℕ
slashes n = replicate n b'/'

slashes-snoc : (n : ℕ) → slashes n ++ b'/' ∷ [] ≡ slashes (suc n)
slashes-snoc zero = refl
slashes-snoc (suc n) = ap (λ (t : List ℕ). b'/' ∷ t) (slashes-snoc n)

take-suc : (xs : List ℕ) (n : ℕ) → n < length xs → take (suc n) xs ≡ take n xs ++ get_or xs n 0 ∷ []
take-suc [] n h = absurd (omega arith)
take-suc (x ∷ xs) zero h = refl
take-suc (x ∷ xs) (suc n) h = ap (λ (t : List ℕ). x ∷ t) (take-suc xs n (omega arith))

take_all : (xs : List ℕ) → take (length xs) xs ≡ xs
take_all [] = refl
take_all (x ∷ xs) = ap (λ (t : List ℕ). x ∷ t) (take_all xs)

get_or-take : (xs : List ℕ) (n i : ℕ) → i < n → get_or (take n xs) i 0 ≡ get_or xs i 0
get_or-take xs zero i h = absurd (omega arith)
get_or-take [] (suc n) i h = refl
get_or-take (x ∷ xs) (suc n) zero h = refl
get_or-take (x ∷ xs) (suc n) (suc i) h = get_or-take xs n i (omega arith)

base_len-le : (base : List ℕ) (n : ℕ) → base_len base n ≤ n
unfolding base_len
base_len-le base zero = omega arith
base_len-le base (suc n) = ground (arith, base_len-le base n)

-- What the first loop leaves off is slashes, all there are.
base_len-slashes :
    (base : List ℕ) (n : ℕ)
    → n ≤ length base
    → (k : ℕ) × (take n base ≡ take (base_len base n) base ++ slashes k)
unfolding base_len
base_len-slashes base zero h = (0, refl)
base_len-slashes base (suc n) h = elim (Bool-cases (get_or base n 0 == b'/')) [
  | inl is_slash ↦
      let (k, e) = base_len-slashes base n (omega arith) in
      (
        suc k,
        rw is_slash (
            take-suc base n h
            ∙ ap (λ (t : List ℕ). t ++ get_or base n 0 ∷ []) e
            ∙ ap (λ (c : ℕ). (take (base_len base n) base ++ slashes k) ++ c ∷ [])
                (==→eq (get_or base n 0) b'/' is_slash)
            ∙ append_assoc (take (base_len base n) base) (slashes k) (b'/' ∷ [])
            ∙ ap (λ (t : List ℕ). take (base_len base n) base ++ t) (slashes-snoc k)),
      )
  | inr other ↦ (0, rw other (sym (append-nil (take (suc n) base))))
]

base_len_last :
    (base : List ℕ) (n : ℕ) → (base_len base n ≡ 0) ⊎ (get_or base (base_len base n - 1) 0 ≢ b'/')
unfolding base_len
base_len_last base zero = inl refl
base_len_last base (suc n) = elim (Bool-cases (get_or base n 0 == b'/')) [
  | inl is_slash ↦ rw is_slash (base_len_last base n)
  | inr other ↦
      let e : suc n - 1 ≡ n = omega arith in
      inr (rw (other, e) (λ same. cc (eq→== (get_or base n 0) b'/' same)))
]

skip_slashes-split :
    (append : List ℕ)
    → (k : ℕ) × (append ≡ slashes k ++ skip_slashes append)
      × (get_or (skip_slashes append) 0 0 ≢ b'/')
unfolding skip_slashes
skip_slashes-split [] = (0, refl, λ e. omega arith)
skip_slashes-split (c ∷ append) = elim (Bool-cases (c == b'/')) [
  | inl is_slash ↦
      let (k, e, start) = skip_slashes-split append in
      (
        suc k,
        rw is_slash (
            ap (λ (t : List ℕ). c ∷ t) e
            ∙ ap (λ (x : ℕ). x ∷ slashes k ++ skip_slashes append) (==→eq c b'/' is_slash)),
        rw is_slash start,
      )
  | inr other ↦ (0, rw other refl, rw other (λ same. cc (eq→== c b'/' same)))
]

last_kept :
    (base : List ℕ) (len : ℕ)
    → len ≤ length base
    → (len ≡ 0) ⊎ (get_or base (len - 1) 0 ≢ b'/')
    → get_or (take len base) (length (take len base) - 1) 0 ≢ b'/'
last_kept base len h (inl none_left) = rw none_left (λ e. omega arith)
last_kept base len h (inr other) = λ e. elim (Bool-cases (len == 0)) [
  | inl z ↦
      let z' : len ≡ 0 = ==→eq len 0 z in
      absurd (
        empty_last
          (subst (λ (t : ℕ). get_or (take t base) (length (take t base) - 1) 0 ≡ b'/') z' e))
  | inr pos ↦
      let size : length (take len base) ≡ len = omega (arith, length-take len base) in
      let some_left : len ≢ 0 = λ z. cc (eq→== len 0 z) in
      other (
        sym (get_or-take base len (len - 1) (omega arith))
        ∙ ap (λ (t : ℕ). get_or (take len base) (t - 1) 0) (sym size)
        ∙ e)
]
  where
    empty_last : ¬ (◌≡◌ {A = ℕ} 0 b'/')
    empty_last e = omega arith

-- `mem_path` cuts the slashes off the end of the base and off the start of the rest, all of them,
-- and puts one slash between what is left of the two.
pub mem_path_joint :
    (base append : List ℕ)
    → (b a : List ℕ) × (n : ℕ) × (m : ℕ) × (base ≡ b ++ slashes n)
      × (append ≡ slashes m ++ a)
      × (get_or b (length b - 1) 0 ≢ b'/')
      × (get_or a 0 0 ≢ b'/')
      × (mem_path base append ≡ b ++ b'/' ∷ a)
unfolding mem_path
mem_path_joint base append =
    let len : ℕ = base_len base (length base) in
    let (n, cut) = base_len-slashes base (length base) (omega arith) in
    let (m, skipped, start) = skip_slashes-split append in
    (
      take len base,
      skip_slashes append,
      n,
      m,
      sym (take_all base) ∙ cut,
      skipped,
      last_kept base len (base_len-le base (length base)) (base_len_last base (length base)),
      start,
      refl,
    )
