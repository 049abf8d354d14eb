-- ===== src/Prelude/Strings.antt =====
-- `strcmp` on C strings, as lists of their bytes.
use Prim.Native.Nat.{ℕ}
use mathlib.Core.Path.{◌≡◌, refl}
use mathlib.Core.Bool.{Bool, true, false, ◌&&◌}
use mathlib.Core.List.{List, [], ◌∷◌}
use mathlib.Core.Logic.{inl, inr, ◌≢◌}
use micro_container.Prelude.Tests.{◌==◌, ==→eq, eq→==, Bool-cases}

-- `strcmp(a, b) == 0`.
abbrev pub str_eq : List ℕ → List ℕ → Bool
str_eq [] [] = true
str_eq [] (y ∷ ys) = false
str_eq (x ∷ xs) [] = false
str_eq (x ∷ xs) (y ∷ ys) = (x == y) && str_eq xs ys

pub str_eq→eq : (a b : List ℕ) → str_eq a b ≡ true → a ≡ b
str_eq→eq [] [] e = refl
str_eq→eq [] (y ∷ ys) e = absurd (cc e)
str_eq→eq (x ∷ xs) [] e = absurd (cc e)
str_eq→eq (x ∷ xs) (y ∷ ys) e = elim (Bool-cases (x == y)) [
  | inl same ↦ cc (==→eq x y same, str_eq→eq xs ys (rw same at e))
  | inr other ↦ absurd (cc (rw other at e))
]

pub str_eq_refl : (a : List ℕ) → str_eq a a ≡ true
str_eq_refl [] = refl
str_eq_refl (x ∷ xs) = rw (eq→== x x refl) (str_eq_refl xs)

pub str_eq→ne : (a b : List ℕ) → str_eq a b ≡ false → a ≢ b
str_eq→ne a b h e = absurd (cc (str_eq_refl b, rw e at h))

pub ne→str_eq : (a b : List ℕ) → a ≢ b → str_eq a b ≡ false
ne→str_eq a b h = elim (Bool-cases (str_eq a b)) [
  | inl same ↦ absurd (h (str_eq→eq a b same))
  | inr other ↦ other
]
