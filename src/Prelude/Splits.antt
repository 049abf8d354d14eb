-- ===== src/Prelude/Splits.antt =====
-- A list and its two parts, `take` and `drop`.
use Prim.Native.Nat.{ℕ, zero, suc, ◌+◌}
use mathlib.Core.Path.{◌≡◌, refl, ap, ◌∙◌}
use mathlib.Core.List.{List, [], ◌∷◌, ◌++◌}
use native.Mathlib.Omega.{arith}
use micro_container.Prelude.Lists.{length, take, drop}

module _ {ℓ} {A : Type ℓ} where
  pub take-drop : (n : ℕ) (s : List A) → take n s ++ drop n s ≡ s
  take-drop zero s = refl
  take-drop (suc n) [] = refl
  take-drop (suc n) (x ∷ s) = ap (λ t. x ∷ t) (take-drop n s)

  pub drop-add : (n m : ℕ) (s : List A) → drop (n + m) s ≡ drop m (drop n s)
  drop-add zero m s = let e : zero + m ≡ m = omega arith in ap (λ k. drop k s) e
  drop-add (suc n) zero [] = let e : suc n + zero ≡ suc n = omega arith in ap (λ k. drop k []) e
  drop-add (suc n) (suc m) [] =
      let e : suc n + suc m ≡ suc (n + suc m) = omega arith in ap (λ k. drop k []) e
  drop-add (suc n) m (x ∷ s) =
      let e : suc n + m ≡ suc (n + m) = omega arith in ap (λ k. drop k (x ∷ s)) e ∙ drop-add n m s

  pub take-append : (p s : List A) → take (length p) (p ++ s) ≡ p
  take-append [] s = refl
  take-append (x ∷ p) s = ap (λ t. x ∷ t) (take-append p s)

  pub drop-append : (p s : List A) → drop (length p) (p ++ s) ≡ s
  drop-append [] s = refl
  drop-append (x ∷ p) s = drop-append p s
