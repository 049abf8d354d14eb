-- ===== src/Bits/Field.antt =====
-- `&` with a mask of low bits is a remainder, and `|` of two fields that do not overlap is a sum.
use Prim.Native.Nat.{bit_or-bitwise}
use native.Mathlib.Nat.{
  pow-suc, one-le-pow, div-add-mod, div-div-eq-div-mul, mod-lt, mod-eq_of_lt,
  mul-add-mod_self_right,
}
use micro_container.Prelude.{
  ℕ, zero, suc, ◌+◌, ◌-◌, ◌*◌, ◌/◌, ◌%◌, ◌^◌, ◌≤◌, ◌<◌, ◌≡◌, refl, ap, ◌∙◌, arith, bit_and, bit_or,
}
use micro_container.Bits.Step.{bit_and_digit, bit_or_digit}

and_zero_upto : (n a : ℕ) → a ≤ n → bit_and a 0 ≡ 0
and_zero_upto n zero h = refl
and_zero_upto zero (suc a) h = absurd (omega arith)
and_zero_upto (suc n) (suc a) h =
    omega (arith, bit_and_digit (suc a) 0, and_zero_upto n (suc a / 2) (omega arith))

or_zero_upto : (n a : ℕ) → a ≤ n → bit_or a 0 ≡ a
or_zero_upto n zero h = refl
or_zero_upto zero (suc a) h = absurd (omega arith)
or_zero_upto (suc n) (suc a) h =
    omega (arith, bit_or_digit (suc a) 0, or_zero_upto n (suc a / 2) (omega arith))

zero-bit_or : (b : ℕ) → bit_or 0 b ≡ b
zero-bit_or b = bit_or-bitwise 0 b

pub bit_or-zero : (a : ℕ) → bit_or a 0 ≡ a
bit_or-zero a = or_zero_upto a a (omega arith)

mask-suc : (k : ℕ) → (2 ^ suc k - 1) / 2 ≡ 2 ^ k - 1
mask-suc k = omega (arith, pow-suc 2 k, one-le-pow k 2 (omega arith))

mod_digit : (k a : ℕ) → a % 2 ^ suc k ≡ a / 2 % 2 ^ k * 2 + a % 2
mod_digit k a =
    let m : ℕ = 2 ^ k in
    let q : ℕ = a / 2 / m in
    let r : ℕ = a / 2 % m * 2 + a % 2 in
    let split : a ≡ q * 2 ^ suc k + r =
      omega (arith, div-add-mod (a / 2) m, ap (λ (t : ℕ). q * t) (pow-suc 2 k)) in
    let small : r < 2 ^ suc k =
      omega (arith, pow-suc 2 k, mod-lt (a / 2) {m = m} (one-le-pow k 2 (omega arith))) in
    ap (λ (t : ℕ). t % 2 ^ suc k) split
    ∙ mul-add-mod_self_right q (2 ^ suc k) r
    ∙ mod-eq_of_lt small

-- `a & ((1 << k) - 1)`.
pub bit_and-mask : (k a : ℕ) → bit_and a (2 ^ k - 1) ≡ a % 2 ^ k
bit_and-mask zero a = omega (arith, and_zero_upto a a (omega arith))
bit_and-mask (suc k) a = omega (
  arith,
  bit_and_digit a (2 ^ suc k - 1),
  pow-suc 2 k,
  one-le-pow k 2 (omega arith),
  ap (bit_and (a / 2)) (mask-suc k),
  bit_and-mask k (a / 2),
  mod_digit k a,
)

-- `lo | (hi << k)` for `lo` below `2 ^ k`.
pub bit_or-shift : (k lo hi : ℕ) → lo < 2 ^ k → bit_or lo (hi * 2 ^ k) ≡ lo + hi * 2 ^ k
bit_or-shift zero lo hi h =
    let empty : lo ≡ 0 = omega arith in rw empty (omega (arith, zero-bit_or (hi * 1)))
bit_or-shift (suc k) lo hi h = omega (
  arith,
  bit_or_digit lo (hi * 2 ^ suc k),
  pow-suc 2 k,
  ap (λ (t : ℕ). hi * t) (pow-suc 2 k),
  ap (bit_or (lo / 2)) (half_shift k hi),
  bit_or-shift k (lo / 2) hi (omega (arith, pow-suc 2 k)),
)
  where
    half_shift : (k hi : ℕ) → hi * 2 ^ suc k / 2 ≡ hi * 2 ^ k
    half_shift k hi = omega (arith, ap (λ (t : ℕ). hi * t) (pow-suc 2 k))

pub pow_add : (m n : ℕ) → 2 ^ (m + n) ≡ 2 ^ m * 2 ^ n
pow_add m zero = let e : m + 0 ≡ m = omega arith in rw e (omega arith)
pow_add m (suc n) =
    let e : m + suc n ≡ suc (m + n) = omega arith in
    rw (e, pow-suc 2 (m + n), pow-suc 2 n) (omega (arith, ap (λ (t : ℕ). t * 2) (pow_add m n)))

-- `(hi << 1) | bit`.
pub bit_or-bit : (hi bit : ℕ) → bit < 2 → bit_or (hi * 2) bit ≡ hi * 2 + bit
bit_or-bit hi bit h =
    let half : hi * 2 / 2 ≡ hi = omega arith in
    let over : bit / 2 ≡ 0 = omega arith in
    omega (
      arith,
      bit_or_digit (hi * 2) bit,
      ap (λ (t : ℕ). bit_or t (bit / 2)) half,
      ap (bit_or hi) over,
      bit_or-zero hi,
    )

-- `a & (m << k)`.
pub bit_and-shift : (k a m : ℕ) → bit_and a (m * 2 ^ k) ≡ bit_and (a / 2 ^ k) m * 2 ^ k
bit_and-shift zero a m =
    let e : m * 1 ≡ m = omega arith in let e' : a / 1 ≡ a = omega arith in rw (e, e') (omega arith)
bit_and-shift (suc k) a m =
    let p : ℕ = 2 ^ k in
    let half : m * 2 ^ suc k / 2 ≡ m * p = omega (arith, ap (λ (t : ℕ). m * t) (pow-suc 2 k)) in
    let whole : a / 2 / p ≡ a / 2 ^ suc k =
      div-div-eq-div-mul a 2 p ∙ ap (λ (t : ℕ). a / t) (omega (arith, pow-suc 2 k)) in
    let x : ℕ = bit_and (a / 2 ^ suc k) m in
    omega (
      arith,
      bit_and_digit a (m * 2 ^ suc k),
      ap (λ (t : ℕ). m * t) (pow-suc 2 k),
      ap (λ (t : ℕ). x * t) (pow-suc 2 k),
      ap (bit_and (a / 2)) half,
      bit_and-shift k (a / 2) m,
      ap (λ (t : ℕ). bit_and t m * p) whole,
    )
