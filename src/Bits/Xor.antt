-- ===== src/Bits/Xor.antt =====
-- `^` is a commutative group in which every element is its own inverse, digit by digit.
use Prim.Native.Nat.{differ, bit_xor-bitwise}
use native.Mathlib.Nat.{pow-suc, div-one, div-div-eq-div-mul}
use micro_container.Prelude.{
  ℕ, zero, suc, ◌+◌, ◌*◌, ◌/◌, ◌%◌, ◌^◌, ◌≤◌, ◌<◌, ◌≡◌, refl, sym, ap, ◌∙◌, arith, bit_xor,
}
use micro_container.Bits.Step.{bit_xor_digit}

-- Digits are 0 or 1.
differ_bit : (x y : ℕ) → x < 2 → y < 2 → differ x y ≡ (x + y) % 2
differ_bit zero y p q = omega arith
differ_bit (suc zero) zero p q = refl
differ_bit (suc zero) (suc zero) p q = refl
differ_bit (suc zero) (suc (suc y)) p q = absurd (omega arith)
differ_bit (suc (suc x)) y p q = absurd (omega arith)

-- The lowest digit, by arithmetic.
pub bit_xor_step : (a b : ℕ) → bit_xor a b ≡ bit_xor (a / 2) (b / 2) * 2 + (a + b) % 2
bit_xor_step a b =
    omega (arith, bit_xor_digit a b, differ_bit (a % 2) (b % 2) (omega arith) (omega arith))

pub bit_xor_half : (a b : ℕ) → bit_xor a b / 2 ≡ bit_xor (a / 2) (b / 2)
bit_xor_half a b = omega (arith, bit_xor_step a b)

pub bit_xor_parity : (a b : ℕ) → bit_xor a b % 2 ≡ (a + b) % 2
bit_xor_parity a b = omega (arith, bit_xor_step a b)

pub zero-bit_xor : (b : ℕ) → bit_xor 0 b ≡ b
zero-bit_xor b = bit_xor-bitwise 0 b

xor_zero_upto : (n a : ℕ) → a ≤ n → bit_xor a 0 ≡ a
xor_zero_upto n zero h = refl
xor_zero_upto zero (suc a) h = absurd (omega arith)
xor_zero_upto (suc n) (suc a) h =
    omega (arith, bit_xor_step (suc a) 0, xor_zero_upto n (suc a / 2) (omega arith))

pub bit_xor-zero : (a : ℕ) → bit_xor a 0 ≡ a
bit_xor-zero a = xor_zero_upto a a (omega arith)

xor_self_upto : (n a : ℕ) → a ≤ n → bit_xor a a ≡ 0
xor_self_upto n zero h = refl
xor_self_upto zero (suc a) h = absurd (omega arith)
xor_self_upto (suc n) (suc a) h =
    omega (arith, bit_xor_step (suc a) (suc a), xor_self_upto n (suc a / 2) (omega arith))

pub bit_xor_self : (a : ℕ) → bit_xor a a ≡ 0
bit_xor_self a = xor_self_upto a a (omega arith)

xor_comm_upto : (n a b : ℕ) → a ≤ n → bit_xor a b ≡ bit_xor b a
xor_comm_upto n zero b h = zero-bit_xor b ∙ sym (bit_xor-zero b)
xor_comm_upto zero (suc a) b h = absurd (omega arith)
xor_comm_upto (suc n) (suc a) b h = omega (
  arith,
  bit_xor_step (suc a) b,
  bit_xor_step b (suc a),
  xor_comm_upto n (suc a / 2) (b / 2) (omega arith),
)

pub bit_xor_comm : (a b : ℕ) → bit_xor a b ≡ bit_xor b a
bit_xor_comm a b = xor_comm_upto a a b (omega arith)

xor_assoc_upto : (n a b c : ℕ) → a ≤ n → bit_xor (bit_xor a b) c ≡ bit_xor a (bit_xor b c)
xor_assoc_upto n zero b c h =
    ap (λ (t : ℕ). bit_xor t c) (zero-bit_xor b) ∙ sym (zero-bit_xor (bit_xor b c))
xor_assoc_upto zero (suc a) b c h = absurd (omega arith)
xor_assoc_upto (suc n) (suc a) b c h = omega (
  arith,
  bit_xor_step (bit_xor (suc a) b) c,
  bit_xor_step (suc a) (bit_xor b c),
  bit_xor_parity (suc a) b,
  bit_xor_parity b c,
  ap (λ (t : ℕ). bit_xor t (c / 2)) (bit_xor_half (suc a) b),
  ap (bit_xor (suc a / 2)) (bit_xor_half b c),
  xor_assoc_upto n (suc a / 2) (b / 2) (c / 2) (omega arith),
)

pub bit_xor_assoc : (a b c : ℕ) → bit_xor (bit_xor a b) c ≡ bit_xor a (bit_xor b c)
bit_xor_assoc a b c = xor_assoc_upto a a b c (omega arith)

pub bit_xor_left_comm : (a b c : ℕ) → bit_xor a (bit_xor b c) ≡ bit_xor b (bit_xor a c)
bit_xor_left_comm a b c =
    sym (bit_xor_assoc a b c) ∙ ap (λ (t : ℕ). bit_xor t c) (bit_xor_comm a b) ∙ bit_xor_assoc b a c

pub bit_xor_cancel : (a b : ℕ) → bit_xor a (bit_xor a b) ≡ b
bit_xor_cancel a b =
    sym (bit_xor_assoc a a b) ∙ ap (λ (t : ℕ). bit_xor t b) (bit_xor_self a) ∙ zero-bit_xor b

-- The result fits the width of the operands.
pub bit_xor-lt : (k a b : ℕ) → a < 2 ^ k → b < 2 ^ k → bit_xor a b < 2 ^ k
bit_xor-lt zero a b p q =
    let ea : a ≡ 0 = omega arith in let eb : b ≡ 0 = omega arith in rw (ea, eb) (omega arith)
bit_xor-lt (suc k) a b p q = omega (
  arith,
  pow-suc 2 k,
  bit_xor_step a b,
  bit_xor-lt k (a / 2) (b / 2) (omega (arith, pow-suc 2 k)) (omega (arith, pow-suc 2 k)),
)

-- `lo ^ (hi << k)` for `lo` below `2 ^ k`.
pub bit_xor-shift : (k lo hi : ℕ) → lo < 2 ^ k → bit_xor lo (hi * 2 ^ k) ≡ lo + hi * 2 ^ k
bit_xor-shift zero lo hi h =
    let empty : lo ≡ 0 = omega arith in rw empty (omega (arith, zero-bit_xor (hi * 1)))
bit_xor-shift (suc k) lo hi h = omega (
  arith,
  bit_xor_step lo (hi * 2 ^ suc k),
  pow-suc 2 k,
  ap (λ (t : ℕ). hi * t) (pow-suc 2 k),
  ap (bit_xor (lo / 2)) half_shift,
  bit_xor-shift k (lo / 2) hi (omega (arith, pow-suc 2 k)),
)
  where
    half_shift : hi * 2 ^ suc k / 2 ≡ hi * 2 ^ k
    half_shift = omega (arith, ap (λ (t : ℕ). hi * t) (pow-suc 2 k))

-- `(a ^ b) >> k`.
pub bit_xor_shr : (k a b : ℕ) → bit_xor a b / 2 ^ k ≡ bit_xor (a / 2 ^ k) (b / 2 ^ k)
bit_xor_shr zero a b = cc (div-one (bit_xor a b), div-one a, div-one b)
bit_xor_shr (suc k) a b =
    shr-suc k (bit_xor a b)
    ∙ ap (λ (t : ℕ). t / 2 ^ k) (bit_xor_half a b)
    ∙ bit_xor_shr k (a / 2) (b / 2)
    ∙ cc (shr-suc k a, shr-suc k b)
  where
    shr-suc : (k x : ℕ) → x / 2 ^ suc k ≡ x / 2 / 2 ^ k
    shr-suc k x =
        ap (λ (t : ℕ). x / t) (omega (arith, pow-suc 2 k)) ∙ sym (div-div-eq-div-mul x 2 (2 ^ k))
