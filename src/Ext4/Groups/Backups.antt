-- ===== src/Ext4/Groups/Backups.antt =====
-- Which groups hold a backup: 0, 1 and the powers of 3, 5 and 7.
use micro_container.Prelude.{
  ◌==◌, ==→eq, Bool-cases, ℕ, zero, suc, ◌/◌, ◌%◌, ◌^◌, ◌≤◌, ◌<◌, ◌≡◌, ◌↔◌, inl, inr, true, arith,
  ◌*◌, refl, sym, false, ◌∙◌, leb, leb→le, bit_and, ◌⊎◌, ◌+◌, Bool, not, ◌&&◌, ◌||◌,
}
use native.Mathlib.Nat.{
  pow-suc, pow-zero, mul-mod_left, mul-div_left, div-add-mod', mod-eq_of_lt, mul-le-mul_left,
}
use micro_container.Bits.{bit_and-mask}
use micro_container.Ext4.Groups.{power_loop, is_power, has_super}

power_zero : (n b : ℕ) → (n == 1) ≡ true → n ≡ b ^ 0
power_zero n b e = ==→eq n 1 e ∙ sym (pow-zero b)

power_loop_sound : (fuel n b : ℕ) → power_loop fuel n b ≡ true → (k : ℕ) × (n ≡ b ^ k)
unfolding power_loop
power_loop_sound zero n b e = (0, power_zero n b e)
power_loop_sound (suc fuel) n b e = elim (Bool-cases (n % b == 0)) [
  | inl divides ↦
      let (k, ek) = power_loop_sound fuel (n / b) b (rw divides at e) in
      let parts = div-add-mod' n b in
      let z = ==→eq (n % b) 0 divides in (suc k, rw (pow-suc b k, sym ek) (omega arith))
  | inr odd ↦ (0, power_zero n b (rw odd at e))
]

pow_bound : (k b : ℕ) → 2 ≤ b → k < b ^ k
pow_bound zero b two = let z = pow-zero b in omega arith
pow_bound (suc k) b two =
    let h = pow_bound k b two in
    let m : b ^ k * 2 ≤ b ^ k * b = mul-le-mul_left (b ^ k) two in rw (pow-suc b k) (omega arith)

power_loop_complete : (fuel k b : ℕ) → 2 ≤ b → k ≤ fuel → power_loop fuel (b ^ k) b ≡ true
unfolding power_loop
power_loop_complete zero k b two le = let z : k ≡ 0 = omega arith in rw (z, pow-zero b) refl
power_loop_complete (suc fuel) zero b two le =
    let one : 1 % b ≡ 1 = mod-eq_of_lt two in rw (pow-zero b, one) refl
power_loop_complete (suc fuel) (suc k) b two le =
    let m : b ^ suc k % b ≡ 0 = rw (pow-suc b k) (mul-mod_left (b ^ k) b) in
    let d : b ^ suc k / b ≡ b ^ k = rw (pow-suc b k) (mul-div_left (b ^ k) (omega arith)) in
    rw (m, d) (power_loop_complete fuel k b two (omega arith))

-- For a base `b` of at least 2 and `n` above 0, `is_power n b` answers true just where `n` is a
-- power of `b`.
pub is_power_iff : (n b : ℕ) → 2 ≤ b → 0 < n → (is_power n b ≡ true) ↔ ((k : ℕ) × (n ≡ b ^ k))
unfolding is_power
is_power_iff n b two pos =
    let other : (n == 0) ≡ false = ground arith in
    (
      (λ (e : is_power n b ≡ true). power_loop_sound n n b (rw other at e)),
      (λ (p : (k : ℕ) × (n ≡ b ^ k)).
          let (k, e) = p in
          let fuel : k ≤ n = (let h = pow_bound k b two in omega arith) in
          rw other (rw (sym e) at (power_loop_complete n k b two fuel))),
    )

odd_pow : (c k : ℕ) → (2 * c + 1) ^ k % 2 ≡ 1
odd_pow c zero = rw (pow-zero (2 * c + 1)) refl
odd_pow c (suc k) =
    let p = (2 * c + 1) ^ k in
    let h : p % 2 ≡ 1 = odd_pow c k in
    let m : p * (2 * c + 1) ≡ 2 * (p * c) + p = grind arith in
    rw (pow-suc (2 * c + 1) k) (omega arith)

pub IsPower : ℕ → ℕ → Type 0
IsPower b n = (k : ℕ) × (n ≡ b ^ k)

any_true_sound : (a b c : Bool) → (a || b || c) ≡ true → (a ≡ true) ⊎ ((b ≡ true) ⊎ (c ≡ true))
any_true_sound true b c e = inl refl
any_true_sound false true c e = inr (inl refl)
any_true_sound false false c e = inr (inr e)

any_true_complete : (a b c : Bool) → (a ≡ true) ⊎ ((b ≡ true) ⊎ (c ≡ true)) → (a || b || c) ≡ true
any_true_complete a b c (inl e) = rw e refl
any_true_complete a b c (inr (inl e)) = ground arith
any_true_complete a b c (inr (inr e)) = ground arith

any_true : (a b c : Bool) → ((a || b || c) ≡ true) ↔ ((a ≡ true) ⊎ ((b ≡ true) ⊎ (c ≡ true)))
any_true a b c = (any_true_sound a b c, any_true_complete a b c)

second_true : (a b : Bool) → (a && b) ≡ true → b ≡ true
second_true a b e = ground arith

sum_map : {A B C D E F : Type 0} → (A → D) → (B → E) → (C → F) → A ⊎ (B ⊎ C) → D ⊎ (E ⊎ F)
sum_map f g h (inl a) = inl (f a)
sum_map f g h (inr (inl b)) = inr (inl (g b))
sum_map f g h (inr (inr c)) = inr (inr (h c))

-- A group above 1 that is a power of 3, 5 or 7 is odd, so the test of the low bit lets it pass.
powers_odd : (g : ℕ) → IsPower 3 g ⊎ (IsPower 5 g ⊎ IsPower 7 g) → g % 2 ≡ 1
unfolding IsPower
powers_odd g (inl (k, e)) = rw e (odd_pow 1 k)
powers_odd g (inr (inl (k, e))) = rw e (odd_pow 2 k)
powers_odd g (inr (inr (k, e))) = rw e (odd_pow 3 k)

high_group :
    (g : ℕ)
    → 1 < g
    → ((not (bit_and g 1 == 0) && (is_power g 3 || is_power g 5 || is_power g 7)) ≡ true)
      ↔ (IsPower 3 g ⊎ (IsPower 5 g ⊎ IsPower 7 g))
unfolding IsPower
high_group g high =
    let three = is_power_iff g 3 (omega arith) (omega arith) in
    let five = is_power_iff g 5 (omega arith) (omega arith) in
    let seven = is_power_iff g 7 (omega arith) (omega arith) in
    let any = any_true (is_power g 3) (is_power g 5) (is_power g 7) in
    let mask : bit_and g 1 ≡ g % 2 = bit_and-mask 1 g in
    (
      (λ e. sum_map three.0 five.0 seven.0 (any.0 (second_true _ _ e))),
      (λ p. let odd = powers_odd g p in rw (mask, odd) (any.1 (sum_map three.1 five.1 seven.1 p))),
    )

-- `has_super` answers true just for the groups 0 and 1 and the powers of 3, 5 and 7.
pub has_super_iff :
    (g : ℕ) → (has_super g ≡ true) ↔ ((g ≤ 1) ⊎ (IsPower 3 g ⊎ (IsPower 5 g ⊎ IsPower 7 g)))
unfolding has_super
has_super_iff g = elim (Bool-cases (leb g 1)) [
  | inl low ↦ ((λ e. inl (leb→le g 1 low)), (λ p. rw low refl))
  | inr high ↦
      let above : 1 < g = ground arith in
      let rule = high_group g above in
      ((λ e. inr (rule.0 (rw high at e))), (λ p. rw high (rule.1 (tail_case g above p))))
]
  where
    tail_case : {A : Type 0} → (g : ℕ) → 1 < g → (g ≤ 1) ⊎ A → A
    tail_case g above (inl low) = absurd (omega arith)
    tail_case g above (inr a) = a
