-- ===== src/Crc/Round.antt =====
-- One bit and eight bits of a reflected CRC, and their laws.
use micro_container.Prelude.{
  ℕ, zero, suc, ◌*◌, ◌/◌, ◌%◌, ◌^◌, ◌<◌, ◌≡◌, refl, sym, ap, ◌∙◌, ◌⊎◌, inl, inr, arith, bit_and,
  bit_xor, ◌==◌, if◌then◌else◌,
}
use micro_container.Bits.{
  bit_and-mask, bit_xor_half, bit_xor_parity, bit_xor_assoc, bit_xor_left_comm, bit_xor_cancel,
  bit_xor-lt,
}

module _ (poly : ℕ) where
  -- `if (c & 1) c = POLY ^ (c >> 1); else c >>= 1;`
  unfoldable pub round : ℕ → ℕ
  round c = if bit_and c 1 == 0 then c / 2 else bit_xor poly (c / 2)

  -- `for (int j = 0; j < 8; j++)`, with the rounds left as an argument.
  unfoldable pub rounds : ℕ → ℕ → ℕ
  unfolding round
  rounds zero c = c
  rounds (suc j) c = rounds j (round c)

  pub round_even : (c : ℕ) → c % 2 ≡ 0 → round c ≡ c / 2
  unfolding round
  round_even c h = ground (arith, bit_and-mask 1 c)

  pub round_odd : (c : ℕ) → c % 2 ≡ 1 → round c ≡ bit_xor poly (c / 2)
  unfolding round
  round_odd c h = ground (arith, bit_and-mask 1 c)

  parity_cases : (c : ℕ) → (c % 2 ≡ 0) ⊎ (c % 2 ≡ 1)
  parity_cases c = omega arith

  -- One round respects `^`.
  pub round_linear : (a b : ℕ) → round (bit_xor a b) ≡ bit_xor (round a) (round b)
  round_linear a b = elim (parity_cases a) [
    | inl ea ↦ elim (parity_cases b) [
      | inl eb ↦
          round_even (bit_xor a b) (omega (arith, bit_xor_parity a b))
          ∙ bit_xor_half a b
          ∙ cc (round_even a ea, round_even b eb)
      | inr ob ↦
          round_odd (bit_xor a b) (omega (arith, bit_xor_parity a b))
          ∙ ap (bit_xor poly) (bit_xor_half a b)
          ∙ bit_xor_left_comm poly (a / 2) (b / 2)
          ∙ cc (round_even a ea, round_odd b ob)
    ]
    | inr oa ↦ elim (parity_cases b) [
      | inl eb ↦
          round_odd (bit_xor a b) (omega (arith, bit_xor_parity a b))
          ∙ ap (bit_xor poly) (bit_xor_half a b)
          ∙ sym (bit_xor_assoc poly (a / 2) (b / 2))
          ∙ cc (round_odd a oa, round_even b eb)
      | inr ob ↦
          round_even (bit_xor a b) (omega (arith, bit_xor_parity a b))
          ∙ bit_xor_half a b
          ∙ sym (both_odd (a / 2) (b / 2))
          ∙ cc (round_odd a oa, round_odd b ob)
    ]
  ]
    where
      both_odd : (x y : ℕ) → bit_xor (bit_xor poly x) (bit_xor poly y) ≡ bit_xor x y
      both_odd x y =
          bit_xor_assoc poly x (bit_xor poly y)
          ∙ ap (bit_xor poly) (bit_xor_left_comm x poly y)
          ∙ bit_xor_cancel poly (bit_xor x y)

  pub rounds_linear : (j a b : ℕ) → rounds j (bit_xor a b) ≡ bit_xor (rounds j a) (rounds j b)
  unfolding rounds
  rounds_linear zero a b = refl
  rounds_linear (suc j) a b = ap (rounds j) (round_linear a b) ∙ rounds_linear j (round a) (round b)

  -- Eight rounds take a multiple of 256 to its quotient.
  pub rounds_byte : (q : ℕ) → rounds 8 (q * 256) ≡ q
  unfolding rounds
  rounds_byte q = rw (
    halve (q * 128) (q * 256) (omega arith),
    halve (q * 64) (q * 128) (omega arith),
    halve (q * 32) (q * 64) (omega arith),
    halve (q * 16) (q * 32) (omega arith),
    halve (q * 8) (q * 16) (omega arith),
    halve (q * 4) (q * 8) (omega arith),
    halve (q * 2) (q * 4) (omega arith),
    halve q (q * 2) (omega arith),
  )
    where
      halve : (m c : ℕ) → c ≡ m * 2 → round c ≡ m
      halve m c h = round_even c (omega arith) ∙ omega arith

  pub round-lt : (c : ℕ) → poly < 2 ^ 32 → c < 2 ^ 32 → round c < 2 ^ 32
  unfolding round
  round-lt c hp hc = ground (arith, bit_xor-lt 32 poly (c / 2) hp (omega arith))

  pub rounds-lt : (j c : ℕ) → poly < 2 ^ 32 → c < 2 ^ 32 → rounds j c < 2 ^ 32
  unfolding rounds
  rounds-lt zero c hp hc = hc
  rounds-lt (suc j) c hp hc = rounds-lt j (round c) hp (round-lt c hp hc)
