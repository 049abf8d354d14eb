-- ===== src/Compress/BitReader/Stream.antt =====
-- The bit reader refines a plain stream of bits: a number that holds them, lowest first, and their
-- count. Reading takes bits off its low end.
use native.Mathlib.Nat.{pow-le-pow_right, mod-eq_of_lt}
use micro_container.Prelude.{
  ℕ, zero, suc, ◌+◌, ◌-◌, ◌*◌, ◌^◌, ◌≤◌, ◌<◌, ◌≡◌, refl, ap, ◌∙◌, inl, inr, arith, Bool, true, List,
  length, get_or, u64, ltb, leb, All, IsByte, get_or-IsByte, Bool-cases, ltb→lt, ltb→ge,
}
use micro_container.Bits.{bit_or-shift, pow_add}
use micro_container.Compress.BitReader.{Br, pull, need_loop}

-- `k` bytes from `pos` on as one number, the first byte lowest.
abbrev pub le_bytes : List ℕ → ℕ → ℕ → ℕ
le_bytes bytes pos zero = 0
le_bytes bytes pos (suc k) = get_or bytes pos 0 + 256 * le_bytes bytes (pos + 1) k

-- The unread bits, and how many they are.
unfoldable pub value : Br → ℕ
value br = br.buf + 2 ^ br.bits * le_bytes br.bytes br.pos (br.len - br.pos)

unfoldable pub count : Br → ℕ
count br = br.bits + 8 * (br.len - br.pos)

-- `buf` holds no bit above `bits`, which never fills the 64-bit word, and reads stay in the data.
pub record IsValid (br : Br) : Type 0 where
  pub clean : br.buf < 2 ^ br.bits
  pub narrow : br.bits ≤ 56
  pub inside : br.pos ≤ br.len
  pub fits : br.len ≤ length br.bytes
  pub octets : All IsByte br.bytes

-- `b` is a state of the reader in which the stream is the one of `a`.
pub record SameStream (a b : Br) : Type 0 where
  pub valid : IsValid b
  pub same_value : value b ≡ value a
  pub same_count : count b ≡ count a

pow_byte : (k : ℕ) → 2 ^ (k + 8) ≡ 2 ^ k * 256
pow_byte k = pow_add k 8

-- A byte shifted behind at most 48 bits still fits the word.
byte_fits : (b k : ℕ) → b < 256 → k ≤ 48 → b * 2 ^ k < 2 ^ 64
byte_fits b k hb hk = let bound : 2 ^ k ≤ 2 ^ 48 = pow-le-pow_right (omega arith) hk in grind arith

pull_buf :
    (br : Br)
    → IsValid br
    → br.bits ≤ 48
    → (pull br).buf ≡ br.buf + get_or br.bytes br.pos 0 * 2 ^ br.bits
unfolding pull
pull_buf br v h =
    let b : ℕ = get_or br.bytes br.pos 0 in
    let whole : u64 (b * 2 ^ br.bits) ≡ b * 2 ^ br.bits =
      mod-eq_of_lt (byte_fits b br.bits (get_or-IsByte br.bytes br.pos v.octets) h) in
    rw whole (bit_or-shift br.bits br.buf b v.clean)

le_bytes-step :
    (bytes : List ℕ) (pos len : ℕ)
    → pos < len
    → le_bytes bytes pos (len - pos)
      ≡ get_or bytes pos 0 + 256 * le_bytes bytes (pos + 1) (len - (pos + 1))
le_bytes-step bytes pos len h = ap (le_bytes bytes pos) {y = suc (len - (pos + 1))} (omega arith)

pull-clean : (buf b p : ℕ) → buf < p → b < 256 → buf + b * p < p * 256
pull-clean buf b p h k = let most : b * p ≤ 255 * p = grind arith in omega arith

pull-SameStream : (br : Br) → IsValid br → br.bits ≤ 48 → br.pos < br.len → SameStream br (pull br)
unfolding pull value count
pull-SameStream br v h room =
    let b : ℕ = get_or br.bytes br.pos 0 in
    let p : ℕ = 2 ^ br.bits in
    let rest : ℕ = le_bytes br.bytes (br.pos + 1) (br.len - (br.pos + 1)) in
    record {
      valid = record {
        clean =
            rw (pull_buf br v h, pow_byte br.bits)
              (pull-clean br.buf b p v.clean (get_or-IsByte br.bytes br.pos v.octets));
        narrow = omega arith;
        inside = omega arith;
        fits = v.fits;
        octets = v.octets;
      };
      same_value = omega (
        arith,
        pull_buf br v h,
        ap (λ (t : ℕ). t * rest) (pow_byte br.bits),
        ap (λ (t : ℕ). p * t) (le_bytes-step br.bytes br.pos br.len room),
      );
      same_count = omega arith;
    }

pub SameStream-trans : {a b c : Br} → SameStream a b → SameStream b c → SameStream a c
SameStream-trans p q = record {
  valid = q.valid;
  same_value = q.same_value ∙ p.same_value;
  same_count = q.same_count ∙ p.same_count;
}

-- The outcome of asking for `n` bits: the stream is unchanged, and the answer tells whether it has
-- that many; if so they are in the buffer.
pub record Needed (br : Br) (n : ℕ) (r : Bool × Br) : Type 0 where
  pub same : SameStream br r.1
  pub answer : r.0 ≡ leb n (count br)
  pub buffered : r.0 ≡ true → n ≤ r.1.bits

pub need_loop-Needed :
    (fuel : ℕ) (br : Br) (n : ℕ)
    → IsValid br
    → n ≤ 48
    → n ≤ br.bits + fuel
    → Needed br n (need_loop fuel br n)
unfolding need_loop
need_loop-Needed zero br n v h enough = record {
  same = record { valid = v; same_value = refl; same_count = refl };
  answer = unfold count in ground arith;
  buffered = λ _. omega arith;
}
need_loop-Needed (suc fuel) br n v h enough = elim (Bool-cases (ltb br.bits n)) [
  | inl more ↦ elim (Bool-cases (leb br.len br.pos)) [
    | inl dry ↦
        simp (more, dry)
          (record {
            same = record { valid = v; same_value = refl; same_count = refl };
            answer = unfold count in ground arith;
            buffered = λ e. absurd (cc e);
          })
    | inr wet ↦
        let step : SameStream br (pull br) =
          pull-SameStream br v (omega (arith, ltb→lt br.bits n more)) (ground arith) in
        let r : Needed (pull br) n (need_loop fuel (pull br) n) =
          need_loop-Needed fuel (pull br) n step.valid h (unfold pull in ground arith) in
        simp (more, wet)
          (record {
            same = SameStream-trans step r.same;
            answer = r.answer ∙ ap (leb n) step.same_count;
            buffered = r.buffered;
          })
  ]
  | inr enough' ↦ simp enough' (record {
    same = record { valid = v; same_value = refl; same_count = refl };
    answer = unfold count in ground arith;
    buffered = λ _. ltb→ge br.bits n enough';
  })
]
