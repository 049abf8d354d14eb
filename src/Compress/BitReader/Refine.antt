-- ===== src/Compress/BitReader/Refine.antt =====
-- Each reading function against the stream of bits: what it returns, and the stream it leaves.
use mathlib.Core.Path.{subst}
use native.Mathlib.Nat.{
  div-one, one-le-pow, add-mul-mod_self_left, add-mul-div_left, div-lt_iff_lt-mul, mod-lt,
  pow-le-pow_right,
}
use micro_container.Prelude.{
  ltb, leb, if◌then◌else◌, Bool-cases, length, All, IsByte, ℕ, ◌+◌, ◌-◌, ◌*◌, ◌/◌, ◌%◌, ◌^◌, ◌≤◌,
  ◌<◌, bit_and, ◌≡◌, refl, sym, ap, ◌∙◌, inl, inr, Bool, true, false, Option, none, some, List,
  arith, ltb→ge, u32, lt→ltb,
}
use micro_container.Bits.{bit_and-mask, pow_add}
use micro_container.Compress.BitReader.{
  Br, br_need, br_drop, drop_read, int_of, br_bits, br_align, br_init,
}
use micro_container.Compress.BitReader.Stream.{
  le_bytes, value, count, IsValid, SameStream, Needed, need_loop-Needed,
}

-- `b` is a state of the reader in which the stream is the one of `a` without its lowest `n` bits.
pub record Advanced (n : ℕ) (a b : Br) : Type 0 where
  pub valid : IsValid b
  pub enough : n ≤ count a
  pub next_value : value b ≡ value a / 2 ^ n
  pub next_count : count b ≡ count a - n

-- The low `n` bits of a number that continues above bit `k`.
low_bits :
    (n k low high : ℕ)
    → n ≤ k
    → ((low + 2 ^ k * high) % 2 ^ n ≡ low % 2 ^ n)
      × ((low + 2 ^ k * high) / 2 ^ n ≡ low / 2 ^ n + 2 ^ (k - n) * high)
low_bits n k low high h =
    let p : ℕ = 2 ^ n in
    let q : ℕ = 2 ^ (k - n) in
    let whole : 2 ^ k ≡ p * q =
      let e : k ≡ n + (k - n) = omega arith in ap (λ (t : ℕ). 2 ^ t) e ∙ pow_add n (k - n) in
    let split : low + 2 ^ k * high ≡ low + p * (q * high) =
      omega (arith, ap (λ (t : ℕ). t * high) whole) in
    (
      ap (λ (t : ℕ). t % p) split ∙ add-mul-mod_self_left low p (q * high),
      ap (λ (t : ℕ). t / p) split ∙ add-mul-div_left low (q * high) (one-le-pow n 2 (omega arith)),
    )

quotient-clean : (n k x : ℕ) → n ≤ k → x < 2 ^ k → x / 2 ^ n < 2 ^ (k - n)
quotient-clean n k x h small =
    let e : k ≡ k - n + n = omega arith in
    (div-lt_iff_lt-mul (one-le-pow n 2 (omega arith))).1
      (omega (arith, small, ap (λ (t : ℕ). 2 ^ t) e, pow_add (k - n) n))

br_drop-Advanced : (br : Br) (n : ℕ) → IsValid br → n ≤ br.bits → Advanced n br (br_drop br n)
unfolding br_drop value count
br_drop-Advanced br n v h = record {
  valid = record {
    clean = quotient-clean n br.bits br.buf h v.clean;
    narrow = omega arith;
    inside = v.inside;
    fits = v.fits;
    octets = v.octets;
  };
  enough = omega arith;
  next_value = sym (low_bits n br.bits br.buf _ h).1;
  next_count = omega arith;
}

Advanced-after : {a b c : Br} (n : ℕ) → SameStream a b → Advanced n b c → Advanced n a c
Advanced-after n s d = record {
  valid = d.valid;
  enough = omega (arith, d.enough, s.same_count);
  next_value = d.next_value ∙ ap (λ (t : ℕ). t / 2 ^ n) s.same_value;
  next_count = d.next_count ∙ ap (λ (t : ℕ). t - n) s.same_count;
}

-- What reading `n` bits may do: give the low bits of the stream and take them off it, or, when the
-- stream is shorter, fail and leave the stream as it was.
pub data ReadBits (br : Br) (n : ℕ) : Option ℕ × Br → Type 0 where
  bits_read :
      (br' : Br) (v : ℕ) → v ≡ value br % 2 ^ n → Advanced n br br' → ReadBits br n (some v, br')
  bits_missing : (br' : Br) → count br < n → SameStream br br' → ReadBits br n (none, br')

-- At most 31 bits are not negative as an int.
int_of-mask : (n x : ℕ) → n ≤ 31 → int_of (bit_and x (2 ^ n - 1)) ≡ some (bit_and x (2 ^ n - 1))
int_of-mask n x h =
    let low = mod-lt x {m = 2 ^ n} (one-le-pow n 2 (omega arith)) in
    let small = pow-le-pow_right {n = 2} (omega arith) h in
    let less : bit_and x (2 ^ n - 1) < 2 ^ 31 = omega (arith, bit_and-mask n x, low, small) in
    let same : u32 (bit_and x (2 ^ n - 1)) ≡ bit_and x (2 ^ n - 1) = omega (arith, less) in
    rw (same, lt→ltb _ (2 ^ 31) less) refl

peek-ReadBits :
    (br br' : Br) (n : ℕ) (enough : Bool)
    → n ≤ 31
    → Needed br n (enough, br')
    → ReadBits br n
        (drop_read (if enough then int_of (bit_and br'.buf (2 ^ n - 1)) else none) br' n)
unfolding drop_read
peek-ReadBits br br' n true narrow r = rw (int_of-mask n br'.buf narrow) (
    bits_read (br_drop br' n) (bit_and br'.buf (2 ^ n - 1))
      (bit_and-mask n br'.buf
        ∙ sym
            (low_bits n br'.bits br'.buf (le_bytes br'.bytes br'.pos (br'.len - br'.pos))
              (r.buffered refl)).0
        ∙ ap (λ (t : ℕ). t % 2 ^ n) (unfold value in r.same.same_value))
      (Advanced-after n r.same (br_drop-Advanced br' n r.same.valid (r.buffered refl))))
peek-ReadBits br br' n false narrow r =
    bits_missing br' (let a : leb n (count br) ≡ false = sym r.answer in ground arith) r.same

-- On a valid reader `br_bits` refines the stream of bits, at every width up to 31 and on both outcomes.
-- From 32 bits on its int can be negative, which it takes as a failure.
pub br_bits-ReadBits : (br : Br) (n : ℕ) → IsValid br → n ≤ 31 → ReadBits br n (br_bits br n)
unfolding br_bits
br_bits-ReadBits br n v h =
    peek-ReadBits br (br_need br n).1 n (br_need br n).0 h
      (unfold br_need in need_loop-Needed n br n v (omega (arith, h)) (omega arith))

-- `br_align` drops the bits up to the next byte of the stream, fewer than eight, and leaves whole bytes.
pub br_align-Advanced :
    (br : Br)
    → IsValid br
    → Advanced (count br % 8) br (br_align br) × (count (br_align br) % 8 ≡ 0)
unfolding br_align
br_align-Advanced br v =
    let skip : bit_and br.bits 7 ≡ count br % 8 =
      unfold count in omega (arith, bit_and-mask 3 br.bits) in
    elim (Bool-cases (ltb 0 (bit_and br.bits 7))) [
      | inl more ↦
          let d : Advanced (bit_and br.bits 7) br (br_drop br (bit_and br.bits 7)) =
            br_drop-Advanced br (bit_and br.bits 7) v (omega (arith, bit_and-mask 3 br.bits)) in
          rw more (
            subst (λ (n : ℕ). Advanced n br (br_drop br (bit_and br.bits 7))) skip d,
            omega (arith, skip, d.next_count),
          )
      | inr aligned ↦
          let none_over : count br % 8 ≡ 0 =
            omega (arith, skip, ltb→ge 0 (bit_and br.bits 7) aligned) in
          rw aligned (
            record {
              valid = v;
              enough = omega arith;
              next_value = rw none_over (sym (div-one (value br)));
              next_count = omega (arith, none_over);
            },
            none_over,
          )
    ]

-- A new reader's stream is the bytes, all of them.
pub br_init-value :
    (bytes : List ℕ) (len : ℕ)
    → len ≤ length bytes
    → All IsByte bytes
    → IsValid (br_init bytes len)
      × (value (br_init bytes len) ≡ le_bytes bytes 0 len)
      × (count (br_init bytes len) ≡ 8 * len)
unfolding br_init value count
br_init-value bytes len fits octets = (
  record {
    clean = omega arith;
    narrow = omega arith;
    inside = omega arith;
    fits = fits;
    octets = octets;
  },
  let e : len - 0 ≡ len = omega arith in omega (arith, ap (le_bytes bytes 0) e),
  omega arith,
)
