-- ===== src/Compress/Huffman/Complete.antt =====
-- The bits of a canonical code word decode to its symbol.
use native.Mathlib.Nat.{pow-suc}
use micro_container.Prelude.{
  get_or, ℕ, zero, suc, ◌+◌, ◌*◌, ◌^◌, ◌≤◌, ◌<◌, ◌≡◌, refl, ap, ◌∙◌, Option, none, some, List,
  arith, lt→ltb, ge→ltb, ◌-◌, take,
}
use micro_container.Bits.{bit_or-bit, bit_and-mask}
use micro_container.Compress.BitReader.{Br, br_need, br_bits}
use micro_container.Compress.Huffman.{Huff, decode_step, decode_loop, huff_build, huff_decode}
use micro_container.Compress.Huffman.Counts.{amount, IsLength, of_length}
use micro_container.Compress.Huffman.Built.{IsBuilt, huff_build-IsBuilt}

unfoldable pub read_more : Option ℕ × Br → ℕ → (Br → ℕ → Option ℕ × Br) → Option ℕ × Br
read_more (none, br) acc next = (none, br)
read_more (some bit, br) acc next = next br (acc * 2 + bit)

-- The next `n` bits of the stream as a code, the first bit highest, behind the bits `acc`.
unfoldable pub read_code : ℕ → Br → ℕ → Option ℕ × Br
unfolding read_more
read_code zero br acc = (some acc, br)
read_code (suc n) br acc = read_more (br_bits br 1) acc (λ br' c. read_code n br' c)

-- The canonical code of the `k`-th symbol of length `b` is `code_base b ls + k`.
unfoldable pub code_base : ℕ → List ℕ → ℕ
code_base zero ls = 0
code_base (suc zero) ls = 0
code_base (suc (suc b)) ls = (code_base (suc b) ls + amount (suc b) ls) * 2

code_base-first_code :
    (ls : List ℕ) (h : Huff) (b : ℕ)
    → IsBuilt ls h
    → IsLength b
    → get_or h.first_code b 0 ≡ code_base b ls
unfolding code_base
code_base-first_code ls h zero built hb = absurd (omega (arith, hb.0))
code_base-first_code ls h (suc zero) built hb = built.first
code_base-first_code ls h (suc (suc b)) built hb =
    let e : suc (suc b) ≡ suc b + 1 = omega arith in
    let hb' : IsLength (suc b) = (omega arith, omega (arith, hb.1)) in
    ap (λ (t : ℕ). get_or h.first_code t 0) e
    ∙ built.steps (suc b) hb' (omega (arith, hb.1))
    ∙ ap (λ (t : ℕ). (t + amount (suc b) ls) * 2) (code_base-first_code ls h (suc b) built hb')

-- The codes of length `b` start above all codes of a shorter length `b - m`.
code_base_grows :
    (ls : List ℕ) (j m : ℕ)
    → (code_base (suc j) ls + amount (suc j) ls) * 2 ^ suc m ≤ code_base (suc j + suc m) ls
code_base_grows ls j zero =
    let e : suc j + 1 ≡ suc (suc j) = omega arith in rw e (unfold code_base in omega arith)
code_base_grows ls j (suc m) =
    let e : suc j + suc (suc m) ≡ suc (suc (j + suc m)) = omega arith in
    let e' : suc j + suc m ≡ suc (j + suc m) = omega arith in
    let ih = code_base_grows ls j m in
    let step : code_base (suc (suc (j + suc m))) ls
        ≡ (code_base (suc (j + suc m)) ls + amount (suc (j + suc m)) ls) * 2 =
      unfold code_base in refl in
    omega (
      arith,
      ih,
      step,
      ap (λ (t : ℕ). code_base t ls) e,
      ap (λ (t : ℕ). code_base t ls) e',
      ap (λ (t : ℕ). (code_base (suc j) ls + amount (suc j) ls) * t) (pow-suc 2 (suc m)),
    )

-- A single bit is 0 or 1, in any state.
br_bits_one : (br br' : Br) (v : ℕ) → br_bits br 1 ≡ (some v, br') → v < 2
unfolding br_bits
br_bits_one br br' v e = ground (arith, bit_and-mask 1 (br_need br 1).1.buf)

read_more-cases :
    (r : Option ℕ × Br) (acc c : ℕ) (br' : Br) (next : Br → ℕ → Option ℕ × Br)
    → read_more r acc next ≡ (some c, br')
    → (bit : ℕ) × (br₁ : Br) × (r ≡ (some bit, br₁)) × (next br₁ (acc * 2 + bit) ≡ (some c, br'))
unfolding read_more
read_more-cases (none, br) acc c br' next e = cc
read_more-cases (some bit, br) acc c br' next e = (bit, br, refl, e)

-- A code that begins with the bits `acc` lies among those that do.
read_code-lt :
    (n acc c : ℕ) (br br' : Br) → read_code n br acc ≡ (some c, br') → c < (acc + 1) * 2 ^ n
unfolding read_code
read_code-lt zero acc c br br' e =
    let same : some acc ≡ some c = ap (λ (t : Option ℕ × Br). t.0) e in
    let same' : acc ≡ c = cc in omega arith
read_code-lt (suc n) acc c br br' e =
    let (bit, br₁, now, rest) = read_more-cases (br_bits br 1) acc c br' _ e in
    let small : bit < 2 = br_bits_one br br₁ bit now in
    let below : c < (acc * 2 + bit + 1) * 2 ^ n = read_code-lt n (acc * 2 + bit) c br₁ br' rest in
    let most : (acc * 2 + bit + 1) * 2 ^ n ≤ (acc * 2 + 2) * 2 ^ n = grind arith in
    omega (arith, below, most, ap (λ (t : ℕ). (acc + 1) * t) (pow-suc 2 n))

-- One round of the decoder on a code that its row does not hold, and on one that it does.
decode_step_miss :
    (h : Huff) (b acc bit : ℕ) (br : Br) (next : Br → ℕ → Option ℕ × Br)
    → bit < 2
    → get_or h.first_code b 0 + get_or h.count b 0 ≤ acc * 2 + bit
    → decode_step (some bit, br) h b acc next ≡ next br (acc * 2 + bit)
unfolding decode_step
decode_step_miss h b acc bit br next small above =
    rw (bit_or-bit acc bit small)
      (rw (ge→ltb (acc * 2 + bit) (get_or h.first_code b 0) (omega arith), ge→ltb _ _ above))

decode_step_hit :
    (h : Huff) (b acc bit k : ℕ) (br : Br) (next : Br → ℕ → Option ℕ × Br)
    → bit < 2
    → acc * 2 + bit ≡ get_or h.first_code b 0 + k
    → k < get_or h.count b 0
    → decode_step (some bit, br) h b acc next
      ≡ (some (get_or h.symbols (get_or h.first_idx b 0 + k) 0), br)
unfolding decode_step
decode_step_hit h b acc bit k br next small e hk =
    let fc : ℕ = get_or h.first_code b 0 in
    let back : fc + k - fc ≡ k = omega arith in
    rw (bit_or-bit acc bit small) (
      rw e (
        rw (
          ge→ltb (fc + k) fc (omega arith),
          lt→ltb (fc + k) (fc + get_or h.count b 0) (omega arith),
          back,
        )))

-- From code length `j + 1` on, with the bits `acc` read before.
decode_loop_complete :
    (ls : List ℕ) (h : Huff) (m j left acc k c : ℕ) (br br' : Br)
    → IsBuilt ls h
    → suc j + m ≤ 15
    → j + left ≡ 15
    → k < amount (suc j + m) ls
    → c ≡ code_base (suc j + m) ls + k
    → read_code (suc m) br acc ≡ (some c, br')
    → decode_loop left br h (suc j) acc
      ≡ (some (get_or h.symbols (get_or h.first_idx (suc j + m) 0 + k) 0), br')
unfolding decode_loop read_code
decode_loop_complete ls h m j zero acc k c br br' built top e hk ec er = absurd (omega arith)
decode_loop_complete ls h zero j (suc left) acc k c br br' built top e hk ec er =
    let (bit, br₁, now, rest) = read_more-cases (br_bits br 1) acc c br' _ er in
    let hb : IsLength (suc j) = (omega arith, omega arith) in
    let here : suc j + 0 ≡ suc j = omega arith in
    let stop : br₁ ≡ br' = ap (λ (t : Option ℕ × Br). t.1) rest in
    let last : some (acc * 2 + bit) ≡ some c = ap (λ (t : Option ℕ × Br). t.0) rest in
    let last' : acc * 2 + bit ≡ c = cc in
    rw (now, here)
      (decode_step_hit h (suc j) acc bit k br₁ (λ x t. decode_loop left x h (suc j + 1) t)
          (br_bits_one br br₁ bit now)
          (omega (
            arith,
            last',
            code_base-first_code ls h (suc j) built hb,
            ap (λ (t : ℕ). code_base t ls) here,
          ))
          (omega (arith, built.amounts (suc j) hb, ap (λ (t : ℕ). amount t ls) here))
        ∙ ap (λ (t : Br). (some (get_or h.symbols (get_or h.first_idx (suc j) 0 + k) 0), t)) stop)
decode_loop_complete ls h (suc m) j (suc left) acc k c br br' built top e hk ec er =
    let (bit, br₁, now, rest) = read_more-cases (br_bits br 1) acc c br' _ er in
    let hb : IsLength (suc j) = (omega arith, omega arith) in
    let small : bit < 2 = br_bits_one br br₁ bit now in
    let along : suc j + suc m ≡ suc (suc j) + m = omega arith in
    let next_len : suc j + 1 ≡ suc (suc j) = omega arith in
    let above : code_base (suc j) ls + amount (suc j) ls ≤ acc * 2 + bit =
      above_of (code_base (suc j) ls + amount (suc j) ls) (acc * 2 + bit) (2 ^ suc m) c
        (omega (arith, code_base_grows ls j m))
        (read_code-lt (suc m) (acc * 2 + bit) c br₁ br' rest) in
    rw (now, along, next_len)
      (decode_step_miss h (suc j) acc bit br₁ (λ x t. decode_loop left x h (suc (suc j)) t) small
          (omega
            (arith, code_base-first_code ls h (suc j) built hb, built.amounts (suc j) hb, above))
        ∙ decode_loop_complete ls h m (suc j) left (acc * 2 + bit) k c br₁ br' built (omega arith)
            (omega arith) (omega (arith, ap (λ (t : ℕ). amount t ls) along))
            (omega (arith, ap (λ (t : ℕ). code_base t ls) along)) rest)
  where
    above_of : (a x p c : ℕ) → a * p ≤ c → c < (x + 1) * p → a ≤ x
    above_of a x p c lo hi = grind arith

-- Whatever the stream holds: if its next `b` bits are the canonical code word of the `k`-th symbol
-- of length `b`, then `huff_decode` returns that symbol and stops right behind the code word.
pub huff_decode_complete :
    (lengths : List ℕ) (nsym b k : ℕ) (br br' : Br)
    → nsym ≤ 320
    → IsLength b
    → k < amount b (take nsym lengths)
    → read_code b br 0 ≡ (some (code_base b (take nsym lengths) + k), br')
    → huff_decode br (huff_build lengths nsym)
      ≡ (some (get_or (of_length b 0 (take nsym lengths)) k 0), br')
unfolding huff_decode
huff_decode_complete lengths nsym zero k br br' hn hb hk e = absurd (omega (arith, hb.0))
huff_decode_complete lengths nsym (suc m) k br br' hn hb hk e =
    let ls : List ℕ = take nsym lengths in
    let h : Huff = huff_build lengths nsym in
    let built : IsBuilt ls h = huff_build-IsBuilt lengths nsym hn in
    let len : suc 0 + m ≡ suc m = omega arith in
    let run : decode_loop 15 br h 1 0
        ≡ (some (get_or h.symbols (get_or h.first_idx (suc 0 + m) 0 + k) 0), br') =
      decode_loop_complete ls h m 0 15 0 k (code_base (suc m) ls + k) br br' built
        (omega (arith, hb.1)) (omega arith) (omega (arith, hk, ap (λ (t : ℕ). amount t ls) len))
        (omega (arith, ap (λ (t : ℕ). code_base t ls) len)) e in
    run
    ∙ ap (λ (t : ℕ). (some (get_or h.symbols (get_or h.first_idx t 0 + k) 0), br')) len
    ∙ ap (λ (t : ℕ). (some t, br')) (built.placed (suc m) k hb hk)
