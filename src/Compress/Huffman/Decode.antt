-- ===== src/Compress/Huffman/Decode.antt =====
-- `huff_decode` against the code lengths: what a decoded symbol is, and which bits decode to it.
use mathlib.Core.Path.{subst}
use micro_container.Prelude.{
  length, get_or, ℕ, ◌+◌, ◌-◌, ◌≤◌, ◌<◌, ◌≡◌, Option, none, some, List, [], ◌∷◌, arith, ◌==◌,
  if◌then◌else◌, ==→eq, zero, suc, refl, sym, ap, ◌∙◌, Bool, true, false, ltb, ltb→lt, ltb→ge,
  Bool-cases, take, ◌*◌, bit_or, inl, inr,
}
use micro_container.Compress.BitReader.{Br, br_bits}
use micro_container.Compress.BitReader.Stream.{IsValid, count}
use micro_container.Compress.BitReader.Stream
use micro_container.Compress.BitReader.Refine.{ReadBits, bits_read, bits_missing, br_bits-ReadBits}
use micro_container.Compress.Huffman.Built.{IsBuilt, huff_build-IsBuilt}
use micro_container.Compress.Huffman.Rows.{continued, huff_decode-continued}
use micro_container.Compress.Huffman.{
  decode_step, Huff, decode_loop, huff_decode, huff_build, decode_step,
}
use micro_container.Compress.Huffman.Counts.{of_length, IsLength, amount}

-- A listed symbol is one of the symbols, and has the length that it is listed under.
abbrev Listed : ℕ → ℕ → List ℕ → ℕ → Type 0
Listed b i ls s = (i ≤ s) × (s < i + length ls) × (get_or ls (s - i) 0 ≡ b)

Listed-cons : (b i l s : ℕ) (ls : List ℕ) → Listed b (i + 1) ls s → Listed b i (l ∷ ls) s
Listed-cons b i l s ls m =
    let e : s - i ≡ suc (s - (i + 1)) = omega arith in
    (omega arith, omega arith, ap (λ (t : ℕ). get_or (l ∷ ls) t 0) e ∙ m.2)

Listed-here : (b i l : ℕ) (ls : List ℕ) → l ≡ b → Listed b i (l ∷ ls) i
Listed-here b i l ls e =
    let z : i - i ≡ 0 = omega arith in
    (omega arith, omega arith, ap (λ (t : ℕ). get_or (l ∷ ls) t 0) z ∙ e)

Listed-step :
    (b i l k : ℕ) (ls xs : List ℕ)
    → ((m : ℕ) → m < length xs → Listed b (i + 1) ls (get_or xs m 0))
    → (test : Bool) → (l == b) ≡ test
    → k < length (if test then i ∷ xs else xs)
    → Listed b i (l ∷ ls) (get_or (if test then i ∷ xs else xs) k 0)
Listed-step b i l zero ls xs ih true e h = Listed-here b i l ls (==→eq l b e)
Listed-step b i l (suc m) ls xs ih true e h =
    Listed-cons b i l (get_or xs m 0) ls (ih m (omega arith))
Listed-step b i l k ls xs ih false e h = Listed-cons b i l (get_or xs k 0) ls (ih k h)

of_length-Listed :
    (b i k : ℕ) (ls : List ℕ)
    → k < length (of_length b i ls)
    → Listed b i ls (get_or (of_length b i ls) k 0)
of_length-Listed b i k [] h = absurd (omega arith)
of_length-Listed b i k (l ∷ ls) h =
    Listed-step b i l k ls (of_length b (i + 1) ls) (λ m hm. of_length-Listed b (i + 1) m ls hm)
      (l == b) refl h

-- What decoding from code length `b` on may do: give a symbol, whose length tells how many bits are
-- gone, or fail.
pub data Outcome (ls : List ℕ) (b : ℕ) (br : Br) : Option ℕ × Br → Type 0 where
  symbol :
      (s : ℕ) (br' : Br)
      → s < length ls
      → IsLength (get_or ls s 0)
      → Stream.count br + b ≡ Stream.count br' + get_or ls s 0 + 1
      → IsValid br'
      → Outcome ls b br (some s, br')
  failure :
      (br' : Br) → Stream.count br' ≤ Stream.count br → IsValid br' → Outcome ls b br (none, br')

-- One bit of the stream, as `decode_loop` meets it.
data OneBit (br : Br) : Option ℕ × Br → Type 0 where
  a_bit :
      (br' : Br) (v : ℕ)
      → v < 2
      → Stream.count br ≡ Stream.count br' + 1
      → IsValid br'
      → OneBit br (some v, br')
  no_bit : (br' : Br) → Stream.count br' ≡ Stream.count br → IsValid br' → OneBit br (none, br')

one_bit : (br : Br) → IsValid br → OneBit br (br_bits br 1)
one_bit br v = classify (br_bits br 1) (br_bits-ReadBits br 1 v (omega arith))
  where
    classify : (r : Option ℕ × Br) → ReadBits br 1 r → OneBit br r
    classify _ (bits_read br' x e d) =
        a_bit br' x (omega arith) (omega (arith, d.enough, d.next_count)) d.valid
    classify _ (bits_missing br' h s) = no_bit br' s.same_count s.valid

Listed-symbol : (b s : ℕ) (ls : List ℕ) → Listed b 0 ls s → (s < length ls) × (get_or ls s 0 ≡ b)
Listed-symbol b s ls m =
    let e : s - 0 ≡ s = omega arith in
    (omega (arith, m.1), sym (ap (λ (t : ℕ). get_or ls t 0) e) ∙ m.2)

-- The symbol that a row of the tables gives for the `k`-th code of length `b`.
row_symbol :
    (ls : List ℕ) (h : Huff) (b k : ℕ)
    → IsBuilt ls h
    → IsLength b
    → k < amount b ls
    → let s = get_or h.symbols (get_or h.first_idx b 0 + k) 0 in
      (s < length ls) × (get_or ls s 0 ≡ b)
row_symbol ls h b k built hb hk = Listed-symbol b _ ls (
    subst (Listed b 0 ls) (sym (built.placed b k hb hk))
      (of_length-Listed b 0 k ls (unfold amount in hk)))

Outcome-earlier :
    (ls : List ℕ) (b : ℕ) (br br' : Br) (r : Option ℕ × Br)
    → Stream.count br ≡ Stream.count br' + 1
    → Outcome ls (b + 1) br' r
    → Outcome ls b br r
Outcome-earlier ls b br br' _ e (symbol s last inside coded used v) =
    symbol s last inside coded (omega arith) v
Outcome-earlier ls b br br' _ e (failure last used v) = failure last (omega arith) v

decode_step-Outcome :
    (ls : List ℕ) (h : Huff) (b code : ℕ) (br : Br) (next : Br → ℕ → Option ℕ × Br)
    (r : Option ℕ × Br)
    → IsBuilt ls h
    → IsLength b
    → ((br' : Br) (c : ℕ) → IsValid br' → Outcome ls (b + 1) br' (next br' c))
    → OneBit br r
    → Outcome ls b br (decode_step r h b code next)
unfolding decode_step
decode_step-Outcome ls h b code br next _ built hb ih (a_bit br' bit small e v) =
    let code' : ℕ = bit_or (code * 2) bit in
    let fc : ℕ = get_or h.first_code b 0 in
    let later : Outcome ls b br (next br' code') =
      Outcome-earlier ls b br br' (next br' code') e (ih br' code' v) in
    elim (Bool-cases (ltb code' fc)) [
      | inl below ↦ rw below later
      | inr reached ↦ elim (Bool-cases (ltb code' (fc + get_or h.count b 0))) [
        | inl found ↦
            let k : ℕ = code' - fc in
            let row = row_symbol ls h b k built hb (
              omega (
                arith,
                ltb→lt code' (fc + get_or h.count b 0) found,
                ltb→ge code' fc reached,
                built.amounts b hb,
              )) in
            rw (reached, found)
              (symbol _ br' row.0 (subst IsLength (sym row.1) hb) (omega (arith, row.1, e)) v)
        | inr above ↦ rw (reached, above) later
      ]
    ]
decode_step-Outcome ls h b code br next _ built hb ih (no_bit br' e v) = failure br' (omega arith) v

decode_loop-Outcome :
    (ls : List ℕ) (h : Huff) (left b code : ℕ) (br : Br)
    → IsBuilt ls h
    → b + left ≡ 16
    → 1 ≤ b
    → IsValid br
    → Outcome ls b br (decode_loop left br h b code)
unfolding decode_loop
decode_loop-Outcome ls h zero b code br built e pos v = failure br (omega arith) v
decode_loop-Outcome ls h (suc left) b code br built e pos v =
    decode_step-Outcome ls h b code br (λ br' c. decode_loop left br' h (b + 1) c) (br_bits br 1)
      built (pos, omega arith)
      (λ br' c v'. decode_loop-Outcome ls h left (b + 1) c br' built (omega arith) (omega arith) v')
      (one_bit br v)

-- With a valid reader, and tables built from at most 320 code lengths, a symbol that `huff_decode` gives
-- is one of those that have a code, and exactly as many bits are gone from the stream as its code is
-- long; when it fails the reader is still in a valid state. What it returns is the same whatever
-- stands in memory behind each of the four arrays of the tables.
pub huff_decode-Outcome :
    (lengths : List ℕ) (nsym : ℕ) (br : Br)
    → nsym ≤ 320
    → IsValid br
    → Outcome (take nsym lengths) 1 br (huff_decode br (huff_build lengths nsym))
      × ((counts codes idxs syms : List ℕ)
          → huff_decode br (continued (huff_build lengths nsym) counts codes idxs syms)
            ≡ huff_decode br (huff_build lengths nsym))
huff_decode-Outcome lengths nsym br h v = (
  unfold huff_decode in
      decode_loop-Outcome (take nsym lengths) (huff_build lengths nsym) 15 1 0 br
        (huff_build-IsBuilt lengths nsym h) (omega arith) (omega arith) v,
  λ counts codes idxs syms. huff_decode-continued lengths nsym br counts codes idxs syms h,
)
