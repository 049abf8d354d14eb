-- ===== src/Compress/Inflate/Block/Ends.antt =====
-- The loops of inflate end: every decoded symbol takes a bit off the stream, whatever the tables are.
use micro_container.Prelude.{
  ltb, Bool-cases, get_or, ℕ, zero, suc, ◌+◌, ◌*◌, ◌≤◌, bit_or, inl, inr, Option, none, some, arith,
  leb, ◌-◌, sym, ◌||◌, get_or-All, ◌<◌, ◌≡◌, refl, ap, ◌∙◌,
}
use micro_container.Mem.Buf.{Buf}
use micro_container.Compress.BitReader.{Br, br_bits}
use micro_container.Compress.BitReader.Stream.{IsValid, count}
use micro_container.Compress.BitReader.Refine.{ReadBits, br_bits-ReadBits, bits_read, bits_missing}
use micro_container.Compress.Inflate.Symbols.{
  len_extra, dist_extra, add_extra, with_extra, get_len, dist_of, get_dist, copy_with, dist_with,
  do_sym,
}
use micro_container.Compress.Inflate.Block.{after_sym, run_sym, run_loop, bits_left}
use micro_container.Compress.Huffman.{Huff, decode_step, decode_loop, huff_decode}

-- From `a` to `b` the reader stays valid and takes at least `n` bits.
pub record Takes (n : ℕ) (a b : Br) : Type 0 where
  pub valid : IsValid b
  pub fewer : count b + n ≤ count a

pub Takes-trans : {m n : ℕ} {a b c : Br} → Takes m a b → Takes n b c → Takes (m + n) a c
Takes-trans p q = record { valid = q.valid; fewer = omega (arith, p.fewer, q.fewer) }

pub Takes-weaken : {m n : ℕ} {a b : Br} → n ≤ m → Takes m a b → Takes n a b
Takes-weaken h p = record { valid = p.valid; fewer = omega (arith, p.fewer) }

pub Takes-refl : {a : Br} → IsValid a → Takes 0 a a
Takes-refl v = record { valid = v; fewer = omega arith }

-- A reading step takes `n` bits where it succeeds, and keeps the reader valid where it fails.
abbrev pub TakesIf : ℕ → Br → Option ℕ × Br → Type 0
TakesIf n a (none, b) = Takes 0 a b
TakesIf n a (some _, b) = Takes n a b

pub TakesIf-any : (n : ℕ) (a : Br) (r : Option ℕ × Br) → TakesIf n a r → Takes 0 a r.1
TakesIf-any n a (none, b) t = t
TakesIf-any n a (some v, b) t = Takes-weaken (omega arith) t

pub br_bits-TakesIf : (br : Br) (n : ℕ) → IsValid br → n ≤ 31 → TakesIf n br (br_bits br n)
br_bits-TakesIf br n v h = classify (br_bits br n) (br_bits-ReadBits br n v h)
  where
    classify : (r : Option ℕ × Br) → ReadBits br n r → TakesIf n br r
    classify _ (bits_read b x e d) = record {
      valid = d.valid;
      fewer = omega (arith, d.enough, d.next_count);
    }
    classify _ (bits_missing b h' s) = record {
      valid = s.valid;
      fewer = omega (arith, s.same_count);
    }

decode_step-TakesIf :
    (a : Br) (r : Option ℕ × Br) (h : Huff) (b code : ℕ) (next : Br → ℕ → Option ℕ × Br)
    → TakesIf 1 a r
    → ((br : Br) (c : ℕ) → IsValid br → TakesIf 0 br (next br c))
    → TakesIf 1 a (decode_step r h b code next)
unfolding decode_step
decode_step-TakesIf a (none, br) h b code next t ih = t
decode_step-TakesIf a (some bit, br) h b code next t ih =
    let c : ℕ = bit_or (code * 2) bit in
    let later : TakesIf 1 a (next br c) = join (next br c) (ih br c t.valid) in
    elim (Bool-cases (ltb c (get_or h.first_code b 0))) [
      | inl below ↦ rw below later
      | inr reached ↦ elim (Bool-cases (ltb c (get_or h.first_code b 0 + get_or h.count b 0))) [
        | inl found ↦ rw (reached, found) t
        | inr above ↦ rw (reached, above) later
      ]
    ]
  where
    join : (r : Option ℕ × Br) → TakesIf 0 br r → TakesIf 1 a r
    join (none, b') q = Takes-weaken (omega arith) (Takes-trans t q)
    join (some v, b') q = Takes-weaken (omega arith) (Takes-trans t q)

pub TakesIf-weaken : (n : ℕ) (a : Br) (r : Option ℕ × Br) → TakesIf n a r → TakesIf 0 a r
TakesIf-weaken n a (none, b) t = t
TakesIf-weaken n a (some v, b) t = Takes-weaken (omega arith) t

decode_loop-TakesIf :
    (left : ℕ) (br : Br) (h : Huff) (b code : ℕ)
    → IsValid br
    → TakesIf 0 br (decode_loop left br h b code)
unfolding decode_loop
decode_loop-TakesIf zero br h b code v = Takes-refl v
decode_loop-TakesIf (suc left) br h b code v =
    TakesIf-weaken 1 br (decode_loop (suc left) br h b code) (
      decode_step-TakesIf br (br_bits br 1) h b code (λ br' c. decode_loop left br' h (b + 1) c)
        (br_bits-TakesIf br 1 v (omega arith))
        (λ br' c v'. decode_loop-TakesIf left br' h (b + 1) c v'))

-- For any tables, also ones that no code lengths give.
pub huff_decode-TakesIf : (br : Br) (h : Huff) → IsValid br → TakesIf 1 br (huff_decode br h)
unfolding huff_decode decode_loop
huff_decode-TakesIf br h v =
    decode_step-TakesIf br (br_bits br 1) h 1 0 (λ br' c. decode_loop 14 br' h 2 c)
      (br_bits-TakesIf br 1 v (omega arith)) (λ br' c v'. decode_loop-TakesIf 14 br' h 2 c v')

-- What follows a reading step, where the next step keeps the reader valid too.
add_extra-Takes :
    (a : Br) (r : Option ℕ × Br) (base : ℕ) → Takes 0 a r.1 → Takes 0 a (add_extra r base).1
unfolding add_extra
add_extra-Takes a (none, b) base t = t
add_extra-Takes a (some e, b) base t = t

with_extra-Takes :
    (br : Br) (base extra : ℕ) → extra ≤ 31 → IsValid br → Takes 0 br (with_extra br base extra).1
unfolding with_extra
with_extra-Takes br base extra h v = elim (Bool-cases (leb extra 0)) [
  | inl plain ↦ rw plain (Takes-refl v)
  | inr more ↦ rw more (
      add_extra-Takes br (br_bits br extra) base
        (TakesIf-any extra br (br_bits br extra) (br_bits-TakesIf br extra v h)))
]

len_extra-le : (slot : ℕ) → get_or len_extra slot 0 ≤ 31
len_extra-le slot = get_or-All (λ n. n ≤ 31) len_extra slot 0 (omega arith) (omega arith)

get_len-Takes : (br : Br) (sym : ℕ) → IsValid br → Takes 0 br (get_len br sym).1
unfolding get_len
get_len-Takes br sym v = elim (Bool-cases (ltb sym 257 || leb 29 (sym - 257))) [
  | inl refused ↦ rw refused (Takes-refl v)
  | inr coded ↦ rw coded (with_extra-Takes br _ _ (len_extra-le (sym - 257)) v)
]

dist_extra-le : (slot : ℕ) → get_or dist_extra slot 0 ≤ 31
dist_extra-le slot = get_or-All (λ n. n ≤ 31) dist_extra slot 0 (omega arith) (omega arith)

dist_of-Takes : (a : Br) (r : Option ℕ × Br) → Takes 0 a r.1 → Takes 0 a (dist_of r).1
unfolding dist_of
dist_of-Takes a (none, br) t = t
dist_of-Takes a (some sym, br) t = elim (Bool-cases (leb 30 sym)) [
  | inl reserved ↦ rw reserved t
  | inr coded ↦ rw coded (Takes-trans t (with_extra-Takes br _ _ (dist_extra-le sym) t.valid))
]

get_dist-Takes : (br : Br) (hd : Huff) → IsValid br → Takes 0 br (get_dist br hd).1
unfolding get_dist
get_dist-Takes br hd v =
    dist_of-Takes br (huff_decode br hd)
      (TakesIf-any 1 br (huff_decode br hd) (huff_decode-TakesIf br hd v))

copy_with-Takes :
    (a : Br) (r : Option ℕ × Br) (out : Buf) (n : ℕ)
    → Takes 0 a r.1
    → Takes 0 a (copy_with r out n).1
unfolding copy_with
copy_with-Takes a (none, br) out n t = t
copy_with-Takes a (some d, br) out n t = t

dist_with-Takes :
    (a : Br) (r : Option ℕ × Br) (out : Buf) (hd : Huff)
    → Takes 0 a r.1
    → Takes 0 a (dist_with r out hd).1
unfolding dist_with
dist_with-Takes a (none, br) out hd t = t
dist_with-Takes a (some n, br) out hd t =
    copy_with-Takes a (get_dist br hd) out n (Takes-trans t (get_dist-Takes br hd t.valid))

pub do_sym-Takes :
    (br : Br) (out : Buf) (hd : Huff) (sym : ℕ) → IsValid br → Takes 0 br (do_sym br out hd sym).1
unfolding do_sym
do_sym-Takes br out hd sym v = elim (Bool-cases (ltb sym 256)) [
  | inl literal ↦ rw literal (Takes-refl v)
  | inr other ↦ elim (Bool-cases (ltb 256 sym)) [
    | inl copy ↦
        rw (other, copy) (dist_with-Takes br (get_len br sym) out hd (get_len-Takes br sym v))
    | inr end_of_block ↦ rw (other, end_of_block) (Takes-refl v)
  ]
]

-- Two continuations that agree after every step that takes a bit.
abbrev Agree : Br → (Br → Buf → Option ℕ × Br × Buf) → (Br → Buf → Option ℕ × Br × Buf) → Type 0
Agree a f g = (br : Br) (out : Buf) → Takes 1 a br → f br out ≡ g br out

after_sym-Agree :
    (a : Br) (r : Option ℕ × Br × Buf) (last : Option ℕ) (f g : Br → Buf → Option ℕ × Br × Buf)
    → Agree a f g
    → Takes 1 a r.1
    → after_sym r last f ≡ after_sym r last g
unfolding after_sym
after_sym-Agree a (none, br, out) last f g ag t = refl
after_sym-Agree a (some zero, br, out) last f g ag t = ag br out t
after_sym-Agree a (some (suc n), br, out) last f g ag t = refl

run_sym-Agree :
    (a : Br) (r : Option ℕ × Br) (out : Buf) (hd : Huff) (last : Option ℕ)
    (f g : Br → Buf → Option ℕ × Br × Buf)
    → Agree a f g
    → TakesIf 1 a r
    → run_sym r out hd last f ≡ run_sym r out hd last g
unfolding run_sym
run_sym-Agree a (none, br) out hd last f g ag t = refl
run_sym-Agree a (some sym, br) out hd last f g ag t =
    after_sym-Agree a (do_sym br out hd sym) last f g ag
      (Takes-trans t (do_sym-Takes br out hd sym t.valid))

run_loop-fuel :
    (m n : ℕ) (br : Br) (out : Buf) (hl hd : Huff) (last : Option ℕ)
    → IsValid br
    → count br < m
    → count br < n
    → run_loop m br out hl hd last ≡ run_loop n br out hl hd last
unfolding run_loop
run_loop-fuel zero n br out hl hd last v hm hn = absurd (omega arith)
run_loop-fuel (suc m) zero br out hl hd last v hm hn = absurd (omega arith)
run_loop-fuel (suc m) (suc n) br out hl hd last v hm hn =
    run_sym-Agree br (huff_decode br hl) out hd last (λ b o. run_loop m b o hl hd last)
      (λ b o. run_loop n b o hl hd last)
      (λ b o t.
        run_loop-fuel m n b o hl hd last t.valid (omega (arith, t.fewer)) (omega (arith, t.fewer)))
      (huff_decode-TakesIf br hl v)

-- `run_loop` of inflate.c ends on every input: on `bits_left br + 1` rounds it satisfies the
-- equation of the C loop, which has no bound, and every round that goes on has decoded a symbol
-- and left fewer unread bits.
pub run_loop_ends :
    (br : Br) (out : Buf) (hl hd : Huff) (last : Option ℕ)
    → IsValid br
    → (run_loop (bits_left br + 1) br out hl hd last
        ≡ run_sym
            (huff_decode br hl)
            out
            hd
            last
            (λ br' out'. run_loop (bits_left br' + 1) br' out' hl hd last))
      × ((sym : ℕ)
          → (huff_decode br hl).0 ≡ some sym
          → bits_left (do_sym (huff_decode br hl).1 out hd sym).1 < bits_left br)
unfolding count
run_loop_ends br out hl hd last v = (
  ap (λ (n : ℕ). run_loop n br out hl hd last) {y = suc (bits_left br)} (omega arith)
      ∙ unfold run_loop in
        run_sym-Agree br (huff_decode br hl) out hd last
          (λ b o. run_loop (bits_left br) b o hl hd last)
          (λ b o. run_loop (bits_left b + 1) b o hl hd last)
          (λ b o t.
            run_loop-fuel (bits_left br) (bits_left b + 1) b o hl hd last t.valid
              (omega (arith, t.fewer)) (omega arith))
          (huff_decode-TakesIf br hl v),
  λ sym e. going_on sym (huff_decode br hl) e (huff_decode-TakesIf br hl v),
)
  where
    going_on :
        (sym : ℕ) (r : Option ℕ × Br)
        → r.0 ≡ some sym
        → TakesIf 1 br r
        → bits_left (do_sym r.1 out hd sym).1 < bits_left br
    going_on sym (none, b) e t = absurd (none_some e)
      where
        none_some : ¬ (none ≡ some sym)
        none_some q = cc
    going_on sym (some s, b) e t =
        omega (arith, (Takes-trans t (do_sym-Takes b out hd sym t.valid)).fewer)
