-- ===== src/Compress/Inflate/Block/Progress.antt =====
-- Every block takes at least two bits off the stream, whatever its type.
use micro_container.Prelude.{
  ltb, leb, ◌==◌, Bool-cases, Option-cases, get_or, set, replicate, ℕ, zero, suc, ◌+◌, ◌≤◌, sym,
  inl, inr, Bool, true, false, Option, none, some, List, arith,
}
use micro_container.Mem.Buf.{Buf, buf_append_c}
use micro_container.Compress.BitReader.{Br, br_bits, br_align}
use micro_container.Compress.BitReader.Stream.{IsValid}
use micro_container.Compress.BitReader.Refine.{br_align-Advanced}
use micro_container.Compress.Huffman.{Huff, huff_decode}
use micro_container.Compress.Inflate.Lengths.{
  cl_ord, int_plus, Filling, rep_fill, rep_len, len_symbol, len_loop, decode_len, cl_entry, cl_loop,
  read_code_lengths, read_dynamic,
}
use micro_container.Compress.Inflate.Symbols.{do_sym}
use micro_container.Compress.Inflate.Block.{
  stored_byte, stored_loop, stored_body, decode_stored, after_sym, run_sym, run_loop, bits_left,
  compressed, build_fixed, block_of_type, inflate_block,
}
use micro_container.Compress.Inflate.Block.Ends.{
  Takes, Takes-trans, Takes-weaken, Takes-refl, TakesIf, TakesIf-any, br_bits-TakesIf,
  huff_decode-TakesIf, do_sym-Takes,
}

rep_fill-Takes :
    (a : Br) (r : Option ℕ × Br) (lit : List ℕ) (idx total base val : ℕ)
    → Takes 0 a r.1
    → Takes 0 a (rep_fill r lit idx total base val).br
unfolding rep_fill
rep_fill-Takes a (none, br) lit idx total base val t = t
rep_fill-Takes a (some raw, br) lit idx total base val t = t

bits-Takes : (br : Br) (n : ℕ) → n ≤ 31 → IsValid br → Takes 0 br (br_bits br n).1
bits-Takes br n h v = TakesIf-any n br (br_bits br n) (br_bits-TakesIf br n v h)

rep_len-Takes :
    (br : Br) (lit : List ℕ) (idx total sym : ℕ)
    → IsValid br
    → Takes 0 br (rep_len br lit idx total sym).br
unfolding rep_len
rep_len-Takes br lit idx total sym v = elim (Bool-cases (sym == 16)) [
  | inl copies ↦ elim (Bool-cases (ltb idx 1)) [
    | inl first ↦ rw (copies, first) (bits-Takes br 2 (omega arith) v)
    | inr later ↦
        rw (copies, later) (rep_fill-Takes br _ lit idx total 3 _ (bits-Takes br 2 (omega arith) v))
  ]
  | inr other ↦ elim (Bool-cases (sym == 17)) [
    | inl few ↦
        rw (other, few) (rep_fill-Takes br _ lit idx total 3 0 (bits-Takes br 3 (omega arith) v))
    | inr many ↦
        rw (other, many) (rep_fill-Takes br _ lit idx total 11 0 (bits-Takes br 7 (omega arith) v))
  ]
]

len_symbol-Takes :
    (a : Br) (r : Option ℕ × Br) (lit : List ℕ) (idx total : ℕ)
    → Takes 0 a r.1
    → Takes 0 a (len_symbol r lit idx total).br
unfolding len_symbol
len_symbol-Takes a (none, br) lit idx total t = t
len_symbol-Takes a (some sym, br) lit idx total t = elim (Bool-cases (ltb sym 16)) [
  | inl plain ↦ rw plain t
  | inr rep ↦ rw rep (Takes-trans t (rep_len-Takes br lit idx total sym t.valid))
]

decode-Takes : (br : Br) (h : Huff) → IsValid br → Takes 0 br (huff_decode br h).1
decode-Takes br h v = TakesIf-any 1 br (huff_decode br h) (huff_decode-TakesIf br h v)

len_loop-Takes :
    (fuel : ℕ) (hc : Huff) (br : Br) (lit : List ℕ) (idx total : ℕ)
    → IsValid br
    → Takes 0 br (len_loop fuel hc br lit idx total).1.br
unfolding len_loop
len_loop-Takes zero hc br lit idx total v = Takes-refl v
len_loop-Takes (suc fuel) hc br lit idx total v =
    let s : Filling = len_symbol (huff_decode br hc) lit idx total in
    let t : Takes 0 br s.br =
      len_symbol-Takes br (huff_decode br hc) lit idx total (decode-Takes br hc v) in
    elim (Bool-cases (leb total idx)) [
      | inl full ↦ rw full (Takes-refl v)
      | inr more ↦ elim (Option-cases s.idx) [
        | inl failed ↦ rw (more, failed) t
        | inr (idx', e) ↦
            rw (more, e) (Takes-trans t (len_loop-Takes fuel hc s.br s.lit idx' total t.valid))
      ]
    ]

cl_entry-Takes :
    (a : Br) (r : Option ℕ × Br) (i : ℕ) (cl : List ℕ) (next : Br → List ℕ → Bool × List ℕ × Br)
    → Takes 0 a r.1
    → ((br : Br) (c : List ℕ) → IsValid br → Takes 0 br (next br c).2)
    → Takes 0 a (cl_entry r i cl next).2
unfolding cl_entry
cl_entry-Takes a (none, br) i cl next t ih = t
cl_entry-Takes a (some v, br) i cl next t ih =
    Takes-trans t (ih br (set cl (get_or cl_ord i 0) v) t.valid)

cl_loop-Takes :
    (left i : ℕ) (br : Br) (cl : List ℕ) → IsValid br → Takes 0 br (cl_loop left i br cl).2
unfolding cl_loop
cl_loop-Takes zero i br cl v = Takes-refl v
cl_loop-Takes (suc left) i br cl v =
    cl_entry-Takes br (br_bits br 3) i cl (λ b c. cl_loop left (i + 1) b c)
      (bits-Takes br 3 (omega arith) v) (λ b c v'. cl_loop-Takes left (i + 1) b c v')

read_code_lengths-Takes :
    (br : Br) (nl nd : ℕ) → IsValid br → Takes 0 br (read_code_lengths br nl nd).1.br
unfolding read_code_lengths decode_len
read_code_lengths-Takes br nl nd v =
    let t₁ = bits-Takes br 4 (omega arith) v in
    let n : ℕ = int_plus (br_bits br 4).0 4 in
    let t₂ = Takes-trans t₁ (cl_loop-Takes n 0 (br_bits br 4).1 (replicate 19 0) t₁.valid) in
    elim (Bool-cases (cl_loop n 0 (br_bits br 4).1 (replicate 19 0)).0) [
      | inl ok ↦
          rw ok
            (Takes-trans t₂ (len_loop-Takes (nl + nd) _ _ (replicate 320 0) 0 (nl + nd) t₂.valid))
      | inr failed ↦ rw failed t₂
    ]

read_dynamic-Takes : (br : Br) → IsValid br → Takes 0 br (read_dynamic br).3
unfolding read_dynamic
read_dynamic-Takes br v =
    let t₁ = bits-Takes br 5 (omega arith) v in
    let t₂ = Takes-trans t₁ (bits-Takes (br_bits br 5).1 5 (omega arith) t₁.valid) in
    Takes-trans t₂ (
      read_code_lengths-Takes (br_bits (br_bits br 5).1 5).1 (int_plus (br_bits br 5).0 257)
        (int_plus (br_bits (br_bits br 5).1 5).0 1) t₂.valid)

stored_byte-Takes :
    (a : Br) (r : Option ℕ × Br) (out : Buf) (next : Br → Buf → Bool × Br × Buf)
    → Takes 0 a r.1
    → ((br : Br) (o : Buf) → IsValid br → Takes 0 br (next br o).1)
    → Takes 0 a (stored_byte r out next).1
unfolding stored_byte
stored_byte-Takes a (none, br) out next t ih = t
stored_byte-Takes a (some b, br) out next t ih = Takes-trans t (ih br (buf_append_c out b) t.valid)

stored_loop-Takes :
    (left : ℕ) (br : Br) (out : Buf) → IsValid br → Takes 0 br (stored_loop left br out).1
unfolding stored_loop
stored_loop-Takes zero br out v = Takes-refl v
stored_loop-Takes (suc left) br out v =
    stored_byte-Takes br (br_bits br 8) out (λ b o. stored_loop left b o)
      (bits-Takes br 8 (omega arith) v) (λ b o v'. stored_loop-Takes left b o v')

stored_body-Takes :
    (len : Option ℕ) (br : Br) (out : Buf) → IsValid br → Takes 0 br (stored_body len br out).1
unfolding stored_body
stored_body-Takes none br out v = Takes-refl v
stored_body-Takes (some len) br out v = stored_loop-Takes len br out v

decode_stored-Takes : (br : Br) (out : Buf) → IsValid br → Takes 0 br (decode_stored br out).1
unfolding decode_stored
decode_stored-Takes br out v =
    let d = (br_align-Advanced br v).0 in
    let t₀ : Takes 0 br (br_align br) = record {
      valid = d.valid;
      fewer = omega (arith, d.next_count);
    } in
    let t₁ = Takes-trans t₀ (bits-Takes (br_align br) 16 (omega arith) t₀.valid) in
    let t₂ = Takes-trans t₁ (bits-Takes (br_bits (br_align br) 16).1 16 (omega arith) t₁.valid) in
    Takes-trans t₂ (stored_body-Takes (br_bits (br_align br) 16).0 _ out t₂.valid)

after_sym-Takes :
    (a : Br) (r : Option ℕ × Br × Buf) (last : Option ℕ) (next : Br → Buf → Option ℕ × Br × Buf)
    → Takes 0 a r.1
    → ((br : Br) (o : Buf) → IsValid br → Takes 0 br (next br o).1)
    → Takes 0 a (after_sym r last next).1
unfolding after_sym
after_sym-Takes a (none, br, out) last next t ih = t
after_sym-Takes a (some zero, br, out) last next t ih = Takes-trans t (ih br out t.valid)
after_sym-Takes a (some (suc n), br, out) last next t ih = t

run_sym-Takes :
    (a : Br) (r : Option ℕ × Br) (out : Buf) (hd : Huff) (last : Option ℕ)
    (next : Br → Buf → Option ℕ × Br × Buf)
    → Takes 0 a r.1
    → ((br : Br) (o : Buf) → IsValid br → Takes 0 br (next br o).1)
    → Takes 0 a (run_sym r out hd last next).1
unfolding run_sym
run_sym-Takes a (none, br) out hd last next t ih = t
run_sym-Takes a (some sym, br) out hd last next t ih =
    after_sym-Takes a (do_sym br out hd sym) last next
      (Takes-trans t (do_sym-Takes br out hd sym t.valid)) ih

run_loop-Takes :
    (fuel : ℕ) (br : Br) (out : Buf) (hl hd : Huff) (last : Option ℕ)
    → IsValid br
    → Takes 0 br (run_loop fuel br out hl hd last).1
unfolding run_loop
run_loop-Takes zero br out hl hd last v = Takes-refl v
run_loop-Takes (suc fuel) br out hl hd last v =
    run_sym-Takes br (huff_decode br hl) out hd last (λ b o. run_loop fuel b o hl hd last)
      (decode-Takes br hl v) (λ b o v'. run_loop-Takes fuel b o hl hd last v')

compressed-Takes :
    (a : Br) (d : Bool × Huff × Huff × Br) (out : Buf) (last : Option ℕ)
    → Takes 0 a d.3
    → Takes 0 a (compressed d out last).1
unfolding compressed
compressed-Takes a (true, hl, hd, br) out last t =
    Takes-trans t (run_loop-Takes (bits_left br + 1) br out hl hd last t.valid)
compressed-Takes a (false, hl, hd, br) out last t = t

block_of_type-Takes :
    (a : Br) (r : Option ℕ × Br) (out : Buf) (last : Option ℕ)
    → TakesIf 2 a r
    → TakesIf 2 a ((block_of_type r out last).0, (block_of_type r out last).1)
unfolding block_of_type
block_of_type-Takes a (none, br) out last t = t
block_of_type-Takes a (some type, br) out last t = elim (Bool-cases (ltb 2 type)) [
  | inl bad ↦ rw bad (Takes-weaken (omega arith) t)
  | inr good ↦ elim (Bool-cases (type == 0)) [
    | inl stored ↦ rw (good, stored) (both _ _ (Takes-trans t (decode_stored-Takes br out t.valid)))
    | inr packed ↦ elim (Bool-cases (type == 1)) [
      | inl fixed ↦
          rw (good, packed, fixed)
            (both _ _ (
              Takes-trans t (
                compressed-Takes br (true, build_fixed.0, build_fixed.1, br) out last
                  (Takes-refl t.valid))))
      | inr dynamic ↦
          rw (good, packed, dynamic)
            (both _ _ (
              Takes-trans t
                (compressed-Takes br (read_dynamic br) out last (read_dynamic-Takes br t.valid))))
    ]
  ]
]
  where
    both : (r : Option ℕ) (b : Br) → Takes 2 a b → TakesIf 2 a (r, b)
    both none b t = Takes-weaken (omega arith) t
    both (some v) b t = t

TakesIf-after : (n : ℕ) (a b : Br) (r : Option ℕ × Br) → Takes 0 a b → TakesIf n b r → TakesIf n a r
TakesIf-after n a b (none, c) t u = Takes-trans t u
TakesIf-after n a b (some v, c) t u = Takes-weaken (omega arith) (Takes-trans t u)

-- `inflate_block` leaves the reader valid on every input and every output, also where it fails,
-- and a block that it accepts has taken at least two bits.
pub inflate_block-TakesIf :
    (br : Br) (out : Buf)
    → IsValid br
    → TakesIf 2 br ((inflate_block br out).0, (inflate_block br out).1)
unfolding inflate_block
inflate_block-TakesIf br out v =
    let t = bits-Takes br 1 (omega arith) v in
    TakesIf-after 2 br (br_bits br 1).1 _ t (
      block_of_type-Takes (br_bits br 1).1 (br_bits (br_bits br 1).1 2) out (br_bits br 1).0
        (br_bits-TakesIf (br_bits br 1).1 2 t.valid (omega arith)))
