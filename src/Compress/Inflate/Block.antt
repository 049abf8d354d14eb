-- ===== src/Compress/Inflate/Block.antt =====
-- A block: stored, with the fixed codes, or with transmitted ones.
pub mod Ends
pub mod Progress
use micro_container.Prelude.{
  ltb, ◌==◌, if◌then◌else◌, replicate, ℕ, zero, suc, ◌+◌, ◌-◌, ◌*◌, sym, Bool, true, false, Option,
  none, some,
}
use micro_container.Mem.Buf.{Buf, buf_append_c}
use micro_container.Compress.BitReader.{Br, br_bits, br_align}
use micro_container.Compress.Huffman.{Huff, huff_build, huff_decode}
use micro_container.Compress.Inflate.Lengths.{fixed_huff, read_dynamic}
use micro_container.Compress.Inflate.Symbols.{do_sym}

-- One byte of a stored block; `next` is the rest of the loop.
unfoldable pub stored_byte : Option ℕ × Br → Buf → (Br → Buf → Bool × Br × Buf) → Bool × Br × Buf
stored_byte (none, br) out next = (false, br, out)
stored_byte (some b, br) out next = next br (buf_append_c out b)

-- The loop of `decode_stored`, with the rounds left.
unfoldable pub stored_loop : ℕ → Br → Buf → Bool × Br × Buf
unfolding stored_byte
stored_loop zero br out = (true, br, out)
stored_loop (suc left) br out =
    stored_byte (br_bits br 8) out (λ br' out'. stored_loop left br' out')

unfoldable pub stored_body : Option ℕ → Br → Buf → Bool × Br × Buf
unfolding stored_loop
stored_body none br out = (false, br, out)
stored_body (some len) br out = stored_loop len br out

-- The second word, the complement of the length, is read and not looked at.
unfoldable pub decode_stored : Br → Buf → Bool × Br × Buf
unfolding stored_body
decode_stored br out =
    let (len, br₁) = br_bits (br_align br) 16 in
    let (_, br₂) = br_bits br₁ 16 in stored_body len br₂ out

-- What follows a symbol: go on after 0, end the block after 1.
unfoldable pub after_sym :
    Option ℕ × Br × Buf → Option ℕ → (Br → Buf → Option ℕ × Br × Buf) → Option ℕ × Br × Buf
after_sym (none, br, out) last next = (none, br, out)
after_sym (some zero, br, out) last next = next br out
after_sym (some (suc _), br, out) last next = (last, br, out)

unfoldable pub run_sym :
    Option ℕ × Br → Buf → Huff → Option ℕ → (Br → Buf → Option ℕ × Br × Buf) → Option ℕ × Br × Buf
unfolding after_sym
run_sym (none, br) out hd last next = (none, br, out)
run_sym (some sym, br) out hd last next = after_sym (do_sym br out hd sym) last next

-- The loop of `run_loop` on fuel. A symbol takes at least one bit.
unfoldable pub run_loop : ℕ → Br → Buf → Huff → Huff → Option ℕ → Option ℕ × Br × Buf
unfolding run_sym
run_loop zero br out hl hd last = (none, br, out)
run_loop (suc fuel) br out hl hd last =
    run_sym (huff_decode br hl) out hd last (λ br' out'. run_loop fuel br' out' hl hd last)

-- As many rounds as there are unread bits, and one more.
abbrev pub bits_left : Br → ℕ
bits_left br = br.bits + 8 * (br.len - br.pos)

unfoldable pub compressed : Bool × Huff × Huff × Br → Buf → Option ℕ → Option ℕ × Br × Buf
unfolding run_loop
compressed (ok, hl, hd, br) out last =
    if ok then run_loop (bits_left br + 1) br out hl hd last else (none, br, out)

unfoldable pub build_fixed : Huff × Huff
unfolding fixed_huff
build_fixed =
    let (lit, dst) = fixed_huff (replicate 320 0) (replicate 32 0) in
    (huff_build lit 288, huff_build dst 32)

-- `last` is the final-block bit, which is also the result; a failed read of it is -1.
unfoldable pub block_of_type : Option ℕ × Br → Buf → Option ℕ → Option ℕ × Br × Buf
unfolding decode_stored compressed build_fixed read_dynamic
block_of_type (none, br) out last = (none, br, out)
block_of_type (some type, br) out last =
    if ltb 2 type
    then (none, br, out)
    else if type == 0
    then (let (ok, br', out') = decode_stored br out in (if ok then last else none, br', out'))
    else if type == 1
    then compressed (true, build_fixed.0, build_fixed.1, br) out last
    else compressed (read_dynamic br) out last

unfoldable pub inflate_block : Br → Buf → Option ℕ × Br × Buf
unfolding block_of_type
inflate_block br out = let (last, br₁) = br_bits br 1 in block_of_type (br_bits br₁ 2) out last
