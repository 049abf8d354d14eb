-- ===== src/Compress/Gzip/Checked.antt =====
-- What `decompress_gzip` promises: it ends, and what it accepts has the checksum that the file states.
use micro_container.Prelude.{
  u32, ℕ, zero, suc, ◌+◌, ◌-◌, ◌^◌, ◌≤◌, ◌<◌, ◌≡◌, refl, ap, ◌∙◌, Bool, true, Option, none, some,
  List, arith, ltb, leb, if◌then◌else◌, ltb→ge, Bool-cases, Option-cases, get_or, drop, u64, sym,
  inl, inr, false,
}
use micro_container.Crc.{Tables, crc32_init, crc32_update}
use micro_container.Mem.Buf.{Buf}
use micro_container.Compress.BitReader.{Br, br_init}
use micro_container.Compress.BitReader.Stream.{IsValid, count}
use micro_container.Compress.Inflate.Block.{bits_left, inflate_block}
use micro_container.Compress.Inflate.Block.Ends.{Takes, TakesIf}
use micro_container.Compress.Inflate.Block.Progress.{inflate_block-TakesIf}
use micro_container.Compress.Gzip.{
  ◌>>=◌, check_gzip_magic, skip_gzip_flags, skip_gzip_header, read32le, check_gzip_trailer,
  after_block, blocks_loop, gzip_body, decompress_gzip, check_gzip_magic, skip_gzip_flags,
}

abbrev Agree : Br → (Br → Buf → Bool × Buf) → (Br → Buf → Bool × Buf) → Type 0
Agree a f g = (br : Br) (out : Buf) → Takes 2 a br → f br out ≡ g br out

after_block-Agree :
    (a : Br) (r : Option ℕ × Br × Buf) (f g : Br → Buf → Bool × Buf)
    → Agree a f g
    → TakesIf 2 a (r.0, r.1)
    → after_block r f ≡ after_block r g
unfolding after_block
after_block-Agree a (none, br, out) f g ag t = refl
after_block-Agree a (some zero, br, out) f g ag t = ag br out t
after_block-Agree a (some (suc n), br, out) f g ag t = refl

blocks_loop-fuel :
    (m n : ℕ) (br : Br) (out : Buf)
    → IsValid br
    → count br < m
    → count br < n
    → blocks_loop m br out ≡ blocks_loop n br out
unfolding blocks_loop
blocks_loop-fuel zero n br out v hm hn = absurd (omega arith)
blocks_loop-fuel (suc m) zero br out v hm hn = absurd (omega arith)
blocks_loop-fuel (suc m) (suc n) br out v hm hn =
    after_block-Agree br (inflate_block br out) (λ b o. blocks_loop m b o)
      (λ b o. blocks_loop n b o)
      (λ b o t. blocks_loop-fuel m n b o t.valid (omega (arith, t.fewer)) (omega (arith, t.fewer)))
      (inflate_block-TakesIf br out v)

-- The loop of `decompress_gzip` over the blocks ends on every input: on `bits_left br + 1` rounds it
-- satisfies the equation of the C loop, which has no bound, and every block that does not fail
-- leaves fewer unread bits.
pub blocks_loop_ends :
    (br : Br) (out : Buf)
    → IsValid br
    → (blocks_loop (bits_left br + 1) br out
        ≡ after_block (inflate_block br out) (λ br' out'. blocks_loop (bits_left br' + 1) br' out'))
      × ((r : ℕ)
          → (inflate_block br out).0 ≡ some r
          → bits_left (inflate_block br out).1 < bits_left br)
unfolding count
blocks_loop_ends br out v = (
  ap (λ (n : ℕ). blocks_loop n br out) {y = suc (bits_left br)} (omega arith)
      ∙ unfold blocks_loop in
        after_block-Agree br (inflate_block br out) (λ b o. blocks_loop (bits_left br) b o)
          (λ b o. blocks_loop (bits_left b + 1) b o)
          (λ b o t.
            blocks_loop-fuel (bits_left br) (bits_left b + 1) b o t.valid (omega (arith, t.fewer))
              (omega arith))
          (inflate_block-TakesIf br out v),
  λ r e. fewer_left r (inflate_block br out) e (inflate_block-TakesIf br out v),
)
  where
    fewer_left :
        (r : ℕ) (b : Option ℕ × Br × Buf)
        → b.0 ≡ some r
        → TakesIf 2 br (b.0, b.1)
        → bits_left b.1 < bits_left br
    fewer_left r (none, b, o) e t = absurd (none_some e)
      where
        none_some : ¬ (none ≡ some r)
        none_some q = cc
    fewer_left r (some s, b, o) e t = omega (arith, t.fewer)

trailer-checked :
    (p : List ℕ) (in_len data_end : ℕ) (out : Buf) (tables : Tables)
    → (check_gzip_trailer p in_len data_end out tables).0 ≡ true
    → (data_end + 8 ≤ in_len)
      × (crc32_update (crc32_init tables) 0 out.bytes ≡ read32le p data_end)
      × (read32le p (data_end + 4) ≡ u32 out.len)
unfolding check_gzip_trailer
trailer-checked p in_len data_end out tables h = ground arith

header-inside :
    (p : List ℕ) (in_len off : ℕ)
    → skip_gzip_header p in_len ≡ some off
    → (18 ≤ in_len) × (off < in_len)
unfolding skip_gzip_header
header-inside p in_len off h = elim (Bool-cases (check_gzip_magic p in_len)) [
  | inl magic ↦ (
    unfold check_gzip_magic in ground (arith, magic),
    last_test (skip_gzip_flags p in_len 10 (get_or p 3 0)) (rw magic at h),
  )
  | inr other ↦ absurd (none_some (rw other at h))
]
  where
    none_some : ¬ (none ≡ some off)
    none_some q = cc

    last_test :
        (o : Option ℕ)
        → (o >>= λ t. if leb in_len t then none else some t) ≡ some off
        → off < in_len
    last_test none e = absurd (none_some e)
    last_test (some t) e = ground arith

gzip_body-checked :
    (p : List ℕ) (in_len off : ℕ) (out : Buf) (tables : Tables)
    → (gzip_body p in_len off out tables).0 ≡ true
    → let out' = (gzip_body p in_len off out tables).1 in
      (u64 (off + 8) ≤ in_len)
      × (crc32_update (crc32_init tables) 0 out'.bytes ≡ read32le p (in_len - 8))
      × (read32le p (in_len - 8 + 4) ≡ u32 out'.len)
unfolding gzip_body
gzip_body-checked p in_len off out tables h =
    let br : Br = br_init (drop off p) (in_len - off - 8) in
    let b : Bool × Buf = blocks_loop (bits_left br + 1) br out in
    elim (Bool-cases (ltb in_len (u64 (off + 8)))) [
      | inl short ↦ absurd (false_true (rw short at h))
      | inr room ↦ elim (Bool-cases b.0) [
        | inl ended ↦
            let c = trailer-checked p in_len (in_len - 8) b.1 tables (rw (room, ended) at h) in
            rw (room, ended) (ltb→ge in_len (u64 (off + 8)) room, c.1, c.2)
        | inr failed ↦ absurd (false_true (rw (room, failed) at h))
      ]
    ]
  where
    false_true : ¬ (false ≡ true)
    false_true q = cc

-- A file that `decompress_gzip` accepts has a gzip header with its trailer behind it, the CRC-32 of
-- the whole output is the trailer's first word, and the output's length modulo 2^32 its second.
pub decompress_gzip-checked :
    (p : List ℕ) (in_len : ℕ) (out : Buf) (tables : Tables)
    → in_len < 2 ^ 63
    → (decompress_gzip p in_len out tables).0 ≡ true
    → let out' = (decompress_gzip p in_len out tables).1 in
      (off : ℕ) × (skip_gzip_header p in_len ≡ some off)
      × (off + 8 ≤ in_len)
      × (crc32_update (crc32_init tables) 0 out'.bytes ≡ read32le p (in_len - 8))
      × (read32le p (in_len - 4) ≡ u32 out'.len)
unfolding decompress_gzip
decompress_gzip-checked p in_len out tables small h =
    elim (Option-cases (skip_gzip_header p in_len)) [
      | inl bad ↦ absurd (false_true (rw (bad, decompress_gzip) at h))
      | inr (off, e) ↦
          let (long, inside) = header-inside p in_len off e in
          let c = gzip_body-checked p in_len off out tables (rw (e, decompress_gzip) at h) in
          let tail : in_len - 8 + 4 ≡ in_len - 4 = omega arith in
          rw (e, decompress_gzip)
            (off, refl, omega (arith, c.0), c.1, ap (read32le p) (sym tail) ∙ c.2)
    ]
  where
    false_true : ¬ (false ≡ true)
    false_true q = cc
