-- ===== src/Compress/Inflate/Symbols.antt =====
-- Literals and copies: what a decoded symbol does to the output.
pub mod Copy
use micro_container.Prelude.{
  ltb, leb, if◌then◌else◌, get_or, u32, ℕ, zero, suc, ◌+◌, ◌-◌, ◌^◌, sym, Bool, true, false, ◌||◌,
  Option, none, some, List, [], ◌∷◌, ◌++◌,
}
use micro_container.Mem.Buf.{Buf, buf_grow, buf_append_c}
use micro_container.Compress.BitReader.{Br, br_bits}
use micro_container.Compress.Huffman.{Huff, huff_decode}

abbrev pub len_base : List ℕ
len_base =
    3 ∷ 4 ∷ 5 ∷ 6 ∷ 7 ∷ 8 ∷ 9 ∷ 10 ∷ 11 ∷ 13 ∷ 15 ∷ 17 ∷ 19 ∷ 23 ∷ 27 ∷ 31 ∷ 35 ∷ 43 ∷ 51 ∷ 59 ∷ 67
    ∷ 83 ∷ 99 ∷ 115 ∷ 131 ∷ 163 ∷ 195 ∷ 227 ∷ 258 ∷ []

abbrev pub len_extra : List ℕ
len_extra =
    0 ∷ 0 ∷ 0 ∷ 0 ∷ 0 ∷ 0 ∷ 0 ∷ 0 ∷ 1 ∷ 1 ∷ 1 ∷ 1 ∷ 2 ∷ 2 ∷ 2 ∷ 2 ∷ 3 ∷ 3 ∷ 3 ∷ 3 ∷ 4 ∷ 4 ∷ 4 ∷ 4
    ∷ 5 ∷ 5 ∷ 5 ∷ 5 ∷ 0 ∷ []

abbrev pub dist_base : List ℕ
dist_base =
    1 ∷ 2 ∷ 3 ∷ 4 ∷ 5 ∷ 7 ∷ 9 ∷ 13 ∷ 17 ∷ 25 ∷ 33 ∷ 49 ∷ 65 ∷ 97 ∷ 129 ∷ 193 ∷ 257 ∷ 385 ∷ 513 ∷ 769
    ∷ 1025 ∷ 1537 ∷ 2049 ∷ 3073 ∷ 4097 ∷ 6145 ∷ 8193 ∷ 12289 ∷ 16385 ∷ 24577 ∷ []

abbrev pub dist_extra : List ℕ
dist_extra =
    0 ∷ 0 ∷ 0 ∷ 0 ∷ 1 ∷ 1 ∷ 2 ∷ 2 ∷ 3 ∷ 3 ∷ 4 ∷ 4 ∷ 5 ∷ 5 ∷ 6 ∷ 6 ∷ 7 ∷ 7 ∷ 8 ∷ 8 ∷ 9 ∷ 9 ∷ 10 ∷ 10
    ∷ 11 ∷ 11 ∷ 12 ∷ 12 ∷ 13 ∷ 13 ∷ []

-- `base + e` for the extra bits `e`.
unfoldable pub add_extra : Option ℕ × Br → ℕ → Option ℕ × Br
add_extra (none, br) base = (none, br)
add_extra (some e, br) base = (some (base + e), br)

unfoldable pub with_extra : Br → ℕ → ℕ → Option ℕ × Br
unfolding add_extra
with_extra br base extra =
    if leb extra 0 then (some base, br) else add_extra (br_bits br extra) base

unfoldable pub get_len : Br → ℕ → Option ℕ × Br
unfolding with_extra
get_len br sym =
    let slot = sym - 257 in
    if ltb sym 257 || leb 29 slot
    then (none, br)
    else with_extra br (get_or len_base slot 0) (get_or len_extra slot 0)

unfoldable pub dist_of : Option ℕ × Br → Option ℕ × Br
unfolding with_extra
dist_of (none, br) = (none, br)
dist_of (some sym, br) =
    if leb 30 sym
    then (some 0, br)
    else with_extra br (get_or dist_base sym 0) (get_or dist_extra sym 0)

unfoldable pub get_dist : Br → Huff → Option ℕ × Br
unfolding dist_of
get_dist br hd = dist_of (huff_decode br hd)

-- `out->data[out->len] = out->data[out->len - distance]; out->len++;`, with the rounds left.
unfoldable pub copy_loop : ℕ → Buf → ℕ → Buf
copy_loop zero out distance = out
copy_loop (suc left) out distance =
    copy_loop left
      (record out {
        bytes = out.bytes ++ get_or out.bytes (out.len - distance) 0 ∷ [];
        len = out.len + 1;
      })
      distance

-- `(unsigned)(length - 3) > 255U` also refuses the lengths below 3, which wrap around.
unfoldable pub copy_dist : Buf → ℕ → ℕ → Bool × Buf
unfolding copy_loop
copy_dist out length_ distance =
    if ltb 255 (u32 (length_ + 2 ^ 32 - 3))
    then (false, out)
    else if ltb distance 1 || ltb out.len distance
    then (false, out)
    else (true, copy_loop length_ (buf_grow out length_) distance)

-- After the length, the distance; after both, the copy.
unfoldable pub copy_with : Option ℕ × Br → Buf → ℕ → Option ℕ × Br × Buf
unfolding copy_dist
copy_with (none, br) out length_ = (none, br, out)
copy_with (some distance, br) out length_ =
    let (ok, out') = copy_dist out length_ distance in (if ok then some 0 else none, br, out')

unfoldable pub dist_with : Option ℕ × Br → Buf → Huff → Option ℕ × Br × Buf
unfolding copy_with get_dist
dist_with (none, br) out hd = (none, br, out)
dist_with (some length_, br) out hd = copy_with (get_dist br hd) out length_

-- 0 after a literal or a copy, 1 at the end of the block.
unfoldable pub do_sym : Br → Buf → Huff → ℕ → Option ℕ × Br × Buf
unfolding dist_with get_len
do_sym br out hd sym =
    if ltb sym 256
    then (some 0, br, buf_append_c out sym)
    else if ltb 256 sym
    then dist_with (get_len br sym) out hd
    else (some 1, br, out)
