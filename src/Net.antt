-- ===== src/Net.antt =====
-- src/net/netlink.c: messages to the kernel, on a machine that stores words with the low byte first. A
-- buffer is the list of its bytes, and `none` a failure.
pub mod Walk
pub mod RoundTrip
pub mod Nest
pub mod Rtnl
pub mod Fits
use micro_container.Prelude.{
  ◌>>=◌, ltb, leb, ◌==◌, if◌then◌else◌, length, get_or, set, u8, u16, u32, ℕ, zero, suc, ◌+◌, ◌-◌,
  ◌*◌, ◌/◌, ◌^◌, bit_or, Bool, true, false, not, ◌&&◌, ◌||◌, Option, none, some, List, [], ◌∷◌,
  ◌++◌,
}
use micro_container.Ext4.Bytes.{rd16, rd32, wr16, wr32}
use micro_container.Ext4.Superblock.{memcpy}

pub record NlAttr : Type 0 where
  pub kind : ℕ
  pub payload : List ℕ

-- NLA_ALIGN and NLMSG_ALIGN.
abbrev pub align4 : ℕ → ℕ
align4 n = (n + 3) / 4 * 4

-- The writes of `netlink_put_attr`.
unfoldable pub write_attr : List ℕ → ℕ → NlAttr → List ℕ
write_attr buf off attr =
    memcpy (wr16 (wr16 buf off (u16 (4 + length attr.payload))) (off + 2) attr.kind) (off + 4)
      attr.payload

-- The buffer has `size` bytes; the offset afterwards is behind the buffer.
unfoldable pub netlink_put_attr : List ℕ → ℕ → ℕ → NlAttr → Option (List ℕ × ℕ)
unfolding write_attr
netlink_put_attr buf size off attr =
    let alen = align4 (4 + length attr.payload) in
    if ltb (65535 - 4) (length attr.payload)
    then none
    else if ltb size off || ltb (size - off) alen
    then none
    else some (write_attr buf off attr, off + alen)

unfoldable pub netlink_put_string : List ℕ → ℕ → ℕ → ℕ → List ℕ → Option (List ℕ × ℕ)
netlink_put_string buf size off kind val = do
  put ← netlink_put_attr buf size off (record { kind = u16 kind; payload = val ++ 0 ∷ [] })
  some (wr32 put.0 0 (u32 put.1), put.1)

unfoldable pub netlink_put_u32 : List ℕ → ℕ → ℕ → ℕ → ℕ → Option (List ℕ × ℕ)
netlink_put_u32 buf size off kind val = netlink_put_attr buf size off (record {
  kind = u16 kind;
  payload = u8 val ∷ u8 (val / 2 ^ 8) ∷ u8 (val / 2 ^ 16) ∷ u8 (val / 2 ^ 24) ∷ [];
})

-- The buffer, and the offset afterwards; the start of the nest is the offset before.
unfoldable pub netlink_nest_start : List ℕ → ℕ → ℕ → ℕ → Option (List ℕ × ℕ)
netlink_nest_start buf size off kind =
    if ltb size (off + 4) then none else some (wr16 buf (off + 2) (u16 kind), off + 4)

unfoldable pub netlink_nest_end : List ℕ → ℕ → ℕ → List ℕ
netlink_nest_end buf start off = wr16 buf start (u16 (off - start))

-- NLMSG_DONE and NLMSG_ERROR.
abbrev pub nlmsg_done : ℕ
nlmsg_done = 3

abbrev pub nlmsg_error : ℕ
nlmsg_error = 2

-- NLMSG_OK on the message at `off` with `rem` bytes to the end.
abbrev pub nlmsg_ok : List ℕ → ℕ → ℕ → Bool
nlmsg_ok buf off rem = leb 16 rem && (leb 16 (rd32 buf off) && leb (rd32 buf off) rem)

-- An acknowledgement: a header of 16 bytes, and in an error message an error number behind it.
unfoldable pub netlink_ack_result : List ℕ → ℕ → Bool
netlink_ack_result ack alen =
    if ltb alen 16
    then false
    else if not (nlmsg_ok ack 0 alen)
    then false
    else if not (rd16 ack 4 == nlmsg_error)
    then true
    else if ltb (rd32 ack 0) 36
    then false
    else rd32 ack 16 == 0

-- `netlink_request_fill` on a buffer for the header and one byte.
unfoldable pub netlink_request_fill : List ℕ → ℕ → ℕ → ℕ → ℕ → List ℕ
netlink_request_fill buf len type_ flags family =
    set
      (wr32 (wr32 (wr16 (wr16 (wr32 buf 0 (u32 len)) 4 (u16 type_)) 6 (u16 (bit_or 1 flags))) 8 1)
        12 0)
      16 (u8 family)

-- NLA_OK and NLA_NEXT, as the readers of attributes use them: the attributes from `off` on, with `len`
-- bytes to the end.
unfoldable pub slice : List ℕ → ℕ → ℕ → List ℕ
slice p o zero = []
slice p o (suc n) = get_or p o 0 ∷ slice p (o + 1) n

abbrev pub nla_ok : List ℕ → ℕ → ℕ → Bool
nla_ok buf off len = leb 4 len && (leb 4 (rd16 buf off) && leb (rd16 buf off) len)

unfoldable pub nla_walk : ℕ → List ℕ → ℕ → ℕ → List NlAttr
unfolding slice
nla_walk zero buf off len = []
nla_walk (suc fuel) buf off len =
    let n = rd16 buf off in
    let rest = nla_walk fuel buf (off + align4 n) (len - align4 n) in
    if nla_ok buf off len
    then record { kind = rd16 buf (off + 2); payload = slice buf (off + 4) (n - 4) } ∷ rest
    else []
