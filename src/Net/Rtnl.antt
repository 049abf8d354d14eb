-- ===== src/Net/Rtnl.antt =====
-- src/net/rtnl.c: messages on links, addresses and routes.
use micro_container.Prelude.{
  ◌>>=◌, ltb, leb, ◌==◌, if◌then◌else◌, set, u8, u32, ℕ, zero, suc, ◌+◌, ◌-◌, ◌*◌, ◌/◌, ◌%◌, ◌^◌,
  bit_or, ◌||◌, Option, none, some, List, [], ◌∷◌,
}
use micro_container.Ext4.Bytes.{wr16, wr32}
use micro_container.Net.{
  netlink_put_attr, netlink_put_string, netlink_put_u32, netlink_nest_start, netlink_nest_end,
}

-- NLA_F_NESTED with a type.
abbrev pub nested : ℕ → ℕ
nested kind = bit_or kind 0x8000

-- The header of a message: its type and flags, and the sequence number 1.
abbrev pub fill_header : List ℕ → ℕ → ℕ → List ℕ
fill_header buf type_ flags = wr32 (wr16 (wr16 buf 4 type_) 6 flags) 8 1

-- NLM_F_REQUEST | NLM_F_CREATE | NLM_F_EXCL | NLM_F_ACK.
abbrev pub create_flags : ℕ
create_flags = 0x605

unfoldable pub fill_ifinfomsg : List ℕ → ℕ → ℕ → List ℕ
fill_ifinfomsg buf family change = wr32 (set buf 16 (u8 family)) 28 change

-- `memset` of `n` bytes to 0.
abbrev pub clear : List ℕ → ℕ → ℕ → List ℕ
clear buf off zero = buf
clear buf off (suc n) = clear (set buf off 0) (off + 1) n

unfoldable pub put_ifinfomsg_zero : List ℕ → ℕ → ℕ → Option (List ℕ × ℕ)
put_ifinfomsg_zero buf size off =
    if ltb size (off + 16) then none else some (clear buf off 16, off + 16)

unfoldable pub fill_veth_peer : List ℕ → ℕ → ℕ → List ℕ → ℕ → Option (List ℕ × ℕ)
fill_veth_peer buf size vp peer nsfd = do
  s ← netlink_nest_start buf size vp (nested 1)
  z ← put_ifinfomsg_zero s.0 size s.1
  n ← netlink_put_string z.0 size z.1 3 peer
  f ← netlink_put_u32 n.0 size n.1 28 (u32 nsfd)
  some (netlink_nest_end f.0 vp f.1, f.1)

abbrev pub veth : List ℕ
veth = b'v' ∷ b'e' ∷ b't' ∷ b'h' ∷ []

unfoldable pub fill_veth_linkinfo : List ℕ → ℕ → ℕ → List ℕ → ℕ → Option (List ℕ × ℕ)
fill_veth_linkinfo buf size li peer nsfd = do
  s ← netlink_nest_start buf size li (nested 18)
  k ← netlink_put_string s.0 size s.1 1 veth
  d ← netlink_nest_start k.0 size k.1 (nested 2)
  p ← fill_veth_peer d.0 size d.1 peer nsfd
  some (netlink_nest_end (netlink_nest_end p.0 k.1 p.1) li p.1, p.1)

-- `size` is the number of bytes that may be used, which are all cleared first.
unfoldable pub netlink_fill_create_veth : List ℕ → ℕ → List ℕ → List ℕ → ℕ → Option (List ℕ)
netlink_fill_create_veth buf size host_name peer_name nsfd = do
  let h = fill_header (clear buf 0 size) 16 create_flags
  n ← netlink_put_string (fill_ifinfomsg h 0 0xFFFFFFFF) size 32 3 host_name
  l ← fill_veth_linkinfo n.0 size n.1 peer_name nsfd
  some (wr32 l.0 0 (u32 l.1))

-- `htonl`.
abbrev pub htonl : ℕ → ℕ
htonl v =
    v % 2 ^ 8 * 2 ^ 24
    + v / 2 ^ 8 % 2 ^ 8 * 2 ^ 16
    + v / 2 ^ 16 % 2 ^ 8 * 2 ^ 8
    + v / 2 ^ 24 % 2 ^ 8

-- `prefix` as a uint32_t; a negative int has its top bit set.
unfoldable pub fill_addr_attrs : List ℕ → ℕ → ℕ → ℕ → ℕ → Option (List ℕ × ℕ)
fill_addr_attrs buf size off prefix local = do
  a ← netlink_put_u32 buf size off 2 (htonl local)
  if prefix == 0 || leb 31 prefix
      then some a
      else netlink_put_u32 a.0 size a.1 4 (bit_or (htonl local) (htonl (2 ^ (32 - prefix) - 1)))

unfoldable pub fill_addr_hdr : List ℕ → ℕ → ℕ → ℕ → List ℕ
fill_addr_hdr buf ifindex prefix family =
    wr32 (set (set (fill_header buf 20 create_flags) 16 (u8 family)) 17 (u8 prefix)) 20 ifindex

unfoldable pub netlink_fill_addr : List ℕ → ℕ → ℕ → ℕ → ℕ → Option (List ℕ)
netlink_fill_addr buf size ifindex prefix local = do
  a ← fill_addr_attrs (fill_addr_hdr (clear buf 0 size) ifindex prefix 2) size 24 prefix local
  some (wr32 a.0 0 (u32 a.1))

-- `ifa_flags` is IFA_F_NODAD; the address has 16 bytes.
unfoldable pub netlink_fill_addr6 : List ℕ → ℕ → ℕ → ℕ → List ℕ → Option (List ℕ)
netlink_fill_addr6 buf size ifindex prefix addr = do
  let h = set (fill_addr_hdr (clear buf 0 size) ifindex prefix 10) 18 2
  a ← netlink_put_attr h size 24 (record { kind = 1; payload = addr })
  some (wr32 a.0 0 (u32 a.1))

-- The flag IFF_UP, in the flags and in their mask.
unfoldable pub netlink_fill_up : List ℕ → ℕ → ℕ → List ℕ
netlink_fill_up buf size ifindex =
    let h = fill_ifinfomsg (fill_header (clear buf 0 size) 16 5) 0 1 in
    wr32 (wr32 (wr32 h 20 ifindex) 24 1) 0 32

unfoldable pub fill_route_attrs : List ℕ → ℕ → ℕ → ℕ → ℕ → Option (List ℕ × ℕ)
fill_route_attrs buf size off oif gw = do
  g ← netlink_put_u32 buf size off 5 (htonl gw)
  netlink_put_u32 g.0 size g.1 4 (u32 oif)

-- The main table, the protocol "boot", the scope "universe" and the type "unicast".
unfoldable pub fill_route_hdr : List ℕ → ℕ → List ℕ
fill_route_hdr buf family =
    set (set (set (set (set (fill_header buf 24 create_flags) 16 (u8 family)) 20 254) 21 3) 22 0) 23
      1

unfoldable pub netlink_fill_default_route : List ℕ → ℕ → ℕ → ℕ → Option (List ℕ)
netlink_fill_default_route buf size oif gw = do
  r ← fill_route_attrs (fill_route_hdr (clear buf 0 size) 2) size 28 oif gw
  some (wr32 r.0 0 (u32 r.1))

unfoldable pub netlink_fill_default_route6 : List ℕ → ℕ → ℕ → List ℕ → Option (List ℕ)
netlink_fill_default_route6 buf size oif gw = do
  g ←
      netlink_put_attr (fill_route_hdr (clear buf 0 size) 10) size 28
        (record { kind = 5; payload = gw })
  o ← netlink_put_u32 g.0 size g.1 4 (u32 oif)
  some (wr32 o.0 0 (u32 o.1))
