-- ===== src/Tests/Messages.antt =====
-- The theorems on messages to the kernel at concrete inputs.
use micro_container.Prelude.{
  get_or, replicate, ℕ, ◌-◌, ◌<◌, ◌≡◌, refl, List, [], ◌∷◌, arith, Option, none, some,
}
use micro_container.Net.{
  NlAttr, nla_walk, netlink_put_attr, netlink_nest_start, netlink_nest_end, netlink_put_string,
  write_attr, netlink_put_u32,
}
use micro_container.Net.RoundTrip.{nla_walk-put_all}
use micro_container.Net.Nest.{IsClosed, netlink_nest_end-IsClosed}
use micro_container.Ext4.Bytes.{wr16, wr32}
use micro_container.Ext4.Superblock.{memcpy}
use micro_container.Net.Rtnl.{
  fill_ifinfomsg, put_ifinfomsg_zero, fill_veth_peer, fill_veth_linkinfo, netlink_fill_create_veth,
}
use micro_container.Net.Fits.{IsMessage, netlink_fill_create_veth-IsMessage}

-- Two attributes: type 3 with "veth" and its NUL, and type 1 with one byte.
abbrev pair : List NlAttr
pair =
    record { kind = 3; payload = b'v' ∷ b'e' ∷ b't' ∷ b'h' ∷ 0 ∷ [] }
    ∷ record { kind = 1; payload = 9 ∷ [] }
    ∷ []

abbrev filled : List ℕ
filled =
    0 ∷ 0 ∷ 0 ∷ 0 ∷ 9 ∷ 0 ∷ 3 ∷ 0 ∷ b'v' ∷ b'e' ∷ b't' ∷ b'h' ∷ 0 ∷ 0 ∷ 0 ∷ 0 ∷ 5 ∷ 0 ∷ 1 ∷ 0 ∷ 9
    ∷ 0 ∷ 0 ∷ 0 ∷ []

nla_walk-put_all_example :
    (nla_walk 5 filled 4 (24 - 4) ≡ pair)
    × ((j : ℕ) → j < 4 → get_or filled j 0 ≡ get_or (replicate 24 0) j 0)
unfolding netlink_put_attr wr16 memcpy
nla_walk-put_all_example =
    nla_walk-put_all pair (replicate 24 0) 4 filled 24 5 (omega arith, (omega arith, tt))
      (omega arith) refl

abbrev started : List ℕ
started = 0 ∷ 0 ∷ 18 ∷ 0 ∷ replicate 20 0

abbrev nested : List ℕ
nested =
    0 ∷ 0 ∷ 18 ∷ 0 ∷ 9 ∷ 0 ∷ 3 ∷ 0 ∷ b'v' ∷ b'e' ∷ b't' ∷ b'h' ∷ 0 ∷ 0 ∷ 0 ∷ 0 ∷ 5 ∷ 0 ∷ 1 ∷ 0 ∷ 9
    ∷ 0 ∷ 0 ∷ 0 ∷ []

netlink_nest_end-IsClosed_example : IsClosed (netlink_nest_end nested 0 24) 0 24 18 pair
unfolding netlink_put_attr wr16 memcpy netlink_nest_start
netlink_nest_end-IsClosed_example =
    netlink_nest_end-IsClosed (replicate 24 0) started nested 0 4 24 18 pair (omega arith)
      (omega arith, (omega arith, tt)) (omega arith) refl refl

abbrev message_of : Option (List ℕ) → List ℕ
message_of none = []
message_of (some buf) = buf

-- The message for the links "h" and "p" in 128 bytes of a buffer of 130.
abbrev message : List ℕ
unfolding netlink_fill_create_veth fill_ifinfomsg netlink_put_string netlink_put_attr write_attr
    wr16 wr32 memcpy fill_veth_linkinfo fill_veth_peer netlink_nest_start netlink_nest_end
    put_ifinfomsg_zero netlink_put_u32
message = message_of (netlink_fill_create_veth (replicate 130 9) 128 (b'h' ∷ []) (b'p' ∷ []) 5)

netlink_fill_create_veth-IsMessage_example : IsMessage 128 (replicate 130 9) message
unfolding netlink_fill_create_veth fill_ifinfomsg netlink_put_string netlink_put_attr write_attr
    wr16 wr32 memcpy fill_veth_linkinfo fill_veth_peer netlink_nest_start netlink_nest_end
    put_ifinfomsg_zero netlink_put_u32
netlink_fill_create_veth-IsMessage_example =
    netlink_fill_create_veth-IsMessage (replicate 130 9) 128 (b'h' ∷ []) (b'p' ∷ []) 5 message
      (omega arith) (omega arith) refl
