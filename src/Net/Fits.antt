-- ===== src/Net/Fits.antt =====
-- `netlink_fill_create_veth` of src/net/rtnl.c: which bytes of the buffer it writes.
use micro_container.Prelude.{
  ltb, Bool-cases, length, set, u16, u32, bind_cases, ℕ, zero, suc, ◌+◌, ◌-◌, ◌≤◌, ◌≡◌, inl, inr,
  ◌||◌, some, List, arith, u8, ◌^◌, ◌<◌, SameBehind, SameBehind-refl, SameBehind-trans,
  set-SameBehind,
}
use micro_container.Ext4.Bytes.{rd32, wr32, wr16}
use micro_container.Ext4.Bytes.RoundTrip.{
  get_or-wr16, get_or-wr32, rd32-wr32, length-wr32, length-wr16,
}
use micro_container.Ext4.Superblock.{memcpy}
use micro_container.Ext4.Superblock.Verify.{length-memcpy}
use micro_container.Net.Walk.{get_or-memcpy}
use micro_container.Net.{
  NlAttr, align4, write_attr, netlink_put_attr, netlink_put_string, netlink_put_u32,
  netlink_nest_start, netlink_nest_end,
}
use micro_container.Net.Rtnl.{
  fill_veth_linkinfo, veth, netlink_fill_create_veth, fill_ifinfomsg, fill_header, create_flags,
  nested, clear, put_ifinfomsg_zero, fill_veth_peer,
}

-- The buffer after some writes below `size`, and an offset that is not above it.
record Fits (size : ℕ) (buf : List ℕ) (p : List ℕ × ℕ) : Type 0 where
  frame : SameBehind size buf p.0
  inside : p.1 ≤ size

memcpy-SameBehind :
    (size : ℕ) (p : List ℕ) (o : ℕ) (bytes : List ℕ)
    → o + length bytes ≤ size
    → SameBehind size p (memcpy p o bytes)
memcpy-SameBehind size p o bytes h = record {
  same_length = length-memcpy p o bytes;
  behind = λ j far. get_or-memcpy p o bytes j (inr (omega arith));
}

wr16-SameBehind : (size : ℕ) (p : List ℕ) (o v : ℕ) → o + 2 ≤ size → SameBehind size p (wr16 p o v)
wr16-SameBehind size p o v h = record {
  same_length = length-wr16 p o v;
  behind = λ j far. get_or-wr16 p o v j (inr (omega arith));
}

wr32-SameBehind : (size : ℕ) (p : List ℕ) (o v : ℕ) → o + 4 ≤ size → SameBehind size p (wr32 p o v)
wr32-SameBehind size p o v h = record {
  same_length = length-wr32 p o v;
  behind = λ j far. get_or-wr32 p o v j (inr (omega arith));
}

clear-SameBehind :
    (size : ℕ) (p : List ℕ) (o n : ℕ) → o + n ≤ size → SameBehind size p (clear p o n)
clear-SameBehind size p o zero h = SameBehind-refl size p
clear-SameBehind size p o (suc n) h =
    SameBehind-trans (set-SameBehind size o 0 p (omega arith))
      (clear-SameBehind size (set p o 0) (o + 1) n (omega arith))

netlink_put_attr-Fits :
    (buf : List ℕ) (size off : ℕ) (attr : NlAttr) (p : List ℕ × ℕ)
    → netlink_put_attr buf size off attr ≡ some p
    → Fits size buf p
unfolding netlink_put_attr write_attr
netlink_put_attr-Fits buf size off attr p e =
    elim (Bool-cases (ltb (65535 - 4) (length attr.payload))) [
      | inl long ↦ absurd (cc (rw long at e))
      | inr short ↦
          let alen = align4 (4 + length attr.payload) in
          elim (Bool-cases (ltb size off || ltb (size - off) alen)) [
            | inl full ↦ absurd (cc (rw (short, full) at e))
            | inr room ↦
                let same : (write_attr buf off attr, off + alen) ≡ p = cc (rw (short, room) at e) in
                let inside : off + alen ≤ size = ground arith in
                rw (← same) (record {
                  frame =
                      SameBehind-trans (wr16-SameBehind size buf off _ (omega (arith, inside))) (
                        SameBehind-trans
                          (wr16-SameBehind size _ (off + 2) attr.kind (omega (arith, inside)))
                          (memcpy-SameBehind size _ (off + 4) attr.payload
                            (omega (arith, inside))));
                  inside = inside;
                })
          ]
    ]

-- Where an attribute is put, there is room for its header at least.
netlink_put_attr-room :
    (buf : List ℕ) (size off : ℕ) (attr : NlAttr) (p : List ℕ × ℕ)
    → netlink_put_attr buf size off attr ≡ some p
    → off + 4 ≤ size
unfolding netlink_put_attr
netlink_put_attr-room buf size off attr p e =
    elim (Bool-cases (ltb (65535 - 4) (length attr.payload))) [
      | inl long ↦ absurd (cc (rw long at e))
      | inr short ↦
          elim (Bool-cases (ltb size off || ltb (size - off) (align4 (4 + length attr.payload)))) [
            | inl full ↦ absurd (cc (rw (short, full) at e))
            | inr room ↦ ground arith
          ]
    ]

netlink_put_string-Fits :
    (buf : List ℕ) (size off kind : ℕ) (val : List ℕ) (p : List ℕ × ℕ)
    → netlink_put_string buf size off kind val ≡ some p
    → Fits size buf p
unfolding netlink_put_string
netlink_put_string-Fits buf size off kind val p e =
    let (put, done, last) = bind_cases (netlink_put_attr buf size off _) _ p e in
    let f = netlink_put_attr-Fits buf size off _ put done in
    let room = netlink_put_attr-room buf size off _ put done in
    let same : (wr32 put.0 0 (u32 put.1), put.1) ≡ p = cc last in
    rw (← same) (record {
      frame = SameBehind-trans f.frame (wr32-SameBehind size put.0 0 (u32 put.1) (omega arith));
      inside = f.inside;
    })

netlink_put_string-room :
    (buf : List ℕ) (size off kind : ℕ) (val : List ℕ) (p : List ℕ × ℕ)
    → netlink_put_string buf size off kind val ≡ some p
    → off + 4 ≤ size
unfolding netlink_put_string
netlink_put_string-room buf size off kind val p e =
    let (put, done, last) = bind_cases (netlink_put_attr buf size off _) _ p e in
    netlink_put_attr-room buf size off _ put done

netlink_put_u32-Fits :
    (buf : List ℕ) (size off kind val : ℕ) (p : List ℕ × ℕ)
    → netlink_put_u32 buf size off kind val ≡ some p
    → Fits size buf p
unfolding netlink_put_u32
netlink_put_u32-Fits buf size off kind val p e = netlink_put_attr-Fits buf size off _ p e

netlink_nest_start-Fits :
    (buf : List ℕ) (size off kind : ℕ) (p : List ℕ × ℕ)
    → netlink_nest_start buf size off kind ≡ some p
    → Fits size buf p
unfolding netlink_nest_start
netlink_nest_start-Fits buf size off kind p e = elim (Bool-cases (ltb size (off + 4))) [
  | inl full ↦ absurd (cc (rw full at e))
  | inr room ↦
      let same : (wr16 buf (off + 2) (u16 kind), off + 4) ≡ p = cc (rw room at e) in
      rw (← same) (record {
        frame = wr16-SameBehind size buf (off + 2) (u16 kind) (ground arith);
        inside = ground arith;
      })
]

netlink_nest_start-room :
    (buf : List ℕ) (size off kind : ℕ) (p : List ℕ × ℕ)
    → netlink_nest_start buf size off kind ≡ some p
    → off + 4 ≤ size
unfolding netlink_nest_start
netlink_nest_start-room buf size off kind p e = elim (Bool-cases (ltb size (off + 4))) [
  | inl full ↦ absurd (cc (rw full at e))
  | inr room ↦ ground arith
]

put_ifinfomsg_zero-Fits :
    (buf : List ℕ) (size off : ℕ) (p : List ℕ × ℕ)
    → put_ifinfomsg_zero buf size off ≡ some p
    → Fits size buf p
unfolding put_ifinfomsg_zero
put_ifinfomsg_zero-Fits buf size off p e = elim (Bool-cases (ltb size (off + 16))) [
  | inl full ↦ absurd (cc (rw full at e))
  | inr room ↦
      let same : (clear buf off 16, off + 16) ≡ p = cc (rw room at e) in
      rw (← same)
        (record { frame = clear-SameBehind size buf off 16 (ground arith); inside = ground arith })
]

fill_veth_peer-Fits :
    (buf : List ℕ) (size vp : ℕ) (peer : List ℕ) (nsfd : ℕ) (p : List ℕ × ℕ)
    → fill_veth_peer buf size vp peer nsfd ≡ some p
    → Fits size buf p
unfolding fill_veth_peer netlink_nest_end
fill_veth_peer-Fits buf size vp peer nsfd p e =
    let (s, s_done, e₁) = bind_cases (netlink_nest_start buf size vp (nested 1)) _ p e in
    let (z, z_done, e₂) = bind_cases (put_ifinfomsg_zero s.0 size s.1) _ p e₁ in
    let (n, n_done, e₃) = bind_cases (netlink_put_string z.0 size z.1 3 peer) _ p e₂ in
    let (f, f_done, e₄) = bind_cases (netlink_put_u32 n.0 size n.1 28 (u32 nsfd)) _ p e₃ in
    let hs = netlink_nest_start-Fits buf size vp (nested 1) s s_done in
    let hz = put_ifinfomsg_zero-Fits s.0 size s.1 z z_done in
    let hn = netlink_put_string-Fits z.0 size z.1 3 peer n n_done in
    let hf = netlink_put_u32-Fits n.0 size n.1 28 (u32 nsfd) f f_done in
    let same : (netlink_nest_end f.0 vp f.1, f.1) ≡ p = cc e₄ in
    let room = netlink_nest_start-room buf size vp (nested 1) s s_done in
    rw (← same) (record {
      frame = SameBehind-trans hs.frame (
          SameBehind-trans hz.frame (
            SameBehind-trans hn.frame
              (SameBehind-trans hf.frame (wr16-SameBehind size f.0 vp _ (omega (arith, room))))));
      inside = hf.inside;
    })

fill_veth_linkinfo-Fits :
    (buf : List ℕ) (size li : ℕ) (peer : List ℕ) (nsfd : ℕ) (p : List ℕ × ℕ)
    → fill_veth_linkinfo buf size li peer nsfd ≡ some p
    → Fits size buf p
unfolding fill_veth_linkinfo netlink_nest_end
fill_veth_linkinfo-Fits buf size li peer nsfd p e =
    let (s, s_done, e₁) = bind_cases (netlink_nest_start buf size li (nested 18)) _ p e in
    let (k, k_done, e₂) = bind_cases (netlink_put_string s.0 size s.1 1 veth) _ p e₁ in
    let (d, d_done, e₃) = bind_cases (netlink_nest_start k.0 size k.1 (nested 2)) _ p e₂ in
    let (v, v_done, e₄) = bind_cases (fill_veth_peer d.0 size d.1 peer nsfd) _ p e₃ in
    let hs = netlink_nest_start-Fits buf size li (nested 18) s s_done in
    let hk = netlink_put_string-Fits s.0 size s.1 1 veth k k_done in
    let hd = netlink_nest_start-Fits k.0 size k.1 (nested 2) d d_done in
    let hv = fill_veth_peer-Fits d.0 size d.1 peer nsfd v v_done in
    let same : (netlink_nest_end (netlink_nest_end v.0 k.1 v.1) li v.1, v.1) ≡ p = cc e₄ in
    let outer = netlink_nest_start-room buf size li (nested 18) s s_done in
    let inner = netlink_nest_start-room k.0 size k.1 (nested 2) d d_done in
    let ends =
      SameBehind-trans (wr16-SameBehind size v.0 k.1 _ (omega (arith, inner)))
        (wr16-SameBehind size _ li _ (omega (arith, outer))) in
    rw (← same) (record {
      frame =
          SameBehind-trans hs.frame (
            SameBehind-trans hk.frame (SameBehind-trans hd.frame (SameBehind-trans hv.frame ends)));
      inside = hv.inside;
    })

-- A message in the first `size` bytes of a buffer: the bytes behind them are those of the buffer
-- before, and the first word, which is the message's length, is not above `size`.
pub record IsMessage (size : ℕ) (before buf : List ℕ) : Type 0 where
  pub frame : SameBehind size before buf
  pub inside : rd32 buf 0 ≤ size

sealed :
    (size : ℕ) (before : List ℕ) (p : List ℕ × ℕ) (buf : List ℕ)
    → 4 ≤ size
    → size ≤ length before
    → size < 2 ^ 32
    → Fits size before p
    → some (wr32 p.0 0 (u32 p.1)) ≡ some buf
    → IsMessage size before buf
sealed size before p buf room fits small h e =
    let same : wr32 p.0 0 (u32 p.1) ≡ buf = cc e in
    let read = rd32-wr32 p.0 0 (u32 p.1) (omega (arith, fits, h.frame.same_length)) (omega arith) in
    rw (← same) (record {
      frame = SameBehind-trans h.frame (wr32-SameBehind size p.0 0 (u32 p.1) (omega arith));
      inside = omega (arith, read, h.inside);
    })

-- The buffer is cleared, and the fixed part of the message is written.
start-SameBehind :
    (size : ℕ) (buf : List ℕ)
    → 32 ≤ size
    → SameBehind size buf
        (fill_ifinfomsg (fill_header (clear buf 0 size) 16 create_flags) 0 0xFFFFFFFF)
unfolding fill_ifinfomsg
start-SameBehind size buf room = SameBehind-trans (clear-SameBehind size buf 0 size (omega arith)) (
    SameBehind-trans (wr16-SameBehind size _ 4 16 (omega arith)) (
      SameBehind-trans (wr16-SameBehind size _ 6 create_flags (omega arith)) (
        SameBehind-trans (wr32-SameBehind size _ 8 1 (omega arith)) (
          SameBehind-trans (set-SameBehind size 16 (u8 0) _ (omega arith))
            (wr32-SameBehind size _ 28 0xFFFFFFFF (omega arith))))))

-- Where `netlink_fill_create_veth` succeeds with a capacity below 4 GB that is not above the number of
-- bytes in the buffer, no byte from the capacity on is changed, and the length that the message tells is
-- not above the capacity, whatever the names are.
pub netlink_fill_create_veth-IsMessage :
    (before : List ℕ) (size : ℕ) (host_name peer_name : List ℕ) (nsfd : ℕ) (buf : List ℕ)
    → size ≤ length before
    → size < 2 ^ 32
    → netlink_fill_create_veth before size host_name peer_name nsfd ≡ some buf
    → IsMessage size before buf
unfolding netlink_fill_create_veth
netlink_fill_create_veth-IsMessage before size host_name peer_name nsfd buf fits small e =
    let h = fill_header (clear before 0 size) 16 create_flags in
    let start = fill_ifinfomsg h 0 0xFFFFFFFF in
    let (n, n_done, e₁) = bind_cases (netlink_put_string start size 32 3 host_name) _ buf e in
    let (l, l_done, e₂) = bind_cases (fill_veth_linkinfo n.0 size n.1 peer_name nsfd) _ buf e₁ in
    let room = netlink_put_string-room start size 32 3 host_name n n_done in
    let hn = netlink_put_string-Fits start size 32 3 host_name n n_done in
    let hl = fill_veth_linkinfo-Fits n.0 size n.1 peer_name nsfd l l_done in
    sealed size before l buf (omega (arith, room)) fits small
      (record {
        frame =
            SameBehind-trans (start-SameBehind size before (omega (arith, room)))
              (SameBehind-trans hn.frame hl.frame);
        inside = hl.inside;
      })
      e₂
