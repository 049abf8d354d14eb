-- ===== src/Net/Nest.antt =====
-- A nest of attributes is read back.
use micro_container.Prelude.{
  ltb, Bool-cases, length, get_or, All, u16, ℕ, zero, suc, ◌+◌, ◌-◌, ◌^◌, ◌≤◌, ◌<◌, ◌≡◌, refl, sym,
  ap, ◌∙◌, inl, inr, some, List, arith,
}
use micro_container.Net.{NlAttr, align4, netlink_nest_start, netlink_nest_end, nla_walk}
use micro_container.Net.Walk.{slice_same}
use micro_container.Net.RoundTrip.{put_all, IsSmall, AllPut, put_all-AllPut}
use micro_container.Ext4.Bytes.{rd16, wr16}
use micro_container.Ext4.Bytes.RoundTrip.{length-wr16, get_or-wr16, rd16-wr16, rd16_same}

-- The walk looks at no byte before its start.
nla_walk_same :
    (fuel : ℕ) (p q : List ℕ) (off len : ℕ)
    → ((j : ℕ) → off ≤ j → get_or q j 0 ≡ get_or p j 0)
    → nla_walk fuel q off len ≡ nla_walk fuel p off len
unfolding nla_walk
nla_walk_same zero p q off len h = refl
nla_walk_same (suc fuel) p q off len h =
    let n = rd16 p off in
    rw
      (
        rd16_same p q off (λ j a b. h j a),
        rd16_same p q (off + 2) (λ j a b. h j (omega arith)),
        slice_same p q (off + 4) (n - 4) (λ j a b. h j (omega arith)),
        nla_walk_same fuel p q (off + align4 n) (len - align4 n) (λ j a. h j (omega arith)),
      )
      refl

-- A nest that was started, filled with the attributes and ended: its header tells its length and its
-- type, and the walk inside finds the attributes.
pub record IsClosed (buf : List ℕ) (start off kind : ℕ) (attrs : List NlAttr) : Type 0 where
  pub length_read : rd16 buf start ≡ off - start
  pub kind_read : rd16 buf (start + 2) ≡ kind
  pub walked : nla_walk (length attrs) buf (start + 4) (off - (start + 4)) ≡ attrs

nest_end-IsClosed :
    (buf b b' : List ℕ) (start off kind : ℕ) (attrs : List NlAttr)
    → kind < 2 ^ 16
    → off - start < 2 ^ 16
    → start + 4 ≤ length buf
    → wr16 buf (start + 2) (u16 kind) ≡ b
    → AllPut b (start + 4) attrs b' off
    → IsClosed (netlink_nest_end b' start off) start off kind attrs
unfolding netlink_nest_end
nest_end-IsClosed buf b b' start off kind attrs small short room e r =
    let len = length-wr16 buf (start + 2) (u16 kind) in
    let len' = r.same_length in
    let as_b = ap length e in
    let frame : (j : ℕ)
        → start + 2 ≤ j
        → get_or (wr16 b' start (u16 (off - start))) j 0 ≡ get_or b' j 0 =
      λ j a. get_or-wr16 b' start (u16 (off - start)) j (inr a) in
    record {
      length_read =
          rd16-wr16 b' start (u16 (off - start)) (omega (arith, len, len', as_b)) (omega arith)
          ∙ omega arith;
      kind_read =
          rd16_same b' _ (start + 2) (λ j a c. frame j a)
          ∙ rd16_same b b' (start + 2) (λ j a c. r.before j (omega arith))
          ∙ ap (λ x. rd16 x (start + 2)) (sym e)
          ∙ rd16-wr16 buf (start + 2) (u16 kind) (omega arith) (omega arith)
          ∙ omega arith;
      walked =
          nla_walk_same (length attrs) b' _ (start + 4) (off - (start + 4))
            (λ j a. frame j (omega arith))
          ∙ r.walked (length attrs) (omega arith);
    }

-- Where a nest of a type that fits 16 bits is started, filled with attributes and ended within 64 KB,
-- its header tells its length and its type, and the walk inside finds the attributes.
pub netlink_nest_end-IsClosed :
    (buf b b' : List ℕ) (start inside off kind : ℕ) (attrs : List NlAttr)
    → kind < 2 ^ 16
    → All IsSmall attrs
    → off - start < 2 ^ 16
    → netlink_nest_start buf (length buf) start kind ≡ some (b, inside)
    → put_all b (length b) inside attrs ≡ some (b', off)
    → IsClosed (netlink_nest_end b' start off) start off kind attrs
unfolding netlink_nest_start
netlink_nest_end-IsClosed buf b b' start inside off kind attrs small all short started filled =
    elim (Bool-cases (ltb (length buf) (start + 4))) [
      | inl full ↦ absurd (cc (rw full at started))
      | inr room ↦
          let made : wr16 buf (start + 2) (u16 kind) ≡ b = cc (rw room at started) in
          let at : start + 4 ≡ inside = cc (rw room at started) in
          nest_end-IsClosed buf b b' start off kind attrs small short (ground arith) made
            (put_all-AllPut attrs b (length b) (start + 4) b' off refl all (rw (← at) at filled))
    ]
