-- ===== src/Net/Walk.antt =====
-- Attributes that were put into a buffer are read back.
use micro_container.Prelude.{
  ltb, Bool-cases, length, get_or, set, length-set, get_or-set_self, get_or-set_ne, u16, ℕ, zero,
  suc, ◌+◌, ◌-◌, ◌^◌, ◌≤◌, ◌<◌, ◌≡◌, refl, ap, ◌∙◌, ◌⊎◌, inl, inr, ◌||◌, some, List, [], ◌∷◌, arith,
}
use micro_container.Net.{NlAttr, align4, write_attr, netlink_put_attr, slice}
use micro_container.Ext4.Bytes.{rd16, wr16}
use micro_container.Ext4.Bytes.RoundTrip.{length-wr16, get_or-wr16, rd16-wr16, rd16_same}
use micro_container.Ext4.Superblock.{memcpy}
use micro_container.Ext4.Superblock.Verify.{length-memcpy}

-- A byte before or behind the bytes is as it was.
pub get_or-memcpy :
    (p : List ℕ) (o : ℕ) (bytes : List ℕ) (j : ℕ)
    → (j < o) ⊎ (o + length bytes ≤ j)
    → get_or (memcpy p o bytes) j 0 ≡ get_or p j 0
unfolding memcpy
get_or-memcpy p o [] j h = refl
get_or-memcpy p o (b ∷ bytes) j h =
    get_or-memcpy (set p o b) (o + 1) bytes j (omega arith) ∙ get_or-set_ne p o j b 0 (omega arith)

slice-memcpy :
    (p : List ℕ) (o : ℕ) (bytes : List ℕ)
    → o + length bytes ≤ length p
    → slice (memcpy p o bytes) o (length bytes) ≡ bytes
unfolding memcpy slice
slice-memcpy p o [] h = refl
slice-memcpy p o (b ∷ bytes) h =
    rw
      (
        get_or-memcpy (set p o b) (o + 1) bytes o (inl (omega arith)),
        get_or-set_self p o b 0 (omega arith),
      )
      (ap (λ x. b ∷ x) (slice-memcpy (set p o b) (o + 1) bytes (omega (arith, length-set p o b))))

pub slice_same :
    (p q : List ℕ) (o n : ℕ)
    → ((j : ℕ) → o ≤ j → j < o + n → get_or q j 0 ≡ get_or p j 0)
    → slice q o n ≡ slice p o n
unfolding slice
slice_same p q o zero h = refl
slice_same p q o (suc n) h = rw (h o (omega arith) (omega arith)) (
    ap (λ x. get_or p o 0 ∷ x)
      (slice_same p q (o + 1) n (λ j a b. h j (omega arith) (omega arith))))

-- The attribute stands in the buffer, and nothing before it was changed.
pub record IsPut (buf : List ℕ) (off : ℕ) (attr : NlAttr) (buf' : List ℕ) (off' : ℕ) : Type 0 where
  pub same_length : length buf' ≡ length buf
  pub length_read : rd16 buf' off ≡ 4 + length attr.payload
  pub kind_read : rd16 buf' (off + 2) ≡ attr.kind
  pub payload_read : slice buf' (off + 4) (length attr.payload) ≡ attr.payload
  pub before : (j : ℕ) → j < off → get_or buf' j 0 ≡ get_or buf j 0
  pub next : off' ≡ off + align4 (4 + length attr.payload)
  pub inside : off' ≤ length buf

write_attr-IsPut :
    (buf : List ℕ) (off : ℕ) (attr : NlAttr)
    → attr.kind < 2 ^ 16
    → length attr.payload < 65532
    → off + align4 (4 + length attr.payload) ≤ length buf
    → IsPut buf off attr (write_attr buf off attr) (off + align4 (4 + length attr.payload))
unfolding write_attr
write_attr-IsPut buf off attr small short room =
    let n = length attr.payload in
    let p = wr16 buf off (u16 (4 + n)) in
    let q = wr16 p (off + 2) attr.kind in
    let r = memcpy q (off + 4) attr.payload in
    let lp = length-wr16 buf off (u16 (4 + n)) in
    let lq = length-wr16 p (off + 2) attr.kind in
    record {
      same_length = length-memcpy q (off + 4) attr.payload ∙ lq ∙ lp;
      length_read =
          rd16_same q r off (λ j a b. get_or-memcpy q (off + 4) attr.payload j (inl (omega arith)))
          ∙ rd16_same p q off (λ j a b. get_or-wr16 p (off + 2) attr.kind j (inl (omega arith)))
          ∙ rd16-wr16 buf off (u16 (4 + n)) (omega arith) (omega arith)
          ∙ omega arith;
      kind_read =
          rd16_same q r (off + 2)
            (λ j a b. get_or-memcpy q (off + 4) attr.payload j (inl (omega arith)))
          ∙ rd16-wr16 p (off + 2) attr.kind (omega (arith, lp)) small;
      payload_read = slice-memcpy q (off + 4) attr.payload (omega (arith, lp, lq));
      before = λ j less.
          get_or-memcpy q (off + 4) attr.payload j (inl (omega arith))
          ∙ get_or-wr16 p (off + 2) attr.kind j (inl (omega arith))
          ∙ get_or-wr16 buf off (u16 (4 + n)) j (inl less);
      next = refl;
      inside = room;
    }

pub netlink_put_attr-IsPut :
    (buf : List ℕ) (off : ℕ) (attr : NlAttr) (buf' : List ℕ) (off' : ℕ)
    → attr.kind < 2 ^ 16
    → netlink_put_attr buf (length buf) off attr ≡ some (buf', off')
    → IsPut buf off attr buf' off'
unfolding netlink_put_attr
netlink_put_attr-IsPut buf off attr buf' off' small e =
    elim (Bool-cases (ltb (65535 - 4) (length attr.payload))) [
      | inl long ↦ absurd (cc (rw long at e))
      | inr short ↦
          let alen = align4 (4 + length attr.payload) in
          elim (Bool-cases (ltb (length buf) off || ltb (length buf - off) alen)) [
            | inl full ↦ absurd (cc (rw (short, full) at e))
            | inr room ↦
                let e' = rw (short, room) at e in
                let b : write_attr buf off attr ≡ buf' = cc e' in
                let o : off + alen ≡ off' = cc e' in
                rw (← b, ← o) (write_attr-IsPut buf off attr small (ground arith) (ground arith))
          ]
    ]
