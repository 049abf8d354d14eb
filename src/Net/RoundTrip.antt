-- ===== src/Net/RoundTrip.antt =====
-- A row of attributes that were put into a buffer is read back.
use micro_container.Prelude.{
  le→leb, length, get_or, ◌>>=◌, ℕ, zero, suc, ◌+◌, ◌-◌, ◌^◌, ◌≤◌, ◌<◌, ◌≡◌, refl, ◌∙◌, Option,
  some, List, [], ◌∷◌, arith, leb, Option-cases, All, inl, inr, false,
}
use micro_container.Net.{NlAttr, align4, netlink_put_attr, slice, nla_walk}
use micro_container.Net.Walk.{slice_same, netlink_put_attr-IsPut, IsPut}
use micro_container.Ext4.Bytes.{rd16}
use micro_container.Ext4.Bytes.RoundTrip.{rd16_same}

-- Calls of `netlink_put_attr` one after the other.
abbrev pub put_all : List ℕ → ℕ → ℕ → List NlAttr → Option (List ℕ × ℕ)
put_all buf size off [] = some (buf, off)
put_all buf size off (attr ∷ attrs) =
    netlink_put_attr buf size off attr >>= λ put. put_all put.0 size put.1 attrs

abbrev pub IsSmall : NlAttr → Type 0
IsSmall attr = attr.kind < 2 ^ 16

pub record AllPut (buf : List ℕ) (off : ℕ) (attrs : List NlAttr) (buf' : List ℕ) (off' : ℕ)
    : Type 0 where
  pub same_length : length buf' ≡ length buf
  pub before : (j : ℕ) → j < off → get_or buf' j 0 ≡ get_or buf j 0
  pub ahead : off ≤ off'
  pub walked : (fuel : ℕ) → length attrs ≤ fuel → nla_walk fuel buf' off (off' - off) ≡ attrs

walk_step :
    (fuel : ℕ) (buf : List ℕ) (off len n : ℕ)
    → rd16 buf off ≡ 4 + n
    → 4 + n ≤ len
    → nla_walk (suc fuel) buf off len
      ≡ record { kind = rd16 buf (off + 2); payload = slice buf (off + 4) n }
        ∷ nla_walk fuel buf (off + align4 (4 + n)) (len - align4 (4 + n))
unfolding nla_walk
walk_step fuel buf off len n e fits =
    let less : 4 + n - 4 ≡ n = omega arith in
    rw
      (e, le→leb 4 len (omega arith), le→leb 4 (4 + n) (omega arith), le→leb (4 + n) len fits, less)
      refl

walk_nothing : (fuel : ℕ) (buf : List ℕ) (off : ℕ) → nla_walk fuel buf off (off - off) ≡ []
unfolding nla_walk
walk_nothing zero buf off = refl
walk_nothing (suc fuel) buf off =
    let none_left : leb 4 (off - off) ≡ false = ground arith in rw none_left refl

AllPut-cons :
    (buf : List ℕ) (off : ℕ) (attr : NlAttr) (attrs : List NlAttr) (b : List ℕ) (o : ℕ)
    (buf' : List ℕ) (off' : ℕ)
    → IsPut buf off attr b o
    → AllPut b o attrs buf' off'
    → AllPut buf off (attr ∷ attrs) buf' off'
AllPut-cons buf off attr attrs b o buf' off' p r =
    let n = length attr.payload in
    let same : (j : ℕ) → j < o → get_or buf' j 0 ≡ get_or b j 0 = r.before in
    record {
      same_length = r.same_length ∙ p.same_length;
      before = λ j less. r.before j (omega (arith, less, p.next)) ∙ p.before j less;
      ahead = omega (arith, r.ahead, p.next);
      walked = elim [
        | zero ↦ λ enough. absurd (omega (arith, enough))
        | suc fuel ↦ λ enough.
            let gap : off' - off - align4 (4 + n) ≡ off' - o = omega (arith, p.next) in
            let rest : nla_walk fuel buf' (off + align4 (4 + n)) (off' - off - align4 (4 + n))
                ≡ attrs =
              rw (gap, ← p.next) (r.walked fuel (omega (arith, enough))) in
            walk_step fuel buf' off (off' - off) n
              (rd16_same b buf' off (λ j a c. same j (omega (arith, p.next))) ∙ p.length_read)
              (omega (arith, p.next, r.ahead))
            ∙ rw
                (
                  rest,
                  rd16_same b buf' (off + 2) (λ j a c. same j (omega (arith, p.next)))
                      ∙ p.kind_read,
                  slice_same b buf' (off + 4) n (λ j a c. same j (omega (arith, p.next)))
                      ∙ p.payload_read,
                )
                refl
      ];
    }

pub put_all-AllPut :
    (attrs : List NlAttr) (buf : List ℕ) (size off : ℕ) (buf' : List ℕ) (off' : ℕ)
    → length buf ≡ size
    → All IsSmall attrs
    → put_all buf size off attrs ≡ some (buf', off')
    → AllPut buf off attrs buf' off'
put_all-AllPut [] buf size off buf' off' fits small e =
    let b : buf ≡ buf' = cc e in
    let o : off ≡ off' = cc e in
    rw (← b, ← o)
      (record {
        same_length = refl;
        before = λ j less. refl;
        ahead = omega arith;
        walked = λ fuel enough. walk_nothing fuel buf off;
      })
put_all-AllPut (attr ∷ attrs) buf size off buf' off' fits small e =
    elim (Option-cases (netlink_put_attr buf size off attr)) [
      | inl refused ↦ absurd (cc (rw refused at e))
      | inr ((b, o), put) ↦
          let p = netlink_put_attr-IsPut buf off attr b o small.0 (rw fits put) in
          AllPut-cons buf off attr attrs b o buf' off' p
            (put_all-AllPut attrs b size o buf' off' (p.same_length ∙ fits) small.1 (rw put at e))
    ]

-- Where a row of attributes, with types that fit 16 bits, fits the buffer behind `off`, the readers'
-- walk from there finds the same attributes in the same order and no other, in any number of rounds
-- that is not below theirs, and no byte before `off` was changed.
pub nla_walk-put_all :
    (attrs : List NlAttr) (buf : List ℕ) (off : ℕ) (buf' : List ℕ) (off' fuel : ℕ)
    → All IsSmall attrs
    → length attrs ≤ fuel
    → put_all buf (length buf) off attrs ≡ some (buf', off')
    → (nla_walk fuel buf' off (off' - off) ≡ attrs)
      × ((j : ℕ) → j < off → get_or buf' j 0 ≡ get_or buf j 0)
nla_walk-put_all attrs buf off buf' off' fuel small enough e =
    let r = put_all-AllPut attrs buf (length buf) off buf' off' refl small e in
    (r.walked fuel enough, r.before)
