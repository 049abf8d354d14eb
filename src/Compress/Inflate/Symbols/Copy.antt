-- ===== src/Compress/Inflate/Symbols/Copy.antt =====
-- `copy_dist` against the meaning of a deflate copy.
use micro_container.Prelude.{
  ltb, Bool-cases, length, get_or, length-append, get_or-append_left, get_or-append_last, u32, ℕ,
  zero, suc, ◌+◌, ◌-◌, ◌^◌, ◌≤◌, ◌<◌, ◌≡◌, refl, sym, ap, ◌∙◌, ◌⊎◌, inl, inr, true, false, ◌||◌,
  List, [], ◌∷◌, ◌++◌, arith,
}
use micro_container.Mem.Buf.{Buf, buf_grow}
use micro_container.Mem.Buf.Growth.{IsValid, buf_grow_room, grow_bounded}
use micro_container.Compress.Inflate.Symbols.{copy_loop, copy_dist}

abbrev pub byte : Buf → ℕ → ℕ
byte b i = get_or b.bytes i 0

-- `out'` is `out` with `n` more bytes, each of them the byte `distance` places before it.
pub record IsCopy (out : Buf) (n distance : ℕ) (out' : Buf) : Type 0 where
  pub counted : length out'.bytes ≡ out'.len
  pub longer : out'.len ≡ out.len + n
  pub kept : (i : ℕ) → i < out.len → byte out' i ≡ byte out i
  pub copied : (i : ℕ) → i < n → byte out' (out.len + i) ≡ byte out' (out.len + i - distance)
  pub same_cap : out'.cap ≡ out.cap

copy_loop-IsCopy :
    (n : ℕ) (out : Buf) (distance : ℕ)
    → length out.bytes ≡ out.len
    → 1 ≤ distance
    → distance ≤ out.len
    → IsCopy out n distance (copy_loop n out distance)
unfolding copy_loop
copy_loop-IsCopy zero out distance e pos fits = record {
  counted = e;
  longer = omega arith;
  kept = λ i h. refl;
  copied = λ i h. absurd (omega arith);
  same_cap = refl;
}
copy_loop-IsCopy (suc n) out distance e pos fits =
    let b : ℕ = byte out (out.len - distance) in
    let out₁ : Buf = record out { bytes = out.bytes ++ b ∷ []; len = out.len + 1 } in
    let r : IsCopy out₁ n distance (copy_loop n out₁ distance) =
      copy_loop-IsCopy n out₁ distance (omega (arith, length-append out.bytes (b ∷ []))) pos
        (omega arith) in
    let old : (i : ℕ) → i < out.len → byte (copy_loop n out₁ distance) i ≡ byte out i =
      λ i h. r.kept i (omega arith) ∙ get_or-append_left out.bytes (b ∷ []) i 0 (omega arith) in
    record {
      counted = r.counted;
      longer = omega (arith, r.longer);
      kept = old;
      copied = λ i h.
          copied_at (copy_loop n out₁ distance) b old
            (r.kept out.len (omega arith) ∙ get_or-append_last out.bytes b out.len 0 e) r.copied i
            h;
      same_cap = r.same_cap;
    }
  where
    copied_at :
        (out' : Buf) (b : ℕ)
        → ((i : ℕ) → i < out.len → byte out' i ≡ byte out i)
        → byte out' out.len ≡ byte out (out.len - distance)
        → ((i : ℕ) → i < n → byte out' (out.len + 1 + i) ≡ byte out' (out.len + 1 + i - distance))
        → (i : ℕ) → i < suc n
        → byte out' (out.len + i) ≡ byte out' (out.len + i - distance)
    copied_at out' b old first rest zero h =
        ap (byte out') (omega arith)
        ∙ first
        ∙ sym (old (out.len - distance) (omega arith))
        ∙ ap (byte out') (omega arith)
    copied_at out' b old first rest (suc i) h =
        ap (byte out') (omega arith) ∙ rest i (omega arith) ∙ ap (byte out') (omega arith)

-- What `copy_dist` does, on every branch: a copy of 3 to 258 bytes from a distance within the
-- output is made, inside the allocation, and anything else is refused with the output as it was.
pub copy_dist-IsCopy :
    (out : Buf) (n distance : ℕ)
    → IsValid out
    → out.cap < 2 ^ 60
    → n < 2 ^ 31
    → (3 ≤ n)
        × (n ≤ 258)
        × (1 ≤ distance)
        × (distance ≤ out.len)
        × ((copy_dist out n distance).0 ≡ true)
        × IsCopy (buf_grow out n) n distance (copy_dist out n distance).1
        × IsValid (copy_dist out n distance).1
        × ((i : ℕ) → i < out.len → byte (copy_dist out n distance).1 i ≡ byte out i)
      ⊎ ¬ ((3 ≤ n) × (n ≤ 258) × (1 ≤ distance) × (distance ≤ out.len))
        × (copy_dist out n distance ≡ (false, out))
unfolding copy_dist
copy_dist-IsCopy out n distance v small hn = elim (Bool-cases (ltb 255 (u32 (n + 2 ^ 32 - 3)))) [
  | inl refused ↦ rw refused (inr ((λ h. ground (arith, h.0, h.1)), refl))
  | inr sized ↦ elim (Bool-cases (ltb distance 1 || ltb out.len distance)) [
    | inl refused ↦ rw (sized, refused) (inr ((λ h. ground (arith, h.2, h.3)), refl))
    | inr near ↦
        let room = buf_grow_room out n v (omega arith) in
        let big = grow_bounded out v small n (omega arith) in
        let c : IsCopy (buf_grow out n) n distance (copy_loop n (buf_grow out n) distance) =
          copy_loop-IsCopy n (buf_grow out n) distance (ap length room.1 ∙ v.counted ∙ sym room.2)
            (ground arith) (ground (arith, room.2)) in
        rw (sized, near)
          (inl (
            ground arith,
            ground arith,
            ground arith,
            ground arith,
            refl,
            c,
            record {
              counted = c.counted;
              inside = omega (arith, room.0, room.2, c.longer, c.same_cap);
              bounded = omega (arith, big, c.same_cap);
            },
            λ i h. c.kept i (omega (arith, room.2)) ∙ ap (λ (t : List ℕ). get_or t i 0) room.1,
          ))
  ]
]
