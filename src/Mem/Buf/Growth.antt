-- ===== src/Mem/Buf/Growth.antt =====
-- A buffer's capacity always covers what is written, and grows geometrically.
use Prim.Native.Nat.{max}
use micro_container.Prelude.{
  leb, leb→le, Bool-cases, length, u64, ℕ, ◌+◌, ◌-◌, ◌*◌, ◌/◌, ◌%◌, ◌^◌, ◌≤◌, ◌<◌, bit_and, ◌≡◌,
  refl, ◌⊎◌, inl, inr, arith, length-append, ap, List, [], ◌∷◌, ◌++◌,
}
use micro_container.Bits.{bit_and-mask, bit_and-shift}
use micro_container.Mem.Buf.{Buf, new_cap, buf_grow, buf_append, buf_append_c}

-- What is written is counted, and stays inside the allocation. No allocation takes a quarter of
-- the address space.
pub record IsValid (b : Buf) : Type 0 where
  pub counted : length b.bytes ≡ b.len
  pub inside : b.len ≤ b.cap
  pub bounded : b.cap < 2 ^ 62

-- `x & ~(size_t)63`.
round_down : (x : ℕ) → x < 2 ^ 64 → bit_and x (2 ^ 64 - 1 - 63) ≡ x / 64 * 64
round_down x h = omega (arith, bit_and-shift 6 x (2 ^ 58 - 1), bit_and-mask 58 (x / 64))

new_cap_bounds :
    (b : Buf) (need : ℕ)
    → IsValid b
    → need < 2 ^ 62
    → b.cap < b.len + need
    → (b.len + need ≤ new_cap b need)
      × (2 * b.cap ≤ new_cap b need)
      × (new_cap b need % 64 ≡ 0)
      × (new_cap b need ≤ b.len + need + b.cap + 127)
unfolding new_cap
new_cap_bounds b need v h more = omega (
  arith,
  round_down
      (u64 (u64 (b.cap + max (max b.cap 64) (u64 (u64 (b.len + need) + 2 ^ 64 - b.cap))) + 63))
      (omega arith),
)

-- After `buf_grow` there is room for `need` more bytes, and what is written is as it was. A
-- capacity that was large enough is kept; any other at least doubles, to a multiple of 64.
pub buf_grow_room :
    (b : Buf) (need : ℕ)
    → IsValid b
    → need < 2 ^ 62
    → (b.len + need ≤ (buf_grow b need).cap)
      × ((buf_grow b need).bytes ≡ b.bytes)
      × ((buf_grow b need).len ≡ b.len)
      × (((buf_grow b need).cap ≡ b.cap)
          ⊎ (b.cap < b.len + need)
            × (2 * b.cap ≤ (buf_grow b need).cap)
            × ((buf_grow b need).cap % 64 ≡ 0))
unfolding buf_grow
buf_grow_room b need v h = elim (Bool-cases (leb (u64 (b.len + need)) b.cap)) [
  | inl enough ↦
      simp enough (omega (arith, leb→le (u64 (b.len + need)) b.cap enough), refl, refl, inl refl)
  | inr short ↦
      let more : b.cap < b.len + need = ground arith in
      let bounds = new_cap_bounds b need v h more in
      simp short (bounds.0, refl, refl, inr (more, bounds.1, bounds.2))
]

module _ (b : Buf) (v : IsValid b) (small : b.cap < 2 ^ 60) where
  pub grow_bounded : (need : ℕ) → need < 2 ^ 60 → (buf_grow b need).cap < 2 ^ 62
  unfolding buf_grow
  grow_bounded need h = elim (Bool-cases (leb (u64 (b.len + need)) b.cap)) [
    | inl enough ↦ simp enough v.bounded
    | inr short ↦
        let more : b.cap < b.len + need = ground arith in
        let bounds = new_cap_bounds b need v (omega arith) more in
        simp short (omega (arith, bounds.3, v.inside))
  ]

  -- On a buffer below 2^60 bytes, `buf_append` writes its bytes behind the others, all of them
  -- inside the allocation.
  pub buf_append-IsValid :
      (bytes : List ℕ)
      → length bytes < 2 ^ 60
      → ((buf_append b bytes).bytes ≡ b.bytes ++ bytes) × IsValid (buf_append b bytes)
  unfolding buf_append
  buf_append-IsValid bytes h =
      let room = buf_grow_room b (length bytes) v (omega arith) in
      (
        ap (λ (t : List ℕ). t ++ bytes) room.1,
        record {
          counted = omega (
            arith,
            ap length room.1,
            room.2,
            length-append (buf_grow b (length bytes)).bytes bytes,
            v.counted,
            v.inside,
          );
          inside = omega (arith, room.0, room.2, v.inside);
          bounded = grow_bounded (length bytes) h;
        },
      )

  pub buf_append_c-buf_append : (c : ℕ) → buf_append_c b c ≡ buf_append b (c ∷ [])
  unfolding buf_append buf_append_c
  buf_append_c-buf_append c = refl
