-- ===== src/Compress/Gzip/Header.antt =====
-- The loop that skips a name or a comment in the header stops at the first NUL byte.
use mathlib.Core.Path.{subst}
use micro_container.Prelude.{
  ltb, leb, ◌==◌, leb→le, leb→gt, ==→eq, Bool-cases, get_or, ℕ, zero, suc, ◌+◌, ◌≤◌, ◌<◌, ◌≡◌, refl,
  sym, ◌≢◌, ◌⊎◌, inl, inr, not, ◌&&◌, none, some, List, arith,
}
use micro_container.Compress.Gzip.{string_end, skip_string}

string_end-stops :
    (fuel : ℕ) (p : List ℕ) (in_len o : ℕ)
    → in_len ≤ o + fuel
    → (o ≤ string_end fuel p in_len o)
      × ((in_len ≤ string_end fuel p in_len o) ⊎ (get_or p (string_end fuel p in_len o) 0 ≡ 0))
      × ((i : ℕ) → o ≤ i → i < string_end fuel p in_len o → get_or p i 0 ≢ 0)
unfolding string_end
string_end-stops zero p in_len o h =
    (omega arith, inl (omega arith), λ i lo hi. absurd (omega arith))
string_end-stops (suc fuel) p in_len o h =
    elim (Bool-cases (ltb o in_len && not (get_or p o 0 == 0))) [
      | inl more ↦
          let r = string_end-stops fuel p in_len (o + 1) (omega arith) in
          let nonzero : get_or p o 0 ≢ 0 = ground arith in
          rw more (
            omega (arith, r.0),
            r.1,
            λ i lo hi. elim (Bool-cases (i == o)) [
              | inl same ↦ subst (λ (t : ℕ). get_or p t 0 ≢ 0) (sym (==→eq i o same)) nonzero
              | inr later ↦ r.2 i (ground arith) hi
            ],
          )
      | inr stop ↦ rw stop (omega arith, ground arith, λ i lo hi. absurd (omega arith))
    ]

-- `skip_string` either moves behind the first NUL byte at or after the offset, which lies in the
-- file, or refuses a file that has no NUL byte from there on.
pub skip_string-first_nul :
    (p : List ℕ) (in_len o : ℕ)
    → ((e : ℕ) × (skip_string p in_len o ≡ some (e + 1))
        × (o ≤ e)
        × (e < in_len)
        × (get_or p e 0 ≡ 0)
        × ((i : ℕ) → o ≤ i → i < e → get_or p i 0 ≢ 0))
      ⊎ (skip_string p in_len o ≡ none) × ((i : ℕ) → o ≤ i → i < in_len → get_or p i 0 ≢ 0)
unfolding skip_string
skip_string-first_nul p in_len o =
    let e : ℕ = string_end in_len p in_len o in
    let r = string_end-stops in_len p in_len o (omega arith) in
    elim (Bool-cases (leb in_len e)) [
      | inl past ↦ rw past (inr (refl, λ i lo hi. r.2 i lo (omega (arith, leb→le in_len e past))))
      | inr found ↦ rw found (inl (e, refl, r.0, leb→gt in_len e found, ground arith, r.2))
    ]
