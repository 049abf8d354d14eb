-- ===== src/Crc/Table.antt =====
-- src/compress/crc32.c and src/ext4/csum.c: the table, its static state, and the byte loop.
use micro_container.Prelude.{
  ℕ, zero, suc, ◌+◌, ◌/◌, ◌^◌, ◌≤◌, ◌<◌, ◌≡◌, refl, ◌∙◌, ◌⊎◌, inl, inr, arith, Bool, true, false,
  Bool-cases, List, [], ◌∷◌, bit_and, bit_xor, length, get_or, set, replicate, not32, if◌then◌else◌,
  get_or-set_self, get_or-set_ne, length-set, length-replicate,
}
use micro_container.Crc.Round.{rounds}

abbrev pub crc32_poly : ℕ
crc32_poly = 0xEDB88320

abbrev pub crc32c_poly : ℕ
crc32c_poly = 0x82F63B78

-- The static variables: the table of 256 words, and whether it is filled.
pub record Tables : Type 0 where
  pub tab : List ℕ
  pub ready : Bool

-- Static storage starts as zeros.
abbrev pub untouched : Tables
untouched = record { tab = replicate 256 0; ready = false }

-- `for (uint32_t i = 0; i < 256; i++) { c = i; …; tab[i] = c; }`, with the rounds left.
unfoldable pub fill : ℕ → ℕ → ℕ → List ℕ → List ℕ
fill poly zero i tab = tab
fill poly (suc left) i tab = fill poly left (i + 1) (set tab i (rounds poly 8 i))

-- `crc32_init`, and the test on `init` in `ext4_crc32c`.
unfoldable pub build_once : ℕ → Tables → Tables
build_once poly s = if s.ready then s else record { tab = fill poly 256 0 s.tab; ready = true }

unfoldable pub crc32_init : Tables → Tables
unfolding build_once fill rounds
crc32_init = build_once crc32_poly

-- `for (size_t i = 0; i < len; i++) crc = tab[(crc ^ p[i]) & 0xFF] ^ (crc >> 8);`
unfoldable pub byte_loop : List ℕ → ℕ → List ℕ → ℕ
byte_loop tab crc [] = crc
byte_loop tab crc (p ∷ data_) =
    byte_loop tab (bit_xor (get_or tab (bit_and (bit_xor crc p) 0xFF) 0) (crc / 2 ^ 8)) data_

unfoldable pub crc32_update : Tables → ℕ → List ℕ → ℕ
unfolding byte_loop
crc32_update s crc bytes = not32 (byte_loop s.tab (not32 crc) bytes)

-- The value, and the static variables after the call.
unfoldable pub ext4_crc32c : Tables → ℕ → List ℕ → ℕ × Tables
unfolding build_once fill byte_loop
ext4_crc32c s crc bytes =
    let s' = build_once crc32c_poly s in (not32 (byte_loop s'.tab (not32 crc) bytes), s')

-- A table whose entries are the eight-round values of their indices.
abbrev pub IsTable : ℕ → List ℕ → Type 0
IsTable poly tab = (i : ℕ) → i < 256 → get_or tab i 0 ≡ rounds poly 8 i

-- The static variables between calls: a filled table, or room for one.
pub record IsTables (poly : ℕ) (s : Tables) : Type 0 where
  pub room : length s.tab ≡ 256
  pub filled : s.ready ≡ true → IsTable poly s.tab

pub length-fill : (poly left i : ℕ) (tab : List ℕ) → length (fill poly left i tab) ≡ length tab
unfolding fill
length-fill poly zero i tab = refl
length-fill poly (suc left) i tab =
    length-fill poly left (i + 1) (set tab i (rounds poly 8 i)) ∙ length-set tab i _

-- An entry that the remaining loop does not reach keeps its value.
fill_below :
    (poly left i j : ℕ) (tab : List ℕ) → j < i → get_or (fill poly left i tab) j 0 ≡ get_or tab j 0
unfolding fill
fill_below poly zero i j tab h = refl
fill_below poly (suc left) i j tab h =
    fill_below poly left (i + 1) j (set tab i (rounds poly 8 i)) (omega arith)
    ∙ get_or-set_ne tab i j (rounds poly 8 i) 0 (omega arith)

fill_entry :
    (poly left i j : ℕ) (tab : List ℕ)
    → i ≤ j
    → j < i + left
    → i + left ≤ length tab
    → get_or (fill poly left i tab) j 0 ≡ rounds poly 8 j
unfolding fill
fill_entry poly zero i j tab lo hi fits = absurd (omega arith)
fill_entry poly (suc left) i j tab lo hi fits = elim (first_or_later i j lo) [
  | inl e ↦ rw (← e) (
      fill_below poly left (i + 1) i (set tab i (rounds poly 8 i)) (omega arith)
      ∙ get_or-set_self tab i (rounds poly 8 i) 0 (omega arith))
  | inr l ↦
      fill_entry poly left (i + 1) j (set tab i (rounds poly 8 i)) l (omega arith)
        (omega (arith, length-set tab i (rounds poly 8 i)))
]
  where
    first_or_later : (i j : ℕ) → i ≤ j → (i ≡ j) ⊎ (i + 1 ≤ j)
    first_or_later i j h = omega arith

pub build_once-IsTables :
    (poly : ℕ) (s : Tables) → IsTables poly s → IsTables poly (build_once poly s)
unfolding build_once
build_once-IsTables poly s v = elim (Bool-cases s.ready) [
  | inl r ↦ simp r v
  | inr n ↦ simp n (record {
    room = length-fill poly 256 0 s.tab ∙ v.room;
    filled =
        λ _ i h. fill_entry poly 256 0 i s.tab (omega arith) (omega arith) (omega (arith, v.room));
  })
]

pub build_once-ready : (poly : ℕ) (s : Tables) → (build_once poly s).ready ≡ true
unfolding build_once
build_once-ready poly s = ground arith

pub build_once-IsTable :
    (poly : ℕ) (s : Tables) → IsTables poly s → IsTable poly (build_once poly s).tab
build_once-IsTable poly s v = (build_once-IsTables poly s v).filled (build_once-ready poly s)

pub untouched-IsTables : (poly : ℕ) → IsTables poly untouched
untouched-IsTables poly = record {
  room = length-replicate {A = ℕ} 256 0;
  filled = λ e. absurd (cc e);
}
