-- ===== src/Crc/Serial.antt =====
-- The table-driven loop against the bit-serial definition of the checksum.
use micro_container.Prelude.{
  ℕ, ◌*◌, ◌/◌, ◌%◌, ◌^◌, ◌<◌, ◌≡◌, refl, sym, ap, ◌∙◌, arith, List, [], ◌∷◌, ◌++◌, bit_and, bit_xor,
  get_or, not32, All, All-append, IsByte,
}
use micro_container.Bits.{bit_and-mask, bit_xor_shr, bit_xor-zero, bit_xor-shift, bit_xor-lt}
use micro_container.Crc.Round.{rounds, rounds_linear, rounds_byte, rounds-lt}
use micro_container.Crc.Table.{
  Tables, IsTable, IsTables, byte_loop, crc32_init, crc32_update, ext4_crc32c, crc32_poly,
  crc32c_poly, build_once-IsTable, build_once-IsTables,
}

-- The checksum's definition: each byte is added to the register, which then makes eight rounds.
abbrev pub serial : ℕ → ℕ → List ℕ → ℕ
serial poly crc [] = crc
serial poly crc (p ∷ bytes) = serial poly (rounds poly 8 (bit_xor crc p)) bytes

-- One round of the byte loop is eight rounds of the serial register.
table_step :
    (poly crc p : ℕ) (tab : List ℕ)
    → IsTable poly tab
    → p < 256
    → bit_xor (get_or tab (bit_and (bit_xor crc p) 0xFF) 0) (crc / 2 ^ 8)
      ≡ rounds poly 8 (bit_xor crc p)
table_step poly crc p tab ok hp =
    let x : ℕ = bit_xor crc p in
    let low : x % 256 < 256 = omega arith in
    let split : x ≡ bit_xor (x % 256) (x / 256 * 256) =
      omega (arith, bit_xor-shift 8 (x % 256) (x / 256) low) in
    let high : x / 256 ≡ crc / 256 =
      bit_xor_shr 8 crc p ∙ ap (bit_xor (crc / 256)) (omega arith) ∙ bit_xor-zero (crc / 256) in
    cc (
      bit_and-mask 8 x,
      ok (x % 256) low,
      ap (rounds poly 8) split,
      rounds_linear poly 8 (x % 256) (x / 256 * 256),
      rounds_byte poly (x / 256),
      high,
    )

pub byte_loop-serial :
    (poly crc : ℕ) (tab bytes : List ℕ)
    → IsTable poly tab
    → All IsByte bytes
    → byte_loop tab crc bytes ≡ serial poly crc bytes
unfolding byte_loop
byte_loop-serial poly crc tab [] ok h = refl
byte_loop-serial poly crc tab (p ∷ bytes) ok h =
    ap (λ (t : ℕ). byte_loop tab t bytes) (table_step poly crc p tab ok h.0)
    ∙ byte_loop-serial poly (rounds poly 8 (bit_xor crc p)) tab bytes ok h.1

serial-lt :
    (poly crc : ℕ) (bytes : List ℕ)
    → poly < 2 ^ 32
    → crc < 2 ^ 32
    → All IsByte bytes
    → serial poly crc bytes < 2 ^ 32
serial-lt poly crc [] hp hc h = hc
serial-lt poly crc (p ∷ bytes) hp hc h =
    serial-lt poly (rounds poly 8 (bit_xor crc p)) bytes hp
      (rounds-lt poly 8 _ hp (bit_xor-lt 32 crc p hc (omega (arith, h.0)))) h.1

serial-append :
    (poly crc : ℕ) (xs ys : List ℕ)
    → serial poly crc (xs ++ ys) ≡ serial poly (serial poly crc xs) ys
serial-append poly crc [] ys = refl
serial-append poly crc (x ∷ xs) ys = serial-append poly (rounds poly 8 (bit_xor crc x)) xs ys

-- Over bytes, a checksum after `crc32_init` is the bit-serial CRC with the polynomial 0xEDB88320,
-- whatever the static variables held before, as long as a table marked ready is a right one.
pub crc32_update-serial :
    (s : Tables) (crc : ℕ) (bytes : List ℕ)
    → IsTables crc32_poly s
    → All IsByte bytes
    → crc32_update (crc32_init s) crc bytes ≡ not32 (serial crc32_poly (not32 crc) bytes)
unfolding crc32_update crc32_init
crc32_update-serial s crc bytes v h =
    ap not32 (byte_loop-serial crc32_poly (not32 crc) _ bytes (build_once-IsTable crc32_poly s v) h)

-- Over bytes, `ext4_crc32c` is the bit-serial CRC with the polynomial 0x82F63B78, and it leaves the
-- static variables in a state from which the next call is right again.
pub ext4_crc32c-serial :
    (s : Tables) (crc : ℕ) (bytes : List ℕ)
    → IsTables crc32c_poly s
    → All IsByte bytes
    → ((ext4_crc32c s crc bytes).0 ≡ not32 (serial crc32c_poly (not32 crc) bytes))
      × IsTables crc32c_poly (ext4_crc32c s crc bytes).1
unfolding ext4_crc32c
ext4_crc32c-serial s crc bytes v h = (
  ap not32
      (byte_loop-serial crc32c_poly (not32 crc) _ bytes (build_once-IsTable crc32c_poly s v) h),
  build_once-IsTables crc32c_poly s v,
)

-- The checksum of two pieces, the second call continuing from the first one's value, is the
-- checksum of the whole.
pub crc32_update-append :
    (s : Tables) (crc : ℕ) (xs ys : List ℕ)
    → IsTables crc32_poly s
    → crc < 2 ^ 32
    → All IsByte xs
    → All IsByte ys
    → crc32_update (crc32_init s) (crc32_update (crc32_init s) crc xs) ys
      ≡ crc32_update (crc32_init s) crc (xs ++ ys)
crc32_update-append s crc xs ys v hc hx hy =
    let c : ℕ = serial crc32_poly (not32 crc) xs in
    let back : not32 (not32 c) ≡ c =
      omega (arith, serial-lt crc32_poly (not32 crc) xs (omega arith) (omega arith) hx) in
    ap (λ (t : ℕ). crc32_update (crc32_init s) t ys) (crc32_update-serial s crc xs v hx)
    ∙ crc32_update-serial s (not32 c) ys v hy
    ∙ ap (λ (t : ℕ). not32 (serial crc32_poly t ys)) back
    ∙ ap not32 (sym (serial-append crc32_poly (not32 crc) xs ys))
    ∙ sym (crc32_update-serial s crc (xs ++ ys) v (All-append IsByte xs ys hx hy))
