-- ===== src/Crc32/Serial.antt =====
-- The table-driven loop of bub_crc32.c against the bit-serial definition of the checksum.
use native.Mathlib.Nat.{pow-suc}
use brillo_device_generic_br.Base.{
  ℕ, zero, suc, ◌*◌, ◌/◌, ◌%◌, ◌^◌, ◌<◌, ◌≡◌, refl, ap, true, List, [], ◌∷◌, arith, ◌==◌, ==_iff,
  if◌then◌else◌, get_or, All, IsByte, all_below, all_below_sound, bit_xor,
}
use brillo_device_generic_br.Base.Bits.{
  bit_xor-half, bit_xor-parity, bit_xor_assoc, bit_xor_comm, bit_xor-shift, xor-zero,
  bit_xor_fields, bit_and_byte,
}
use brillo_device_generic_br.Crc32.Table.{crc32_tab}
use brillo_device_generic_br.Crc32.{all_ones, crc_round, crc_loop, bub_crc32}

-- The polynomial $edb88320 of the source's comment.
abbrev pub polynomial : ℕ
polynomial = 0xedb88320

-- One shift of the register: the bit that falls out selects the feedback term.
unfoldable pub shift_bit : ℕ → ℕ
shift_bit c = if c % 2 == 1 then bit_xor (c / 2) polynomial else c / 2

unfoldable pub shift_bits : ℕ → ℕ → ℕ
shift_bits zero c = c
shift_bits (suc n) c = shift_bits n (shift_bit c)

-- The register after a message, eight shifts for each byte.
unfoldable pub serial : ℕ → List ℕ → ℕ
serial c [] = c
serial c (b ∷ p) = serial (shift_bits 8 (bit_xor c b)) p

-- Bits above the lowest one only move down.
pub shift_bit-xor : (m l : ℕ) → shift_bit (bit_xor (2 * m) l) ≡ bit_xor m (shift_bit l)
unfolding shift_bit
shift_bit-xor m l =
    ground
      (arith, bit_xor-half (2 * m) l, bit_xor-parity (2 * m) l, bit_xor_assoc m (l / 2) polynomial)

pub shift_bits-xor : (n m l : ℕ) → shift_bits n (bit_xor (2 ^ n * m) l) ≡ bit_xor m (shift_bits n l)
unfolding shift_bits
shift_bits-xor zero m l = ap (λ t. bit_xor t l) (omega arith)
shift_bits-xor (suc n) m l =
    let twice : 2 ^ suc n * m ≡ 2 * (2 ^ n * m) = omega (arith, ap (λ t. t * m) (pow-suc 2 n)) in
    rw (twice, shift_bit-xor (2 ^ n * m) l) (shift_bits-xor n m (shift_bit l))

-- Every entry of the table is eight shifts of its index.
table_entries : all_below 256 (λ i. get_or crc32_tab i 0 == shift_bits 8 i) ≡ true
unfolding all_below crc32_tab shift_bits shift_bit
table_entries = refl

pub table-shift_bits : (i : ℕ) → i < 256 → get_or crc32_tab i 0 ≡ shift_bits 8 i
table-shift_bits i h = (==_iff _ _).0 (all_below_sound 256 _ i table_entries h)

byte_xor_high : (c b : ℕ) → b < 256 → 256 * (c / 256) ≡ bit_xor c b / 256 * 2 ^ 8
byte_xor_high c b h =
    let none_high : b / 256 ≡ 0 = omega arith in
    omega (arith, bit_xor-shift 8 c b, ap (λ t. bit_xor (c / 256) t) none_high, xor-zero (c / 256))

byte_xor_split : (c b : ℕ) → b < 256 → bit_xor (256 * (c / 256)) (bit_xor c b % 256) ≡ bit_xor c b
byte_xor_split c b h = omega (
  arith,
  ap (λ t. bit_xor t (bit_xor c b % 256)) (byte_xor_high c b h),
  bit_xor_fields 8 (bit_xor c b / 256) (bit_xor c b % 256) (omega arith),
)

-- One lookup is eight shifts.
pub crc_round-shift_bits : (c b : ℕ) → b < 256 → crc_round c b ≡ shift_bits 8 (bit_xor c b)
unfolding crc_round
crc_round-shift_bits c b h =
    rw
      (
        bit_and_byte (bit_xor c b),
        table-shift_bits (bit_xor c b % 256) (omega arith),
        bit_xor_comm (shift_bits 8 (bit_xor c b % 256)) (c / 256),
        ← shift_bits-xor 8 (c / 256) (bit_xor c b % 256),
      )
      (ap (shift_bits 8) (byte_xor_split c b h))

pub crc_loop-serial : (c : ℕ) (p : List ℕ) → All IsByte p → crc_loop c p ≡ serial c p
unfolding crc_loop serial
crc_loop-serial c [] h = refl
crc_loop-serial c (b ∷ p) h =
    rw (crc_round-shift_bits c b h.0) (crc_loop-serial (shift_bits 8 (bit_xor c b)) p h.1)

-- On every message of bytes the table-driven checksum of the source is the bit-serial one.
pub bub_crc32-serial :
    (crc_in : ℕ) (buf : List ℕ)
    → All IsByte buf
    → bub_crc32 crc_in buf ≡ bit_xor (serial (bit_xor crc_in all_ones) buf) all_ones
unfolding bub_crc32
bub_crc32-serial crc_in buf h = rw (crc_loop-serial (bit_xor crc_in all_ones) buf h)
