-- ===== src/Util/Endian.antt =====
-- The byte order conversions of bub_util.c against the meaning of big-endian memory.
use brillo_device_generic_br.Base.{
  ℕ, ◌+◌, ◌*◌, ◌/◌, ◌%◌, ◌^◌, ◌<◌, ◌≡◌, List, [], ◌∷◌, arith, length, All, IsByte,
}
use brillo_device_generic_br.Base.Bits.{bit_and_byte}
use brillo_device_generic_br.Util.{host_value, bub_be32toh, bub_be64toh}

-- The number whose highest byte stands first.
abbrev pub big_endian : ℕ → List ℕ → ℕ
big_endian acc [] = acc
big_endian acc (b ∷ bs) = big_endian (acc * 2 ^ 8 + b) bs

be32_bytes :
    (v : ℕ)
    → bub_be32toh v
      ≡ v / 2 ^ 24 % 256
        + 2 ^ 8 * (v / 2 ^ 16 % 256)
        + 2 ^ 16 * (v / 2 ^ 8 % 256)
        + 2 ^ 24 * (v % 256)
unfolding bub_be32toh
be32_bytes v =
    rw
      (
        bit_and_byte (v / 2 ^ 24),
        bit_and_byte (v / 2 ^ 16),
        bit_and_byte (v / 2 ^ 8),
        bit_and_byte v,
      )
      (omega arith)

pub bub_be32toh-lt : (v : ℕ) → bub_be32toh v < 2 ^ 32
bub_be32toh-lt v = omega (arith, be32_bytes v)

-- Four bytes of memory, loaded as a word and converted, are the number with the first byte highest.
pub bub_be32toh-big_endian :
    (a b c d : ℕ)
    → All IsByte (a ∷ b ∷ c ∷ d ∷ [])
    → bub_be32toh (host_value (a ∷ b ∷ c ∷ d ∷ [])) ≡ big_endian 0 (a ∷ b ∷ c ∷ d ∷ [])
unfolding host_value
bub_be32toh-big_endian a b c d h = omega (arith, be32_bytes (host_value (a ∷ b ∷ c ∷ d ∷ [])))

-- The conversion undoes itself.
pub bub_be32toh-bub_be32toh : (v : ℕ) → v < 2 ^ 32 → bub_be32toh (bub_be32toh v) ≡ v
bub_be32toh-bub_be32toh v h = omega (arith, be32_bytes v, be32_bytes (bub_be32toh v))

be64_bytes :
    (v : ℕ)
    → bub_be64toh v
      ≡ v / 2 ^ 56 % 256
        + 2 ^ 8 * (v / 2 ^ 48 % 256)
        + 2 ^ 16 * (v / 2 ^ 40 % 256)
        + 2 ^ 24 * (v / 2 ^ 32 % 256)
        + 2 ^ 32 * (v / 2 ^ 24 % 256)
        + 2 ^ 40 * (v / 2 ^ 16 % 256)
        + 2 ^ 48 * (v / 2 ^ 8 % 256)
        + 2 ^ 56 * (v % 256)
unfolding bub_be64toh
be64_bytes v =
    rw
      (
        bit_and_byte (v / 2 ^ 56),
        bit_and_byte (v / 2 ^ 48),
        bit_and_byte (v / 2 ^ 40),
        bit_and_byte (v / 2 ^ 32),
        bit_and_byte (v / 2 ^ 24),
        bit_and_byte (v / 2 ^ 16),
        bit_and_byte (v / 2 ^ 8),
        bit_and_byte v,
      )
      (omega arith)

-- Eight bytes of memory, loaded as a word of 64 bits and converted, are the number with the first
-- byte highest.
pub bub_be64toh-big_endian :
    (a b c d e f g h : ℕ)
    → All IsByte (a ∷ b ∷ c ∷ d ∷ e ∷ f ∷ g ∷ h ∷ [])
    → bub_be64toh (host_value (a ∷ b ∷ c ∷ d ∷ e ∷ f ∷ g ∷ h ∷ []))
      ≡ big_endian 0 (a ∷ b ∷ c ∷ d ∷ e ∷ f ∷ g ∷ h ∷ [])
unfolding host_value
bub_be64toh-big_endian a b c d e f g h bs =
    omega (arith, be64_bytes (host_value (a ∷ b ∷ c ∷ d ∷ e ∷ f ∷ g ∷ h ∷ [])))

-- The same, for the four bytes as one list.
pub bub_be32toh-host_value :
    (bs : List ℕ) → length bs ≡ 4 → All IsByte bs → bub_be32toh (host_value bs) ≡ big_endian 0 bs
bub_be32toh-host_value [] l h = absurd (omega arith)
bub_be32toh-host_value (a ∷ []) l h = absurd (omega arith)
bub_be32toh-host_value (a ∷ b ∷ []) l h = absurd (omega arith)
bub_be32toh-host_value (a ∷ b ∷ c ∷ []) l h = absurd (omega arith)
bub_be32toh-host_value (a ∷ b ∷ c ∷ d ∷ []) l h = bub_be32toh-big_endian a b c d h
bub_be32toh-host_value (a ∷ b ∷ c ∷ d ∷ e ∷ bs) l h = absurd (omega arith)
