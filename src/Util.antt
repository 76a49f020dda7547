-- ===== src/Util.antt =====
-- brillo_uefi_x86_64/boot_loader/bub_util.c: conversions of byte order and of text. The board is
-- x86-64, so a word in memory has its lowest byte first.
pub mod Endian
pub mod Utf8
pub mod Forms
pub mod Encode
use brillo_device_generic_br.Base.{
  ℕ, zero, suc, ◌+◌, ◌-◌, ◌*◌, ◌/◌, ◌%◌, ◌^◌, Bool, true, false, List, [], ◌∷◌, Option, none, some,
  ◌==◌, ltb, if◌then◌else◌, get_elem?, set, length, bit_and, bit_or,
}

-- The number that a word of memory stands for: `v.value` of the union.
unfoldable pub host_value : List ℕ → ℕ
host_value [] = 0
host_value (b ∷ bs) = b + 2 ^ 8 * host_value bs

unfoldable pub bub_be32toh : ℕ → ℕ
unfolding host_value
bub_be32toh value = host_value (
    bit_and (value / 2 ^ 24) 0xff
    ∷ bit_and (value / 2 ^ 16) 0xff
    ∷ bit_and (value / 2 ^ 8) 0xff
    ∷ bit_and value 0xff
    ∷ [])

unfoldable pub bub_be64toh : ℕ → ℕ
unfolding host_value
bub_be64toh value = host_value (
    bit_and (value / 2 ^ 56) 0xff
    ∷ bit_and (value / 2 ^ 48) 0xff
    ∷ bit_and (value / 2 ^ 40) 0xff
    ∷ bit_and (value / 2 ^ 32) 0xff
    ∷ bit_and (value / 2 ^ 24) 0xff
    ∷ bit_and (value / 2 ^ 16) 0xff
    ∷ bit_and (value / 2 ^ 8) 0xff
    ∷ bit_and value 0xff
    ∷ [])

-- What stands at a position of the UTF-8 text: a read outside the text, a lead byte that the
-- function refuses, or a 16-bit value with the number of bytes that it takes.
pub data Char16 : Type 0 where
  outside refused : Char16
  unit : ℕ → ℕ → Char16

-- The 16-bit casts of the three-byte and of the two-byte form.
unfoldable pub three_bytes : ℕ → ℕ → ℕ → ℕ
three_bytes a b c =
    bit_or (bit_or (a * 2 ^ 12 % 2 ^ 16) (bit_and (b * 2 ^ 6) 0x0fc0 % 2 ^ 16))
      (bit_and c 0x003f % 2 ^ 16)

unfoldable pub two_bytes : ℕ → ℕ → ℕ
two_bytes a b = bit_or (bit_and (a * 2 ^ 6) 0x07c0 % 2 ^ 16) (bit_and b 0x003f % 2 ^ 16)

infixl 5 ◌>>=◌
abbrev ◌>>=◌ : Option ℕ → (ℕ → Char16) → Char16
none >>= k = outside
some x >>= k = k x

-- The two branches that read on after the lead byte. The index is a `uint32_t`.
abbrev char_of_three : List ℕ → ℕ → ℕ → Char16
char_of_three utf8_data i8 a = do
  b ← get_elem? utf8_data ((i8 + 1) % 2 ^ 32)
  c ← get_elem? utf8_data ((i8 + 2) % 2 ^ 32)
  unit (three_bytes a b c) 3

abbrev char_of_two : List ℕ → ℕ → ℕ → Char16
char_of_two utf8_data i8 a = do b ← get_elem? utf8_data ((i8 + 1) % 2 ^ 32); unit (two_bytes a b) 2

-- The body of the loop once the lead byte `a` is read.
unfoldable pub char_of_lead : List ℕ → ℕ → ℕ → Char16
unfolding three_bytes two_bytes
char_of_lead utf8_data i8 a =
    if bit_and a 0xf8 == 0xf0
    then refused
    else if bit_and a 0xf0 == 0xe0
    then char_of_three utf8_data i8 a
    else if bit_and a 0xe0 == 0xc0
    then char_of_two utf8_data i8 a
    else if a / 2 ^ 7 == 0
    then unit (bit_and a 0x00ff) 1
    else refused

unfoldable pub char_at : List ℕ → ℕ → Char16
char_at utf8_data i8 = do a ← get_elem? utf8_data i8; char_of_lead utf8_data i8 a

-- `converted` is the return of 0, `invalid` that of 1; both leave what was written. `fault` is a
-- read or a write outside a buffer, and `out_of_fuel` is no result of the source (see Util/Utf8).
pub data Ucs2 : Type 0 where
  converted invalid : List ℕ → Ucs2
  fault out_of_fuel : Ucs2

-- The test of the loop, in `size_t`.
abbrev pub more_bytes : ℕ → ℕ → Bool
more_bytes i8 utf8_num_bytes = ltb i8 ((utf8_num_bytes + 2 ^ 64 - 1) % 2 ^ 64)

unfoldable pub utf8_loop : ℕ → List ℕ → ℕ → List ℕ → ℕ → ℕ → Ucs2
utf8_loop zero utf8_data n ucs2_data i8 i2 = out_of_fuel
utf8_loop (suc fuel) utf8_data n ucs2_data i8 i2 = elim (char_at utf8_data i8) [
  | outside ↦ fault
  | refused ↦ invalid ucs2_data
  | unit c k ↦ elim (ltb i2 (length ucs2_data)) [
    | false ↦ fault
    | true ↦ elim (more_bytes ((i8 + k) % 2 ^ 32) n) [
      | true ↦
          utf8_loop fuel utf8_data n (set ucs2_data i2 c) ((i8 + k) % 2 ^ 32) ((i2 + 1) % 2 ^ 32)
      | false ↦ converted (set ucs2_data i2 c)
    ]
  ]
]

-- Each round reads one byte of the text at a position that grows, so there is a round at most for
-- each byte of the buffer. The capacity is never looked at.
unfoldable pub utf8_to_ucs2 : List ℕ → ℕ → List ℕ → ℕ → Ucs2
unfolding utf8_loop char_at char_of_lead
utf8_to_ucs2 utf8_data utf8_num_bytes ucs2_data ucs2_data_capacity_num_bytes =
    utf8_loop (length utf8_data + 1) utf8_data utf8_num_bytes ucs2_data 0 0
