-- ===== src/Crc32.antt =====
-- brillo_uefi_x86_64/boot_loader/bub_crc32.c: the table-driven CRC-32. A buffer is the list of its
-- bytes, and `uint32_t` values are numbers below 2 ^ 32. The loop runs once for each of the `size`
-- bytes, so it is a recursion on the buffer; the index `& 0xFF` is always inside the table.
pub mod Table
pub mod Serial
pub mod Detect
use brillo_device_generic_br.Base.{ℕ, ◌+◌, ◌/◌, ◌^◌, List, [], ◌∷◌, bit_and, bit_xor, get_or}
use Table.{crc32_tab}

-- `~0U`.
abbrev pub all_ones : ℕ
all_ones = 0xffffffff

-- One round of the loop: `crc32_tab[(crc ^ *p++) & 0xFF] ^ (crc >> 8)`.
pub crc_round : ℕ → ℕ → ℕ
crc_round crc b = bit_xor (get_or crc32_tab (bit_and (bit_xor crc b) 0xff) 0) (crc / 2 ^ 8)

pub crc_loop : ℕ → List ℕ → ℕ
crc_loop crc [] = crc
crc_loop crc (b ∷ p) = crc_loop (crc_round crc b) p

unfoldable pub bub_crc32 : ℕ → List ℕ → ℕ
unfolding crc_loop crc_round crc32_tab
bub_crc32 crc_in buf = bit_xor (crc_loop (bit_xor crc_in all_ones) buf) all_ones
