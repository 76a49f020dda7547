-- ===== src/AbData.antt =====
-- The metadata of brillo_uefi_x86_64/boot_loader/bub_ab_flow.h, with its layout in memory. The
-- board is little-endian, and the compiler fills the bit fields of a byte from the lowest bit.
pub mod Stored
pub mod Layout
use brillo_device_generic_br.Base.{
  ℕ, ◌+◌, ◌*◌, ◌/◌, ◌%◌, ◌^◌, ◌<◌, ◌≡◌, List, [], ◌∷◌, ◌++◌, get_or, take, drop, length, replicate,
  All, IsByte,
}
use brillo_device_generic_br.Util.{host_value}

pub data BubAbFlowResult : Type 0 where
  ok error_input error_invalid_metadata error_no_valid_slots error_read_metadata
        error_write_metadata :
      BubAbFlowResult

pub record BubSlotData : Type 0 where
  -- 4 bits
  pub priority : ℕ
  -- 3 bits
  pub tries_remaining : ℕ
  -- 1 bit
  pub successful_boot : ℕ
  -- 7 bytes
  pub reserved : List ℕ

-- The array `slots[2]` is two fields; `crc32` is the word as the processor loads it.
pub record BubAbData : Type 0 where
  pub magic : List ℕ
  pub major_version : ℕ
  pub minor_version : ℕ
  pub reserved1 : List ℕ
  pub slot0 : BubSlotData
  pub slot1 : BubSlotData
  pub reserved2 : List ℕ
  pub crc32 : ℕ

-- {'B', 'U', 'E', 'F'}
abbrev pub boot_ctrl_magic : List ℕ
boot_ctrl_magic = b'B' ∷ b'U' ∷ b'E' ∷ b'F' ∷ []

abbrev pub major_version_1 : ℕ
major_version_1 = 1

abbrev pub minor_version_0 : ℕ
minor_version_0 = 0

-- A word in memory, lowest byte first.
unfoldable pub word_bytes : ℕ → List ℕ
word_bytes w = w % 256 ∷ w / 2 ^ 8 % 256 ∷ w / 2 ^ 16 % 256 ∷ w / 2 ^ 24 % 256 ∷ []

unfoldable pub slot_bytes : BubSlotData → List ℕ
slot_bytes s = (s.priority + 16 * s.tries_remaining + 128 * s.successful_boot) ∷ s.reserved

unfoldable pub slot_of_bytes : List ℕ → BubSlotData
slot_of_bytes bs =
    let flags = get_or bs 0 0 in
    record {
      priority = flags % 16;
      tries_remaining = flags / 16 % 8;
      successful_boot = flags / 128 % 2;
      reserved = drop 1 bs;
    }

-- The structure as the 64 bytes that it occupies, and back.
unfoldable pub to_bytes : BubAbData → List ℕ
unfolding slot_bytes word_bytes
to_bytes d =
    d.magic
    ++ (d.major_version
        ∷ d.minor_version
        ∷ (d.reserved1
            ++ (slot_bytes d.slot0 ++ (slot_bytes d.slot1 ++ (d.reserved2 ++ word_bytes d.crc32)))))

unfoldable pub of_bytes : List ℕ → BubAbData
unfolding slot_of_bytes host_value
of_bytes bs = record {
  magic = take 4 bs;
  major_version = get_or (drop 4 bs) 0 0;
  minor_version = get_or (drop 5 bs) 0 0;
  reserved1 = take 2 (drop 6 bs);
  slot0 = slot_of_bytes (take 8 (drop 8 bs));
  slot1 = slot_of_bytes (take 8 (drop 16 bs));
  reserved2 = take 36 (drop 24 bs);
  crc32 = host_value (take 4 (drop 60 bs));
}

-- What the C types say of the values.
pub record IsSlot (s : BubSlotData) : Type 0 where
  pub priority : s.priority < 16
  pub tries_remaining : s.tries_remaining < 8
  pub successful_boot : s.successful_boot < 2
  pub reserved_length : length s.reserved ≡ 7
  pub reserved_bytes : All IsByte s.reserved

pub record IsAbData (d : BubAbData) : Type 0 where
  pub magic_length : length d.magic ≡ 4
  pub magic_bytes : All IsByte d.magic
  pub major_version : IsByte d.major_version
  pub minor_version : IsByte d.minor_version
  pub reserved1_length : length d.reserved1 ≡ 2
  pub reserved1_bytes : All IsByte d.reserved1
  pub slot0 : IsSlot d.slot0
  pub slot1 : IsSlot d.slot1
  pub reserved2_length : length d.reserved2 ≡ 36
  pub reserved2_bytes : All IsByte d.reserved2
  pub crc32 : d.crc32 < 2 ^ 32

-- `memset(x, 0, sizeof(BubSlotData))` and `memset(x, 0, sizeof(BubAbData))`.
abbrev pub zero_slot : BubSlotData
zero_slot = record {
  priority = 0;
  tries_remaining = 0;
  successful_boot = 0;
  reserved = replicate 7 0;
}

abbrev pub zero_data : BubAbData
zero_data = record {
  magic = replicate 4 0;
  major_version = 0;
  minor_version = 0;
  reserved1 = replicate 2 0;
  slot0 = zero_slot;
  slot1 = zero_slot;
  reserved2 = replicate 36 0;
  crc32 = 0;
}
