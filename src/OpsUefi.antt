-- ===== src/OpsUefi.antt =====
-- brillo_uefi_x86_64/boot_loader/bub_ops_uefi.c: reads and writes of a partition through the disk
-- protocol of UEFI. The lookup of a partition (bub_partition_entry_by_name of bub_boot_kernel.c)
-- is a function that the definitions take. Sizes and positions are numbers below 2 ^ 64, with the
-- wrap-around of the 64-bit arithmetic written out; an offset is an `int64_t`.
pub mod Range
pub mod Platform
pub mod Keeps
use brillo_device_generic_br.Base.{
  ℕ, ◌+◌, ◌*◌, ◌-◌, ◌%◌, ◌^◌, Bool, true, false, Option, none, some, List, [], ltb, if◌then◌else◌,
  length,
}
use brillo_device_generic_br.Base.Int.{ℤ, pos, negsuc}
use brillo_device_generic_br.Ops
use brillo_device_generic_br.Ops.{BubOps, ReadResult, BubIoResult}

-- The fields of an entry of the partition table that are looked at here.
pub record GptEntry : Type 0 where
  pub first_lba : ℕ
  pub last_lba : ℕ

-- The block size of the medium, the two calls of the disk protocol (`none` and `false` are an EFI
-- error; the media id is that of the device), and the lookup of a partition by its name.
pub record Device (S : Type 0) : Type 0 where
  pub block_size : ℕ
  -- position, number of bytes
  pub read_disk : ℕ → ℕ → S → Option (List ℕ) × S
  -- position, buffer
  pub write_disk : ℕ → List ℕ → S → Bool × S
  pub partition_entry_by_name : List ℕ → S → Option GptEntry × S

-- The macro IMG_SIZE, in 64 bits.
unfoldable pub img_size : ℕ → GptEntry → ℕ
img_size block_size e = (e.last_lba + 2 ^ 64 - e.first_lba) % 2 ^ 64 * block_size % 2 ^ 64

-- The offset from the start of the partition, as the unsigned number that it takes part in the
-- arithmetic with; `none` if it lies before the start.
unfoldable pub offset_in : ℕ → ℤ → Option ℕ
offset_in partition_size (pos n) = some n
offset_in partition_size (negsuc n) =
    if ltb partition_size (n + 1) then none else some (partition_size - (n + 1))

-- `partition_size - offset_from_partition`.
unfoldable pub bytes_left : ℕ → ℕ → ℕ
bytes_left partition_size offset = (partition_size + 2 ^ 64 - offset) % 2 ^ 64

-- The position on the disk that is passed on.
unfoldable pub disk_position : ℕ → GptEntry → ℕ → ℕ
disk_position block_size e offset = (e.first_lba * block_size + offset) % 2 ^ 64

-- On an error the caller's buffer is left alone. `*out_num_read` is set to 0 only after an I/O
-- error; after the other errors no caller looks at it.
abbrev pub read_error : BubIoResult → ReadResult
read_error e = record { result = e; buf = []; num_read = 0 }

-- What a read makes of the answer of the disk.
abbrev pub read_answer : ℕ → Option (List ℕ) → ReadResult
read_answer num_read none = read_error Ops.error_io
read_answer num_read (some buf) = record { result = Ops.ok; buf = buf; num_read = num_read }

module _ {S : Type 0} (device : Device S) where
  unfoldable pub read_at : GptEntry → ℕ → ℕ → S → ReadResult × S
  read_at e offset num_bytes s =
      let rest = bytes_left (img_size device.block_size e) offset in
      let num_read = if ltb rest num_bytes then rest else num_bytes in
      let (bytes, s') = device.read_disk (disk_position device.block_size e offset) num_read s in
      (read_answer num_read bytes, s')

  unfoldable pub read_entry : GptEntry → ℤ → ℕ → S → ReadResult × S
  read_entry e offset_from_partition num_bytes s =
      elim (offset_in (img_size device.block_size e) offset_from_partition) [
        | none ↦ (read_error Ops.error_range_outside_partition, s)
        | some offset ↦ read_at e offset num_bytes s
      ]

  unfoldable pub bub_read_from_partition : List ℕ → ℤ → ℕ → S → ReadResult × S
  bub_read_from_partition partition_name offset_from_partition num_bytes s =
      let (entry, s') = device.partition_entry_by_name partition_name s in
      elim entry [
        | none ↦ (read_error Ops.error_no_such_partition, s')
        | some e ↦ read_entry e offset_from_partition num_bytes s'
      ]

  unfoldable pub write_at : GptEntry → ℕ → List ℕ → S → BubIoResult × S
  write_at e offset buf s =
      if ltb (bytes_left (img_size device.block_size e) offset) (length buf)
      then (Ops.error_range_outside_partition, s)
      else (let (written, s') =
            device.write_disk (disk_position device.block_size e offset) buf s in
          (if written then Ops.ok else Ops.error_io, s'))

  unfoldable pub write_entry : GptEntry → ℤ → List ℕ → S → BubIoResult × S
  write_entry e offset_from_partition buf s =
      elim (offset_in (img_size device.block_size e) offset_from_partition) [
        | none ↦ (Ops.error_range_outside_partition, s)
        | some offset ↦ write_at e offset buf s
      ]

  unfoldable pub bub_write_to_partition : List ℕ → List ℕ → ℤ → S → BubIoResult × S
  bub_write_to_partition partition_name buf offset_from_partition s =
      let (entry, s') = device.partition_entry_by_name partition_name s in
      elim entry [
        | none ↦ (Ops.error_no_such_partition, s')
        | some e ↦ write_entry e offset_from_partition buf s'
      ]

  -- What bub_init stores in the structure of the operations.
  abbrev pub uefi_ops : BubOps S
  uefi_ops = record {
    read_from_partition = bub_read_from_partition;
    write_to_partition = bub_write_to_partition;
  }
