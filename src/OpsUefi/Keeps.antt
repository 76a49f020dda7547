-- ===== src/OpsUefi/Keeps.antt =====
-- What a read of a partition leaves as it is.
use brillo_device_generic_br.Base.{ℕ, Option, none, some, List}
use brillo_device_generic_br.Base.Int.{ℤ}
use brillo_device_generic_br.Ops.{ReadResult}
use brillo_device_generic_br.Ops
use brillo_device_generic_br.OpsUefi.{
  GptEntry, Device, img_size, offset_in, read_error, read_at, read_entry, bub_read_from_partition,
}

module _ {S : Type 0} (device : Device S) (P : S → Type 0)
    (reads : (position n : ℕ) (s : S) → P s → P (device.read_disk position n s).1)
    (lookups : (name : List ℕ) (s : S) → P s → P (device.partition_entry_by_name name s).1) where
  read_entry_keeps : (e : GptEntry) (z : ℤ) (n : ℕ) (s : S) → P s → P (read_entry device e z n s).1
  unfolding read_entry read_at
  read_entry_keeps e z n s p = by_offset (offset_in (img_size device.block_size e) z)
    where
      by_offset :
          (o : Option ℕ)
          → P
              (elim o as (λ _. ReadResult × S) [
                | none ↦ (read_error Ops.error_range_outside_partition, s)
                | some offset ↦ read_at device e offset n s
              ]).1
      by_offset none = p
      by_offset (some offset) = reads _ _ s p

  -- What the disk's reads and the lookups keep, a read of a partition keeps.
  pub bub_read_from_partition_keeps :
      (name : List ℕ) (z : ℤ) (n : ℕ) (s : S)
      → P s
      → P (bub_read_from_partition device name z n s).1
  unfolding bub_read_from_partition
  bub_read_from_partition_keeps name z n s p =
      by_entry (device.partition_entry_by_name name s) (lookups name s p)
    where
      by_entry :
          (r : Option GptEntry × S)
          → P r.1
          → P
              (elim r.0 as (λ _. ReadResult × S) [
                | none ↦ (read_error Ops.error_no_such_partition, r.1)
                | some e ↦ read_entry device e z n r.1
              ]).1
      by_entry (none, s') q = q
      by_entry (some e, s') q = read_entry_keeps e z n s' q
