-- ===== src/Examples/Device.antt =====
-- The partition I/O on a device whose state is the first 64 bytes of the "misc" partition.
use brillo_device_generic_br.Base.{
  ℕ, ◌+◌, ◌≤◌, ◌<◌, ◌≡◌, ◌⊎◌, inl, refl, true, List, [], ◌∷◌, some, arith,
}
use brillo_device_generic_br.Base.Int.{pos, negsuc}
use brillo_device_generic_br.Ops
use brillo_device_generic_br.Ops.{MiscLaws, misc_name}
use brillo_device_generic_br.OpsUefi.{
  GptEntry, Device, read_error, read_answer, uefi_ops, bub_read_from_partition,
  bub_write_to_partition,
}
use brillo_device_generic_br.OpsUefi.Range.{
  IsPlaced, size, bub_read_from_partition-read_disk, bub_write_to_partition-write_disk,
  offset_before-refused,
}
use brillo_device_generic_br.OpsUefi.Platform.{MiscDevice, uefi_ops-MiscLaws}
use brillo_device_generic_br.Examples.Disk.{IsDisk, contents, fresh_block}

abbrev misc_entry : GptEntry
misc_entry = record { first_lba = 34; last_lba = 40 }

abbrev board : Device (List ℕ)
board = record {
  block_size = 512;
  read_disk = λ position num_bytes s. (some s, s);
  write_disk = λ position buf s. (true, buf);
  partition_entry_by_name = λ name s. (some misc_entry, s);
}

misc_entry-IsPlaced : IsPlaced 512 misc_entry
misc_entry-IsPlaced = omega arith

-- The last 64 bytes of the partition.
bub_read_from_partition-read_disk_example :
    bub_read_from_partition board misc_name (negsuc 63) 100 fresh_block
    ≡ (read_answer 64 (some fresh_block), fresh_block)
bub_read_from_partition-read_disk_example =
    bub_read_from_partition-read_disk board misc_name misc_entry fresh_block fresh_block
      misc_entry-IsPlaced refl (negsuc 63) 3008 100 (omega arith, refl)

-- A write of three bytes two bytes before the end.
bub_write_to_partition-write_disk_example :
    ((3070 + 3 ≤ size 512 misc_entry)
      × (bub_write_to_partition board misc_name (1 ∷ 2 ∷ 3 ∷ []) (pos 3070) fresh_block
          ≡ (Ops.ok, 1 ∷ 2 ∷ 3 ∷ [])))
    ⊎ ((size 512 misc_entry < 3070 + 3)
        × (bub_write_to_partition board misc_name (1 ∷ 2 ∷ 3 ∷ []) (pos 3070) fresh_block
            ≡ (Ops.error_range_outside_partition, fresh_block)))
bub_write_to_partition-write_disk_example =
    bub_write_to_partition-write_disk board misc_name misc_entry fresh_block fresh_block
      misc_entry-IsPlaced refl (pos 3070) 3070 (1 ∷ 2 ∷ 3 ∷ []) (refl, omega arith)

offset_before-refused_example :
    (bub_read_from_partition board misc_name (negsuc 3072) 1 fresh_block
      ≡ (read_error Ops.error_range_outside_partition, fresh_block))
    × (bub_write_to_partition board misc_name (1 ∷ []) (negsuc 3072) fresh_block
        ≡ (Ops.error_range_outside_partition, fresh_block))
offset_before-refused_example =
    offset_before-refused board misc_name misc_entry fresh_block fresh_block misc_entry-IsPlaced
      refl 3072 1 (1 ∷ []) (omega arith)

board-MiscDevice : MiscDevice board misc_entry IsDisk contents
board-MiscDevice = record {
  placed = misc_entry-IsPlaced;
  room = omega arith;
  block_size = λ s r. r.0;
  block_bytes = λ s r. r.1;
  found = λ s r. refl;
  found_keeps = λ s r. refl;
  found_ready = λ s r. r;
  read = λ s r. (refl, refl, r);
  write = λ s buf r l h. (inl (refl, refl), (l, h));
}

uefi_ops-MiscLaws_example : MiscLaws (uefi_ops board) IsDisk contents
uefi_ops-MiscLaws_example = uefi_ops-MiscLaws board misc_entry IsDisk contents board-MiscDevice
