-- ===== src/Examples/Start.antt =====
-- A board with one kernel, which starts: its state is the first 64 bytes of the "misc" partition.
use brillo_device_generic_br.Base.{
  ℕ, ◌≡◌, ◌≢◌, ◌⊎◌, inl, refl, true, List, none, some, arith, ◌==◌, if◌then◌else◌, replicate,
  length, bytes_eq,
}
use brillo_device_generic_br.AbFlow.{fresh_data}
use brillo_device_generic_br.AbFlow.Machine.{view, boot}
use brillo_device_generic_br.AbFlow.Misc.{settled}
use brillo_device_generic_br.Ops.{MiscLaws, misc_name, ab_data_size}
use brillo_device_generic_br.OpsUefi.{
  Device, uefi_ops, bub_read_from_partition, bub_write_to_partition, write_entry, write_at,
  img_size, offset_in, bytes_left, disk_position, read_entry, read_at,
}
use brillo_device_generic_br.Ops
use brillo_device_generic_br.Base.Int.{pos}
use brillo_device_generic_br.Util.{host_value}
use brillo_device_generic_br.OpsUefi.Platform.{MiscDevice, uefi_ops-MiscLaws}
use brillo_device_generic_br.OpsUefi.Keeps.{bub_read_from_partition_keeps}
use brillo_device_generic_br.Main.{MainResult, error_io, aborted, could_not_choose_slot}
use brillo_device_generic_br.BootKernel.{
  fault, bub_boot_kernel, find_partition, check_header, header_refused, header_magic, kernel_size,
  page_size, read_kernel, load_kernel, load_parameters, write_parameters, widen, cmdline, overwrite,
  after_parameters, start_kernel,
}
use brillo_device_generic_br.BootKernel.Keeps.{KeepsAll}
use brillo_device_generic_br.Loader.{loop_on}
use brillo_device_generic_br.Loader.Start.{SlotTried, main_loop-IsStarted}
use brillo_device_generic_br.Examples.Disk.{IsDisk, contents, fresh_block, fresh_block-IsDisk}
use brillo_device_generic_br.Examples.Boots.{fresh_loaded}
use brillo_device_generic_br.Examples.Kernel.{boot_entry, boot_entry-IsPlaced, firmware, head}

-- Reads are told apart by their sizes: the metadata, the header, the kernel.
abbrev bytes_at : ℕ → List ℕ → List ℕ
bytes_at n s = if n == 64 then s else if n == 1632 then head else replicate n 7

abbrev board : Device (List ℕ)
board = record {
  block_size = 512;
  read_disk = λ position n s. (some (bytes_at n s), s);
  write_disk = λ position buf s. (true, buf);
  partition_entry_by_name = λ name s. (some boot_entry, s);
}

board-MiscDevice : MiscDevice board boot_entry IsDisk contents
board-MiscDevice = record {
  placed = boot_entry-IsPlaced;
  room = omega arith;
  block_size = λ s r. r.0;
  block_bytes = λ s r. r.1;
  found = λ s r. refl;
  found_keeps = λ s r. refl;
  found_ready = λ s r. r;
  read = λ s r. (refl, refl, r);
  write = λ s buf r l h. (inl (refl, refl), (l, h));
}

board_laws : MiscLaws (uefi_ops board) IsDisk contents
board_laws = uefi_ops-MiscLaws board boot_entry IsDisk contents board-MiscDevice

services_keep :
    (name b : List ℕ)
    → KeepsAll firmware (uefi_ops board) board name (λ t. IsDisk t × (contents t ≡ b))
services_keep name b = record {
  allocate = λ n s p. p;
  load = λ kernel n s p. p;
  handle = λ image s p. p;
  options = λ image n chars s p. p;
  start = λ image s p. p;
  read = λ offset n s p.
      bub_read_from_partition_keeps board (λ t. IsDisk t × (contents t ≡ b)) (λ position n s p. p)
        (λ name s p. p) name offset n s p;
  lookup = λ s p. p;
}

options_fit :
    (name s : List ℕ)
    → IsDisk s
    → (bub_boot_kernel firmware (uefi_ops board) board name s).0 ≢ fault
unfolding bub_boot_kernel find_partition check_header header_refused header_magic kernel_size
    page_size host_value img_size offset_in bytes_left disk_position read_entry read_at
    bub_read_from_partition read_kernel load_kernel load_parameters write_parameters widen cmdline
    overwrite after_parameters start_kernel bytes_eq
options_fit name s r h = cc

writes :
    (s buf : List ℕ)
    → IsDisk s
    → length buf ≡ ab_data_size
    → ((uefi_ops board).write_to_partition misc_name buf (pos 0) s).0 ≡ Ops.ok
unfolding bub_write_to_partition write_entry write_at img_size offset_in bytes_left
writes s buf r l = rw l refl

main_loop-IsStarted_example :
    let out : MainResult × List ℕ = loop_on firmware (λ s. (error_io, s)) board 1 fresh_block in
    (((boot (view (settled fresh_data))).0 ≡ none) × (out.0 ≡ aborted could_not_choose_slot))
    ⊎ ((i : ℕ) × ((boot (view (settled fresh_data))).0 ≡ some i)
        × SlotTried firmware
            (λ s. (error_io, s))
            board
            IsDisk
            contents
            board_laws
            options_fit
            services_keep
            writes
            i
            (settled fresh_data)
            out)
main_loop-IsStarted_example =
    main_loop-IsStarted firmware (λ s. (error_io, s)) board IsDisk contents board_laws options_fit
      services_keep writes 0 (settled fresh_data) fresh_block fresh_block-IsDisk fresh_loaded
