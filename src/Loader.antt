-- ===== src/Loader.antt =====
-- The parts of the boot loader together: the loop of bub_main.c over the partition I/O of
-- bub_ops_uefi.c and the kernel start of bub_boot_kernel.c, on the disk that bub_init has found.
pub mod Start
pub mod Safe
use brillo_device_generic_br.Base.{ℕ, Bool, true, Option, List}
use brillo_device_generic_br.OpsUefi.{GptEntry, Device, uefi_ops}
use brillo_device_generic_br.Main.{
  BubBootResult, MainResult, main_loop, efi_main, aborted, could_not_initialize,
}
use brillo_device_generic_br.BootKernel.{
  BootServices, KernelOutcome, returned, fault, bub_boot_kernel,
}
use brillo_device_generic_br.Sysdeps.{PoolServices}
use brillo_device_generic_br.Gpt.{EfiLib, BlockIo}
use brillo_device_generic_br.Gpt.Partition.{table_device}
use brillo_device_generic_br.Discovery.{
  Protocols, PathNodes, BootDisk, DiskResult, found, not_found, bub_init,
}
use brillo_device_generic_br.Discovery

module _ {S : Type 0} (services : BootServices S) (on_fault : S → BubBootResult × S) where
  -- The result that the main loop looks at; `on_fault` is what follows an access outside a buffer.
  unfoldable pub kernel_result : KernelOutcome × S → BubBootResult × S
  kernel_result (returned r, s) = (r, s)
  kernel_result (fault, s) = on_fault s

  -- The loop on a device: its operations are those of bub_ops_uefi.c, and the kernel is read with
  -- them.
  unfoldable pub boot_kernel : Device S → List ℕ → S → BubBootResult × S
  boot_kernel device name s =
      kernel_result (bub_boot_kernel services (uefi_ops device) device name s)

  abbrev pub loop_on : Device S → ℕ → S → MainResult × S
  loop_on device fuel s = main_loop (uefi_ops device) (boot_kernel device) fuel s

-- Media->BlockSize of an interface, and ReadDisk and WriteDisk of one.
pub record DiskIo (S : Type 0) : Type 0 where
  pub block_size : ℕ → ℕ
  pub read_disk : ℕ → ℕ → ℕ → S → Option (List ℕ) × S
  pub write_disk : ℕ → ℕ → List ℕ → S → Bool × S

-- How the loader ends; `unknown` stands for what follows an access outside memory in bub_init.
pub data LoaderResult : Type 0 where
  ended : MainResult → LoaderResult
  unknown : LoaderResult
  out_of_fuel : LoaderResult

module _ {S : Type 0} (services : BootServices S) (on_fault : S → BubBootResult × S)
    (pool : PoolServices S) (lib : EfiLib) (protocols : Protocols S) (nodes : PathNodes)
    (disk_io : DiskIo S) (on_lookup_fault : S → Option GptEntry × S) (stale : List ℕ) where
  -- The device behind `bub->block_io` and `bub->disk_io`.
  abbrev pub device_of : BootDisk → Device S
  device_of disk =
      table_device pool lib
        (record {
          block_size = disk_io.block_size disk.block_io;
          read_blocks = protocols.read_blocks disk.block_io;
        })
        on_lookup_fault stale (disk_io.read_disk disk.disk_io) (disk_io.write_disk disk.disk_io)

  -- efi_main, once bub_init has answered.
  unfoldable pub after_init : ℕ → DiskResult × S → LoaderResult × S
  after_init fuel (found disk, s) =
      let (result, s') =
        efi_main (uefi_ops (device_of disk)) (boot_kernel services on_fault (device_of disk))
          (λ s. (true, s)) fuel s in
      (ended result, s')
  after_init fuel (not_found, s) = (ended (aborted could_not_initialize), s)
  after_init fuel (Discovery.fault, s) = (unknown, s)
  after_init fuel (Discovery.out_of_fuel, s) = (out_of_fuel, s)

  unfoldable pub loader : ℕ → ℕ → ℕ → S → LoaderResult × S
  unfolding after_init
  loader path_fuel fuel image s =
      after_init fuel (bub_init pool lib protocols nodes path_fuel image s)
