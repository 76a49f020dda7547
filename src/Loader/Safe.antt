-- ===== src/Loader/Safe.antt =====
-- What has happened when the boot loader returns EFI_SUCCESS.
use brillo_device_generic_br.Base.{Option, ℕ, zero, suc, ◌≡◌, ◌≢◌, ◌⊎◌, inl, inr, refl, List}
use brillo_device_generic_br.Ops.{BubOps}
use brillo_device_generic_br.AbData
use brillo_device_generic_br.AbData.{BubAbFlowResult}
use brillo_device_generic_br.AbFlow.{bub_ab_flow, bub_ab_mark_as_invalid}
use brillo_device_generic_br.OpsUefi.{GptEntry, Device, uefi_ops}
use brillo_device_generic_br.Sysdeps.{PoolServices}
use brillo_device_generic_br.Gpt.{EfiLib}
use brillo_device_generic_br.Main
use brillo_device_generic_br.Main.{
  BubBootResult, ok, error_oom, error_io, error_partition_invalid_format, error_load_kernel,
  error_parameter_load, error_start_kernel, MainResult, success, aborted, boot_name, after_mark,
  after_boot, after_flow, main_loop, efi_main,
}
use brillo_device_generic_br.BootKernel.{
  BootServices, KernelOutcome, returned, fault, bub_boot_kernel,
}
use brillo_device_generic_br.BootKernel.Running.{IfOk}
use brillo_device_generic_br.BootKernel.Started.{IsStarted, bub_boot_kernel-IsStarted}
use brillo_device_generic_br.Discovery
use brillo_device_generic_br.Discovery.{
  Protocols, PathNodes, BootDisk, DiskResult, found, not_found, bub_init,
}
use brillo_device_generic_br.Discovery.Disk.{IsGptDisk, bub_init-IsGptDisk}
use brillo_device_generic_br.Loader.{
  kernel_result, boot_kernel, DiskIo, LoaderResult, ended, unknown, out_of_fuel, device_of,
  after_init, loader,
}
use brillo_device_generic_br.Loader.Start.{kernel_result_ok}

-- The loop over any kernel whose success means `Q` of the partition's name and the state.
module _ {S : Type 0} (ops : BubOps S) (kernel : List ℕ → S → BubBootResult × S)
    (Q : List ℕ → S → Type 0)
    (kernel_ok : (name : List ℕ) (s : S) → (kernel name s).0 ≡ ok → Q name (kernel name s).1) where
  abbrev Succeeds : MainResult × S → Type 0
  Succeeds out = out.0 ≡ success → (slot_suffix : List ℕ) × Q (boot_name slot_suffix) out.1

  after_mark-Succeeds :
      (next : S → MainResult × S) (r : ℕ × S)
      → ((s : S) → Succeeds (next s))
      → Succeeds (after_mark ops kernel next r)
  unfolding after_mark
  after_mark-Succeeds next (zero, s) rest = rest s
  after_mark-Succeeds next (suc code, s) rest = λ h. cc

  after_boot-Succeeds :
      (next : S → MainResult × S) (slot_suffix : List ℕ) (r : BubBootResult × S)
      → ((s : S) → Succeeds (next s))
      → (r.0 ≡ ok → Q (boot_name slot_suffix) r.1)
      → Succeeds (after_boot ops kernel next slot_suffix r)
  unfolding after_boot
  after_boot-Succeeds next sfx (ok, s) rest started = λ h. (sfx, started refl)
  after_boot-Succeeds next sfx (error_partition_invalid_format, s) rest started =
      after_mark-Succeeds next (bub_ab_mark_as_invalid ops sfx s) rest
  after_boot-Succeeds next sfx (error_oom, s) rest started = λ h. cc
  after_boot-Succeeds next sfx (error_io, s) rest started = λ h. cc
  after_boot-Succeeds next sfx (error_load_kernel, s) rest started = λ h. cc
  after_boot-Succeeds next sfx (error_parameter_load, s) rest started = λ h. cc
  after_boot-Succeeds next sfx (error_start_kernel, s) rest started = λ h. cc

  after_flow-Succeeds :
      (next : S → MainResult × S) (r : BubAbFlowResult) (slot_suffix : List ℕ) (s : S)
      → ((s : S) → Succeeds (next s))
      → Succeeds (after_flow ops kernel next r slot_suffix s)
  unfolding after_flow
  after_flow-Succeeds next AbData.ok sfx s rest =
      after_boot-Succeeds next sfx (kernel (boot_name sfx) s) rest (kernel_ok (boot_name sfx) s)
  after_flow-Succeeds next AbData.error_input sfx s rest = λ h. cc
  after_flow-Succeeds next AbData.error_invalid_metadata sfx s rest = λ h. cc
  after_flow-Succeeds next AbData.error_no_valid_slots sfx s rest = λ h. cc
  after_flow-Succeeds next AbData.error_read_metadata sfx s rest = λ h. cc
  after_flow-Succeeds next AbData.error_write_metadata sfx s rest = λ h. cc

  main_loop-Succeeds : (fuel : ℕ) (s : S) → Succeeds (main_loop ops kernel fuel s)
  unfolding main_loop
  main_loop-Succeeds zero s = λ h. cc
  main_loop-Succeeds (suc fuel) s =
      let (result, sfx, s') = bub_ab_flow ops s in
      after_flow-Succeeds (main_loop ops kernel fuel) result sfx s' (main_loop-Succeeds fuel)

module _ {S : Type 0} (services : BootServices S) (on_fault : S → BubBootResult × S)
    (fault_fails : (s : S) → (on_fault s).0 ≢ ok) where
  started_ok :
      (P : S → Type 0) (r : KernelOutcome × S)
      → IfOk services P r
      → (kernel_result services on_fault r).0 ≡ ok
      → P (kernel_result services on_fault r).1
  unfolding kernel_result
  started_ok P (returned x, s) p = kernel_result_ok services on_fault P (returned x, s) (λ h. cc) p
  started_ok P (fault, s) p = λ e. absurd (fault_fails s e)

  boot_kernel_ok :
      (device : Device S) (name : List ℕ) (s : S)
      → (boot_kernel services on_fault device name s).0 ≡ ok
      → IsStarted services
          (uefi_ops device)
          device
          name
          (boot_kernel services on_fault device name s).1
  unfolding boot_kernel
  boot_kernel_ok device name s =
      started_ok (IsStarted services (uefi_ops device) device name)
        (bub_boot_kernel services (uefi_ops device) device name s)
        (bub_boot_kernel-IsStarted services (uefi_ops device) device name s)

  module _ (pool : PoolServices S) (lib : EfiLib) (protocols : Protocols S) (nodes : PathNodes)
      (disk_io : DiskIo S) (on_lookup_fault : S → Option GptEntry × S) (stale : List ℕ) where
    -- The device of a disk with a partition table, and a kernel of it that was started.
    abbrev pub BootedFrom : S → Type 0
    BootedFrom s' =
        (disk : BootDisk) × IsGptDisk lib protocols disk
        × ((slot_suffix : List ℕ) × IsStarted services
              (uefi_ops (
                device_of services on_fault pool lib protocols nodes disk_io on_lookup_fault stale
                  disk))
              (device_of services on_fault pool lib protocols nodes disk_io on_lookup_fault stale
                disk)
              (boot_name slot_suffix) s')

    after_init-BootedFrom :
        (fuel : ℕ) (r : DiskResult × S)
        → ((disk : BootDisk) → r.0 ≡ found disk → IsGptDisk lib protocols disk)
        → (after_init services on_fault pool lib protocols nodes disk_io on_lookup_fault stale fuel
            r).0
          ≡ ended success
        → BootedFrom
            (after_init services on_fault pool lib protocols nodes disk_io on_lookup_fault stale
              fuel r).1
    unfolding after_init efi_main
    after_init-BootedFrom fuel (found disk, s) sound h =
        let device =
          device_of services on_fault pool lib protocols nodes disk_io on_lookup_fault stale disk in
        (
          disk,
          sound disk refl,
          main_loop-Succeeds (uefi_ops device) (boot_kernel services on_fault device)
              (IsStarted services (uefi_ops device) device) (boot_kernel_ok device) fuel s (cc),
        )
    after_init-BootedFrom fuel (not_found, s) sound h = cc
    after_init-BootedFrom fuel (Discovery.fault, s) sound h = cc
    after_init-BootedFrom fuel (Discovery.out_of_fuel, s) sound h = cc

    success-cases : (r : LoaderResult) → (r ≡ ended success) ⊎ (r ≢ ended success)
    success-cases (ended success) = inl refl
    success-cases (ended (aborted m)) = inr (λ h. cc)
    success-cases (ended Main.out_of_fuel) = inr (λ h. cc)
    success-cases unknown = inr (λ h. cc)
    success-cases out_of_fuel = inr (λ h. cc)

    -- Whatever the firmware, the disk and the metadata answer, if a call of bub_error does not return
    -- (it is declared so), and if an access outside a buffer in bub_boot_kernel is not followed by
    -- its success (one in the lookup of a partition, or an endless search there, may be followed by
    -- any answer of it): either the run does not come to the return of EFI_SUCCESS, or is not followed
    -- so far (past an access outside memory in bub_init, or past the rounds that the fuel allows); or
    -- it has found a medium with a valid header of a partition table, and in a partition "boot" with
    -- some suffix, as the lookup answers, the header was read, checked for the partition's size and
    -- accepted, and the kernel behind it was read, loaded and started.
    pub loader-BootedFrom :
        (path_fuel fuel image : ℕ) (s : S)
        → let out : LoaderResult × S =
            loader services on_fault pool lib protocols nodes disk_io on_lookup_fault stale
              path_fuel fuel image s in
          (out.0 ≢ ended success) ⊎ BootedFrom out.1
    unfolding loader
    loader-BootedFrom path_fuel fuel image s =
        let disk = bub_init pool lib protocols nodes path_fuel image s in
        elim (success-cases
          (after_init services on_fault pool lib protocols nodes disk_io on_lookup_fault stale fuel
            disk).0) [
              | inl e ↦ inr (
                  after_init-BootedFrom fuel disk
                    (λ disk e'.
                      bub_init-IsGptDisk pool lib protocols nodes path_fuel image s disk e')
                    e)
              | inr h ↦ inl h
            ]
