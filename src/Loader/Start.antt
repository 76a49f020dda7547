-- ===== src/Loader/Start.antt =====
-- Which kernel the boot loader starts.
use brillo_device_generic_br.Base.{
  ℕ, suc, ◌≡◌, ◌≢◌, ◌⊎◌, inl, inr, refl, sym, ap, ◌∙◌, subst, none, some, List, length,
}
use brillo_device_generic_br.Base.Int.{pos}
use brillo_device_generic_br.Ops
use brillo_device_generic_br.Ops.{MiscLaws, misc_name, ab_data_size}
use brillo_device_generic_br.AbData.{BubAbData}
use brillo_device_generic_br.AbFlow.{read, suffix, bub_ab_flow}
use brillo_device_generic_br.AbFlow.Machine.{view, boot}
use brillo_device_generic_br.AbFlow.Misc.{loaded, settled}
use brillo_device_generic_br.AbFlow.Boot.{bub_ab_flow_ready}
use brillo_device_generic_br.AbFlow.Invalid.{without_slot}
use brillo_device_generic_br.OpsUefi.{Device, uefi_ops}
use brillo_device_generic_br.Main.{
  BubBootResult, ok, error_partition_invalid_format, MainResult, success, aborted,
  could_not_choose_slot, could_not_mark_slot, error_loading_kernel, boot_name, after_boot,
  error_oom, error_io, error_load_kernel, error_parameter_load, error_start_kernel, main_loop,
}
use brillo_device_generic_br.Main.Loop.{main_loop-first_round, main_loop-after_boot, end_of}
use brillo_device_generic_br.BootKernel.{
  BootServices, KernelOutcome, returned, fault, bub_boot_kernel,
}
use brillo_device_generic_br.BootKernel.Running.{IfOk}
use brillo_device_generic_br.BootKernel.Started.{IsStarted, bub_boot_kernel-IsStarted}
use brillo_device_generic_br.BootKernel.Keeps.{KeepsAll, bub_boot_kernel_keeps}
use brillo_device_generic_br.Loader.{kernel_result, boot_kernel, loop_on}

module _ {S : Type 0} (services : BootServices S) (on_fault : S → BubBootResult × S) where
  kernel_result_keeps :
      (P : S → Type 0) (r : KernelOutcome × S)
      → r.0 ≢ fault
      → P r.1
      → P (kernel_result services on_fault r).1
  unfolding kernel_result
  kernel_result_keeps P (returned r, s) h p = p
  kernel_result_keeps P (fault, s) h p = absurd (h refl)

  pub kernel_result_ok :
      (P : S → Type 0) (r : KernelOutcome × S)
      → r.0 ≢ fault
      → IfOk services P r
      → (kernel_result services on_fault r).0 ≡ ok
      → P (kernel_result services on_fault r).1
  unfolding kernel_result
  kernel_result_ok P (returned ok, s) h p e = p
  kernel_result_ok P (returned error_oom, s) h p e = cc
  kernel_result_ok P (returned error_io, s) h p e = cc
  kernel_result_ok P (returned error_partition_invalid_format, s) h p e = cc
  kernel_result_ok P (returned error_load_kernel, s) h p e = cc
  kernel_result_ok P (returned error_parameter_load, s) h p e = cc
  kernel_result_ok P (returned error_start_kernel, s) h p e = cc
  kernel_result_ok P (fault, s) h p e = absurd (h refl)

result-cases :
    (r : BubBootResult)
    → (r ≡ ok) ⊎ ((r ≡ error_partition_invalid_format) ⊎ (end_of r ≡ aborted error_loading_kernel))
result-cases ok = inl refl
result-cases error_partition_invalid_format = inr (inl refl)
result-cases error_oom = inr (inr refl)
result-cases error_io = inr (inr refl)
result-cases error_load_kernel = inr (inr refl)
result-cases error_parameter_load = inr (inr refl)
result-cases error_start_kernel = inr (inr refl)

module _ {S : Type 0} (services : BootServices S) (on_fault : S → BubBootResult × S)
    (device : Device S) (IsReady : S → Type 0) (misc : S → List ℕ)
    (laws : MiscLaws (uefi_ops device) IsReady misc)
    (options_fit : (name : List ℕ) (s : S)
      → IsReady s
      → (bub_boot_kernel services (uefi_ops device) device name s).0 ≢ fault)
    (keeps : (name b : List ℕ)
      → KeepsAll services (uefi_ops device) device name (λ t. IsReady t × (misc t ≡ b)))
    (writes : (s : S) (buf : List ℕ)
      → IsReady s
      → length buf ≡ ab_data_size
      → ((uefi_ops device).write_to_partition misc_name buf (pos 0) s).0 ≡ Ops.ok) where
  kept :
      (name : List ℕ) (s : S)
      → IsReady s
      → IsReady (boot_kernel services on_fault device name s).1
        × (misc (boot_kernel services on_fault device name s).1 ≡ misc s)
  unfolding boot_kernel
  kept name s r =
      kernel_result_keeps services on_fault (λ t. IsReady t × (misc t ≡ misc s))
        (bub_boot_kernel services (uefi_ops device) device name s) (options_fit name s r)
        (bub_boot_kernel_keeps services (uefi_ops device) device name _ (keeps name (misc s)) s
          (r, refl))

  started :
      (name : List ℕ) (s : S)
      → IsReady s
      → (boot_kernel services on_fault device name s).0 ≡ ok
      → IsStarted services
          (uefi_ops device)
          device
          name
          (boot_kernel services on_fault device name s).1
  unfolding boot_kernel
  started name s r =
      kernel_result_ok services on_fault (IsStarted services (uefi_ops device) device name)
        (bub_boot_kernel services (uefi_ops device) device name s) (options_fit name s r)
        (bub_boot_kernel-IsStarted services (uefi_ops device) device name s)

  abbrev kernel : List ℕ → S → BubBootResult × S
  kernel = boot_kernel services on_fault device

  after_boot_ok :
      (next : S → MainResult × S) (slot_suffix : List ℕ) (r : BubBootResult × S)
      → r.0 ≡ ok
      → after_boot (uefi_ops device) kernel next slot_suffix r ≡ (success, r.1)
  unfolding after_boot
  after_boot_ok next slot_suffix r e = rw (e, after_boot)

  -- What the loop has done when it ends, in the slot that the machine boots.
  abbrev pub SlotTried : ℕ → BubAbData → MainResult × S → Type 0
  SlotTried i d out =
      ((out.0 ≡ success) × IsStarted services (uefi_ops device) device (boot_name (suffix i)) out.1)
      ⊎ ((out.0 ≡ aborted error_loading_kernel)
          ⊎ ((out.0 ≡ aborted could_not_mark_slot)
              × ((x : BubAbData) × (view x ≡ (boot (view d)).1)
                  × (loaded (uefi_ops device) IsReady misc laws out.1
                      ≡ read (settled (without_slot i x))))))

  -- On a platform that keeps the promises of MiscLaws, whose services, reads and lookups keep the
  -- metadata and the platform ready, where every write of the metadata succeeds, and where no call of
  -- bub_boot_kernel accesses memory outside a buffer (its command lines fit), the loop on intact
  -- metadata ends in its first round, if a call of bub_error does not return. It aborts when the
  -- abstract machine has no slot to boot. Otherwise it returns success, and then the kernel of the
  -- partition of the slot that the machine boots was read, checked for the partition's size, loaded
  -- and started; or it aborts for an error in loading a kernel; or that slot is zeroed on the disk,
  -- and the loop aborts.
  pub main_loop-IsStarted :
      (fuel : ℕ) (d : BubAbData) (s : S)
      → IsReady s
      → loaded (uefi_ops device) IsReady misc laws s ≡ read d
      → let out : MainResult × S = loop_on services on_fault device (suc fuel) s in
        (((boot (view d)).0 ≡ none) × (out.0 ≡ aborted could_not_choose_slot))
        ⊎ ((i : ℕ) × ((boot (view d)).0 ≡ some i) × SlotTried i d out)
  main_loop-IsStarted fuel d s r e =
      elim (main_loop-first_round (uefi_ops device) IsReady misc laws kernel kernel_ready
        kernel_keeps writes fuel d s r e) [
          | inl none_left ↦ inl none_left
          | inr (i, some_left, ended, zeroed) ↦ inr (
            i,
            some_left,
            elim (result-cases (tried i).0) [
              | inl fine ↦ inl (running i some_left fine)
              | inr (inl bad) ↦ inr (inr (ended ∙ ap end_of bad, zeroed bad))
              | inr (inr failed) ↦ inr (inl (ended ∙ failed))
            ],
          )
        ]
    where
      kernel_ready : (name : List ℕ) (s : S) → IsReady s → IsReady (kernel name s).1
      kernel_ready name s r = (kept name s r).0

      kernel_keeps : (name : List ℕ) (s : S) → IsReady s → misc (kernel name s).1 ≡ misc s
      kernel_keeps name s r = (kept name s r).1

      tried : ℕ → BubBootResult × S
      tried i = kernel (boot_name (suffix i)) (bub_ab_flow (uefi_ops device) s).2

      running :
          (i : ℕ)
          → (boot (view d)).0 ≡ some i
          → (tried i).0 ≡ ok
          → ((loop_on services on_fault device (suc fuel) s).0 ≡ success)
            × IsStarted services
                (uefi_ops device)
                device
                (boot_name (suffix i))
                (loop_on services on_fault device (suc fuel) s).1
      running i some_left fine =
          let whole =
            main_loop-after_boot (uefi_ops device) IsReady misc laws kernel kernel_ready
              kernel_keeps writes fuel i d s r e some_left
            ∙ after_boot_ok (main_loop (uefi_ops device) kernel fuel) (suffix i) (tried i) fine in
          (
            ap (λ o. o.0) whole,
            subst (λ o. IsStarted services (uefi_ops device) device (boot_name (suffix i)) o)
                (sym (ap (λ o. o.1) whole))
                (started (boot_name (suffix i)) (bub_ab_flow (uefi_ops device) s).2
                  (bub_ab_flow_ready (uefi_ops device) IsReady misc laws d s r e) fine),
          )
