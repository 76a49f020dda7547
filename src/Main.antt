-- ===== src/Main.antt =====
-- brillo_uefi_x86_64/boot_loader/bub_main.c: the main loop of the boot loader. bub_init and
-- bub_boot_kernel of bub_boot_kernel.c, which call the UEFI services, are functions that the
-- definitions take. The model of a run goes up to the first call of `bub_error`, which prints a
-- message and calls bub_abort. bub_sysdeps.h declares that with the attribute noreturn; what would
-- follow if BS->Exit returned in it has no meaning in C and is not modelled.
pub mod Loop
use brillo_device_generic_br.Base.{
  ℕ, zero, suc, Bool, true, false, not, List, [], ◌∷◌, ◌++◌, ◌==◌, if◌then◌else◌,
}
use brillo_device_generic_br.Ops.{BubOps}
use brillo_device_generic_br.AbData
use brillo_device_generic_br.AbData.{BubAbFlowResult}
use brillo_device_generic_br.AbFlow.{bub_ab_flow, bub_ab_mark_as_invalid}

pub data BubBootResult : Type 0 where
  ok error_oom error_io error_partition_invalid_format error_load_kernel error_parameter_load
        error_start_kernel :
      BubBootResult

-- The calls of `bub_error`, by their messages.
pub data Message : Type 0 where
  could_not_initialize could_not_choose_slot could_not_mark_slot error_loading_kernel : Message

pub data MainResult : Type 0 where
  -- EFI_SUCCESS is returned
  success : MainResult
  -- the run has come to this call of `bub_error`, where its model stops
  aborted : Message → MainResult
  out_of_fuel : MainResult

-- The bytes of a string before its NUL.
unfoldable pub c_string : List ℕ → List ℕ
c_string [] = []
c_string (c ∷ cs) = let rest = c_string cs in if c == 0 then [] else c ∷ rest

-- The name that is passed on: "boot", with the three bytes of the suffix copied behind it.
unfoldable pub boot_name : List ℕ → List ℕ
boot_name slot_suffix = c_string (b'b' ∷ b'o' ∷ b'o' ∷ b't' ∷ slot_suffix)

module _ {S : Type 0} (ops : BubOps S) (bub_boot_kernel : List ℕ → S → BubBootResult × S) where
  -- One round of the loop; `next` is what follows when its condition holds.
  unfoldable pub after_mark : (S → MainResult × S) → ℕ × S → MainResult × S
  after_mark next (zero, s) = next s
  after_mark next (suc code, s) = (aborted could_not_mark_slot, s)

  unfoldable pub after_boot : (S → MainResult × S) → List ℕ → BubBootResult × S → MainResult × S
  after_boot next slot_suffix (error_partition_invalid_format, s) =
      after_mark next (bub_ab_mark_as_invalid ops slot_suffix s)
  after_boot next slot_suffix (ok, s) = (success, s)
  after_boot next slot_suffix (_, s) = (aborted error_loading_kernel, s)

  unfoldable pub after_flow : (S → MainResult × S) → BubAbFlowResult → List ℕ → S → MainResult × S
  after_flow next AbData.ok slot_suffix s =
      after_boot next slot_suffix (bub_boot_kernel (boot_name slot_suffix) s)
  after_flow next _ slot_suffix s = (aborted could_not_choose_slot, s)

  unfoldable pub main_loop : ℕ → S → MainResult × S
  main_loop zero s = (out_of_fuel, s)
  main_loop (suc fuel) s =
      let (ab_result, slot_suffix, s') = bub_ab_flow ops s in
      after_flow (main_loop fuel) ab_result slot_suffix s'

  unfoldable pub efi_main : (S → Bool × S) → ℕ → S → MainResult × S
  efi_main bub_init fuel s =
      let (initialized, s') = bub_init s in
      elim initialized [ false ↦ (aborted could_not_initialize, s') | true ↦ main_loop fuel s' ]
