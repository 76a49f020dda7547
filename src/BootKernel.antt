-- ===== src/BootKernel.antt =====
-- bub_boot_kernel and LoadParameters of brillo_uefi_x86_64/boot_loader/bub_boot_kernel.c: reading,
-- checking and starting a kernel image. The UEFI boot services and the lookup of a partition are
-- functions that the definitions take. Memory is a list of bytes; the pools are never freed.
pub mod Header
pub mod CommandLine
pub mod Running
pub mod Started
pub mod Keeps
use brillo_device_generic_br.Base.{
  ℕ, zero, suc, ◌+◌, ◌*◌, ◌-◌, ◌%◌, ◌^◌, Bool, true, false, not, ◌||◌, Option, none, some, List, [],
  ◌∷◌, ◌++◌, ◌==◌, ltb, if◌then◌else◌, bytes_eq, take, drop, length,
}
use brillo_device_generic_br.Base.Int.{pos}
use brillo_device_generic_br.Util.{host_value}
use brillo_device_generic_br.Ops.{BubOps, ReadResult}
use brillo_device_generic_br.AbFlow.{io_ok}
use brillo_device_generic_br.OpsUefi.{GptEntry, Device, img_size}
use brillo_device_generic_br.Main.{
  BubBootResult, ok, error_oom, error_io, error_partition_invalid_format, error_load_kernel,
  error_parameter_load, error_start_kernel,
}

-- {'A','N','D','R','O','I','D','!'}
abbrev pub boot_magic : List ℕ
boot_magic = b'A' ∷ b'N' ∷ b'D' ∷ b'R' ∷ b'O' ∷ b'I' ∷ b'D' ∷ b'!' ∷ []

-- sizeof(boot_img_hdr)
abbrev pub boot_img_hdr_size : ℕ
boot_img_hdr_size = 1632

abbrev pub boot_args_size : ℕ
boot_args_size = 512

-- The fields of the packed header that are used, in the bytes of the header.
unfoldable pub header_magic : List ℕ → List ℕ
header_magic head = take 8 head

unfoldable pub kernel_size : List ℕ → ℕ
kernel_size head = host_value (take 4 (drop 8 head))

unfoldable pub page_size : List ℕ → ℕ
page_size head = host_value (take 4 (drop 36 head))

-- From the command line to the end of the header.
unfoldable pub cmdline : List ℕ → List ℕ
cmdline head = drop 64 head

-- Calls of the boot services, `none` and `false` for an EFI error: AllocatePool gives what stands
-- in the memory, LoadImage takes the image and its size and gives a handle, HandleProtocol finds
-- the loaded image of a handle, to which the load options are then written.
pub record BootServices (S : Type 0) : Type 0 where
  pub allocate_pool : ℕ → S → Option (List ℕ) × S
  pub load_image : List ℕ → ℕ → S → Option ℕ × S
  pub handle_protocol : ℕ → S → Bool × S
  -- handle, CHAR16 values before the NUL, LoadOptionsSize
  pub set_load_options : ℕ → List ℕ → ℕ → S → S
  pub start_image : ℕ → S → Bool × S

-- `fault` is a read or a write outside a buffer.
pub data KernelOutcome : Type 0 where
  returned : BubBootResult → KernelOutcome
  fault : KernelOutcome

-- The loop that widens the command line, into a buffer with room for so many CHAR16 values.
unfoldable pub widen : ℕ → List ℕ → Option (List ℕ)
widen zero cs = none
widen (suc room) [] = none
widen (suc room) (c ∷ cs) =
    let rest = widen room cs in
    if c == 0 then some [] else elim rest [ none ↦ none | some chars ↦ some (c ∷ chars) ]

-- What stands in a buffer after bytes are read into it.
unfoldable pub overwrite : List ℕ → List ℕ → List ℕ
overwrite bytes buf = bytes ++ drop (length bytes) buf

-- The three tests of the header, in 64 bits: whether it is refused.
unfoldable pub header_refused : ℕ → List ℕ → Bool
unfolding header_magic kernel_size page_size
header_refused partition_size head =
    not (bytes_eq boot_magic (header_magic head))
    || (ltb partition_size (kernel_size head)
        || ltb ((partition_size + 2 ^ 64 - boot_img_hdr_size) % 2 ^ 64) (page_size head))

module _ {S : Type 0} (services : BootServices S) where
  -- LoadParameters, once the options have their memory.
  unfoldable pub write_parameters : ℕ → Option (List ℕ) → S → Option Bool × S
  write_parameters image none s = (none, s)
  write_parameters image (some chars) s =
      (some true, services.set_load_options image chars (2 * length chars) s)

  -- `some` tells success; `none` is a fault.
  unfoldable pub load_parameters : ℕ → List ℕ → S → Option Bool × S
  load_parameters image head s =
      let (found, s1) = services.handle_protocol image s in
      elim found [
        | false ↦ (some false, s1)
        | true ↦
            let (memory, s2) = services.allocate_pool (2 * boot_args_size) s1 in
            elim memory [
              | none ↦ (some false, s2)
              | some _ ↦ write_parameters image (widen boot_args_size (cmdline head)) s2
            ]
      ]

  unfoldable pub start_kernel : ℕ → S → KernelOutcome × S
  start_kernel image s =
      let (started, s') = services.start_image image s in
      (returned (if started then ok else error_start_kernel), s')

  unfoldable pub after_parameters : ℕ → Option Bool × S → KernelOutcome × S
  after_parameters image (none, s) = (fault, s)
  after_parameters image (some false, s) = (returned error_parameter_load, s)
  after_parameters image (some true, s) = start_kernel image s

  unfoldable pub load_kernel : List ℕ → List ℕ → S → KernelOutcome × S
  load_kernel head kernel s =
      let (handle, s') = services.load_image kernel (kernel_size head) s in
      elim handle [
        | none ↦ (returned error_load_kernel, s')
        | some image ↦ after_parameters image (load_parameters image head s')
      ]

  module _ (ops : BubOps S) (device : Device S) (boot_partition_name : List ℕ) where
    unfoldable pub read_kernel : List ℕ → S → KernelOutcome × S
    read_kernel head s =
        let (memory, s1) = services.allocate_pool (kernel_size head) s in
        elim memory [
          | none ↦ (returned error_oom, s1)
          | some buf ↦
              let (r, s2) =
                ops.read_from_partition boot_partition_name (pos (page_size head))
                  (kernel_size head) s1 in
              elim (io_ok r.result) [
                | false ↦ (returned error_io, s2)
                | true ↦ load_kernel head (overwrite r.buf buf) s2
              ]
        ]

    unfoldable pub check_header : List ℕ → GptEntry → S → KernelOutcome × S
    check_header head e s = elim (header_refused (img_size device.block_size e) head) [
      | true ↦ (returned error_partition_invalid_format, s)
      | false ↦ read_kernel head s
    ]

    unfoldable pub find_partition : List ℕ → S → KernelOutcome × S
    find_partition head s =
        let (entry, s') = device.partition_entry_by_name boot_partition_name s in
        elim entry [ none ↦ (returned error_io, s') | some e ↦ check_header head e s' ]

    unfoldable pub bub_boot_kernel : S → KernelOutcome × S
    bub_boot_kernel s =
        let (memory, s1) = services.allocate_pool boot_img_hdr_size s in
        elim memory [
          | none ↦ (returned error_oom, s1)
          | some buf ↦
              let (r, s2) =
                ops.read_from_partition boot_partition_name (pos 0) boot_img_hdr_size s1 in
              elim (io_ok r.result) [
                | false ↦ (returned error_io, s2)
                | true ↦ find_partition (overwrite r.buf buf) s2
              ]
        ]
