-- ===== src/BootKernel/Keeps.antt =====
-- What bub_boot_kernel leaves as it is.
use brillo_device_generic_br.Base.{ℕ, ◌*◌, Bool, true, false, Option, none, some, List, length}
use brillo_device_generic_br.Base.Int.{ℤ, pos}
use brillo_device_generic_br.Ops.{BubOps, ReadResult}
use brillo_device_generic_br.AbFlow.{io_ok}
use brillo_device_generic_br.OpsUefi.{GptEntry, Device, img_size}
use brillo_device_generic_br.Main.{
  error_oom, error_io, error_partition_invalid_format, error_load_kernel,
}
use brillo_device_generic_br.BootKernel.{
  BootServices, KernelOutcome, returned, boot_img_hdr_size, boot_args_size, kernel_size, page_size,
  cmdline, widen, overwrite, header_refused, write_parameters, load_parameters, start_kernel,
  after_parameters, load_kernel, read_kernel, check_header, find_partition, bub_boot_kernel,
}

-- The boot services, the lookup and the reads of a partition keep `P`.
pub record KeepsAll {S : Type 0} (services : BootServices S) (ops : BubOps S) (device : Device S)
    (name : List ℕ) (P : S → Type 0) : Type 0 where
  pub allocate : (n : ℕ) (s : S) → P s → P (services.allocate_pool n s).1
  pub load : (kernel : List ℕ) (n : ℕ) (s : S) → P s → P (services.load_image kernel n s).1
  pub handle : (image : ℕ) (s : S) → P s → P (services.handle_protocol image s).1
  pub options :
      (image n : ℕ) (chars : List ℕ) (s : S) → P s → P (services.set_load_options image chars n s)
  pub start : (image : ℕ) (s : S) → P s → P (services.start_image image s).1
  pub read : (offset : ℤ) (n : ℕ) (s : S) → P s → P (ops.read_from_partition name offset n s).1
  pub lookup : (s : S) → P s → P (device.partition_entry_by_name name s).1

module _ {S : Type 0} (services : BootServices S) (ops : BubOps S) (device : Device S)
    (name : List ℕ) (P : S → Type 0) (keeps : KeepsAll services ops device name P) where
  load_parameters_keeps :
      (image : ℕ) (head : List ℕ) (s : S) → P s → P (load_parameters services image head s).1
  unfolding load_parameters write_parameters
  load_parameters_keeps image head s p =
      by_found (services.handle_protocol image s) (keeps.handle image s p)
    where
      by_chars :
          (chars : Option (List ℕ)) (s : S) → P s → P (write_parameters services image chars s).1
      by_chars none s p = p
      by_chars (some chars) s p = keeps.options image (2 * length chars) chars s p

      by_memory :
          (r : Option (List ℕ) × S)
          → P r.1
          → P
              (elim r.0 as (λ _. Option Bool × S) [
                | none ↦ (some false, r.1)
                | some _ ↦ write_parameters services image (widen boot_args_size (cmdline head)) r.1
              ]).1
      by_memory (none, s) p = p
      by_memory (some memory, s) p = by_chars (widen boot_args_size (cmdline head)) s p

      by_found :
          (r : Bool × S)
          → P r.1
          → P
              (elim r.0 as (λ _. Option Bool × S) [
                | false ↦ (some false, r.1)
                | true ↦
                    let (memory, s2) = services.allocate_pool (2 * boot_args_size) r.1 in
                    elim memory [
                      | none ↦ (some false, s2)
                      | some _ ↦
                          write_parameters services image (widen boot_args_size (cmdline head)) s2
                    ]
              ]).1
      by_found (false, s) p = p
      by_found (true, s) p =
          by_memory (services.allocate_pool (2 * boot_args_size) s) (keeps.allocate _ s p)

  after_parameters_keeps :
      (image : ℕ) (r : Option Bool × S) → P r.1 → P (after_parameters services image r).1
  unfolding after_parameters start_kernel
  after_parameters_keeps image (none, s) p = p
  after_parameters_keeps image (some false, s) p = p
  after_parameters_keeps image (some true, s) p = keeps.start image s p

  load_kernel_keeps :
      (head kernel : List ℕ) (s : S) → P s → P (load_kernel services head kernel s).1
  unfolding load_kernel
  load_kernel_keeps head kernel s p =
      by_handle (services.load_image kernel (kernel_size head) s) (keeps.load kernel _ s p)
    where
      by_handle :
          (r : Option ℕ × S)
          → P r.1
          → P
              (elim r.0 as (λ _. KernelOutcome × S) [
                | none ↦ (returned error_load_kernel, r.1)
                | some image ↦
                    after_parameters services image (load_parameters services image head r.1)
              ]).1
      by_handle (none, s) p = p
      by_handle (some image, s) p =
          after_parameters_keeps image (load_parameters services image head s)
            (load_parameters_keeps image head s p)

  -- A buffer is allocated and filled by a read; then `next` goes on.
  abbrev filled :
      (S → Option (List ℕ) × S)
      → (S → ReadResult × S)
      → (List ℕ → S → KernelOutcome × S)
      → S
      → KernelOutcome × S
  filled allocate read next s =
      let (memory, s1) = allocate s in
      elim memory [
        | none ↦ (returned error_oom, s1)
        | some buf ↦
            let (r, s2) = read s1 in
            elim (io_ok r.result) [
              | false ↦ (returned error_io, s2)
              | true ↦ next (overwrite r.buf buf) s2
            ]
      ]

  filled_keeps :
      (allocate : S → Option (List ℕ) × S) (read : S → ReadResult × S)
      (next : List ℕ → S → KernelOutcome × S)
      → ((s : S) → P s → P (allocate s).1)
      → ((s : S) → P s → P (read s).1)
      → ((buf : List ℕ) (s : S) → P s → P (next buf s).1)
      → (s : S) → P s
      → P (filled allocate read next s).1
  filled_keeps allocate read next a b c s p = by_memory (allocate s) (a s p)
    where
      by_result :
          (buf : List ℕ) (r : ReadResult × S) (done : Bool)
          → P r.1
          → P
              (elim done as (λ _. KernelOutcome × S) [
                | false ↦ (returned error_io, r.1)
                | true ↦ next (overwrite r.0.buf buf) r.1
              ]).1
      by_result buf r false p = p
      by_result buf r true p = c (overwrite r.0.buf buf) r.1 p

      by_memory :
          (m : Option (List ℕ) × S)
          → P m.1
          → P
              (elim m.0 as (λ _. KernelOutcome × S) [
                | none ↦ (returned error_oom, m.1)
                | some buf ↦
                    let (r, s2) = read m.1 in
                    elim (io_ok r.result) [
                      | false ↦ (returned error_io, s2)
                      | true ↦ next (overwrite r.buf buf) s2
                    ]
              ]).1
      by_memory (none, s1) p = p
      by_memory (some buf, s1) p = by_result buf (read s1) (io_ok (read s1).0.result) (b s1 p)

  read_kernel_keeps :
      (head : List ℕ) (s : S) → P s → P (read_kernel services ops device name head s).1
  unfolding read_kernel
  read_kernel_keeps head =
      filled_keeps (services.allocate_pool (kernel_size head))
        (ops.read_from_partition name (pos (page_size head)) (kernel_size head))
        (load_kernel services head) (keeps.allocate _) (keeps.read _ _) (load_kernel_keeps head)

  check_header_keeps :
      (head : List ℕ) (e : GptEntry) (s : S)
      → P s
      → P (check_header services ops device name head e s).1
  unfolding check_header
  check_header_keeps head e s p = by_test (header_refused (img_size device.block_size e) head)
    where
      by_test :
          (refused : Bool)
          → P
              (elim refused as (λ _. KernelOutcome × S) [
                | true ↦ (returned error_partition_invalid_format, s)
                | false ↦ read_kernel services ops device name head s
              ]).1
      by_test true = p
      by_test false = read_kernel_keeps head s p

  find_partition_keeps :
      (head : List ℕ) (s : S) → P s → P (find_partition services ops device name head s).1
  unfolding find_partition
  find_partition_keeps head s p =
      by_entry (device.partition_entry_by_name name s) (keeps.lookup s p)
    where
      by_entry :
          (r : Option GptEntry × S)
          → P r.1
          → P
              (elim r.0 as (λ _. KernelOutcome × S) [
                | none ↦ (returned error_io, r.1)
                | some e ↦ check_header services ops device name head e r.1
              ]).1
      by_entry (none, s) p = p
      by_entry (some e, s) p = check_header_keeps head e s p

  -- What every service, read and lookup keeps, bub_boot_kernel keeps.
  pub bub_boot_kernel_keeps : (s : S) → P s → P (bub_boot_kernel services ops device name s).1
  unfolding bub_boot_kernel
  bub_boot_kernel_keeps =
      filled_keeps (services.allocate_pool boot_img_hdr_size)
        (ops.read_from_partition name (pos 0) boot_img_hdr_size)
        (find_partition services ops device name) (keeps.allocate _) (keeps.read _ _)
        find_partition_keeps
