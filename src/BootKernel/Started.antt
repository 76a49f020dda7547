-- ===== src/BootKernel/Started.antt =====
-- What has happened when bub_boot_kernel returns that the kernel was started.
use brillo_device_generic_br.Base.{ℕ, ◌≡◌, refl, ap, Bool, true, false, Option, none, some, List}
use brillo_device_generic_br.Base.Int.{pos}
use brillo_device_generic_br.Ops.{BubOps, ReadResult}
use brillo_device_generic_br.AbFlow.{io_ok}
use brillo_device_generic_br.OpsUefi.{GptEntry, Device, img_size}
use brillo_device_generic_br.Main.{error_oom, error_io, error_partition_invalid_format}
use brillo_device_generic_br.BootKernel.{
  BootServices, returned, boot_img_hdr_size, kernel_size, page_size, overwrite, header_refused,
  load_kernel, read_kernel, check_header, find_partition, bub_boot_kernel,
}
use brillo_device_generic_br.BootKernel.Running.{IsRunning, IfOk, IfOk-map, load_kernel-IsRunning}

module _ {S : Type 0} (services : BootServices S) where
  -- The kernel was read from the partition behind its first page, and what LoadImage made of the
  -- buffer is running.
  pub record IsLoaded (ops : BubOps S) (name head : List ℕ) (s' : S) : Type 0 where
    pub memory : List ℕ
    pub reading : S
    pub read_done :
        io_ok
          (ops.read_from_partition name (pos (page_size head)) (kernel_size head) reading).0.result
        ≡ true
    pub image : ℕ
    pub loading : S
    pub loaded :
        (services.load_image
          (overwrite
            (ops.read_from_partition name (pos (page_size head)) (kernel_size head) reading).0.buf
            memory)
          (kernel_size head)
          loading).0
        ≡ some image
    pub running : IsRunning services head image s'

  -- The header was read from the start of the partition, and accepted for the partition's size.
  pub record IsStarted (ops : BubOps S) (device : Device S) (name : List ℕ) (s' : S) : Type 0 where
    pub memory : List ℕ
    pub reading : S
    pub read_done :
        io_ok (ops.read_from_partition name (pos 0) boot_img_hdr_size reading).0.result ≡ true
    pub entry : GptEntry
    pub finding : S
    pub found : (device.partition_entry_by_name name finding).0 ≡ some entry
    pub head : List ℕ
    pub head_read :
        head
        ≡ overwrite (ops.read_from_partition name (pos 0) boot_img_hdr_size reading).0.buf memory
    pub accepted : header_refused (img_size device.block_size entry) head ≡ false
    pub kernel : IsLoaded ops name head s'

  module _ (ops : BubOps S) (device : Device S) (name : List ℕ) where
    read_kernel-IsLoaded :
        (head : List ℕ) (s : S)
        → IfOk services (IsLoaded ops name head) (read_kernel services ops device name head s)
    unfolding read_kernel
    read_kernel-IsLoaded head s = by_memory (services.allocate_pool (kernel_size head) s)
      where
        Read : S → ReadResult × S
        Read = ops.read_from_partition name (pos (page_size head)) (kernel_size head)

        by_result :
            (buf : List ℕ) (s1 : S) (done : Bool)
            → io_ok (Read s1).0.result ≡ done
            → IfOk services (IsLoaded ops name head) (elim done [
              | false ↦ (returned error_io, (Read s1).1)
              | true ↦ load_kernel services head (overwrite (Read s1).0.buf buf) (Read s1).1
            ])
        by_result buf s1 false e = tt
        by_result buf s1 true e =
            IfOk-map services _ (IsLoaded ops name head)
              (load_kernel services head (overwrite (Read s1).0.buf buf) (Read s1).1)
              (λ s' (image, loaded, running). record {
                memory = buf;
                reading = s1;
                read_done = e;
                image = image;
                loading = (Read s1).1;
                loaded = loaded;
                running = running;
              })
              (load_kernel-IsRunning services head (overwrite (Read s1).0.buf buf) (Read s1).1)

        by_memory :
            (r : Option (List ℕ) × S)
            → IfOk services (IsLoaded ops name head) (elim r.0 [
              | none ↦ (returned error_oom, r.1)
              | some buf ↦ elim (io_ok (Read r.1).0.result) [
                | false ↦ (returned error_io, (Read r.1).1)
                | true ↦ load_kernel services head (overwrite (Read r.1).0.buf buf) (Read r.1).1
              ]
            ])
        by_memory (none, s1) = tt
        by_memory (some buf, s1) = by_result buf s1 _ refl

    -- What is known once the header and the entry are there.
    abbrev Accepted : List ℕ → S → Type 0
    Accepted head s' =
        (entry : GptEntry) × (finding : S) × ((device.partition_entry_by_name name finding).0
          ≡ some entry)
        × (header_refused (img_size device.block_size entry) head ≡ false)
        × IsLoaded ops name head s'

    check_header-Accepted :
        (head : List ℕ) (entry : GptEntry) (finding s : S)
        → (device.partition_entry_by_name name finding).0 ≡ some entry
        → IfOk services (Accepted head) (check_header services ops device name head entry s)
    unfolding check_header
    check_header-Accepted head entry finding s found =
        by_test (header_refused (img_size device.block_size entry) head) refl
      where
        by_test :
            (refused : Bool)
            → header_refused (img_size device.block_size entry) head ≡ refused
            → IfOk services (Accepted head) (elim refused [
              | true ↦ (returned error_partition_invalid_format, s)
              | false ↦ read_kernel services ops device name head s
            ])
        by_test true e = tt
        by_test false e =
            IfOk-map services (IsLoaded ops name head) (Accepted head)
              (read_kernel services ops device name head s) (λ s' l. (entry, finding, found, e, l))
              (read_kernel-IsLoaded head s)

    find_partition-Accepted :
        (head : List ℕ) (s : S)
        → IfOk services (Accepted head) (find_partition services ops device name head s)
    unfolding find_partition
    find_partition-Accepted head s = by_entry (device.partition_entry_by_name name s) refl
      where
        by_entry :
            (r : Option GptEntry × S)
            → device.partition_entry_by_name name s ≡ r
            → IfOk services (Accepted head) (elim r.0 [
              | none ↦ (returned error_io, r.1)
              | some e ↦ check_header services ops device name head e r.1
            ])
        by_entry (none, s') e = tt
        by_entry (some entry, s') e = check_header-Accepted head entry s s' (ap (λ r. r.0) e)

    -- Whatever the firmware and the disk answer, bub_boot_kernel returns success only after it has
    -- read the header from the start of the partition, found the partition's entry and accepted the
    -- header for its size, read the kernel behind the first page, loaded the buffer, written the
    -- header's command line as the options of the image, and started that image.
    pub bub_boot_kernel-IsStarted :
        (s : S)
        → IfOk services (IsStarted ops device name) (bub_boot_kernel services ops device name s)
    unfolding bub_boot_kernel
    bub_boot_kernel-IsStarted s = by_memory (services.allocate_pool boot_img_hdr_size s)
      where
        Read : S → ReadResult × S
        Read = ops.read_from_partition name (pos 0) boot_img_hdr_size

        by_result :
            (buf : List ℕ) (s1 : S) (done : Bool)
            → io_ok (Read s1).0.result ≡ done
            → IfOk services (IsStarted ops device name) (elim done [
              | false ↦ (returned error_io, (Read s1).1)
              | true ↦
                  find_partition services ops device name
                    (overwrite (Read s1).0.buf buf)
                    (Read s1).1
            ])
        by_result buf s1 false e = tt
        by_result buf s1 true e =
            IfOk-map services (Accepted (overwrite (Read s1).0.buf buf)) (IsStarted ops device name)
              (find_partition services ops device name (overwrite (Read s1).0.buf buf) (Read s1).1)
              (λ s' (entry, finding, found, accepted, loaded). record {
                memory = buf;
                reading = s1;
                read_done = e;
                entry = entry;
                finding = finding;
                found = found;
                head = overwrite (Read s1).0.buf buf;
                head_read = refl;
                accepted = accepted;
                kernel = loaded;
              })
              (find_partition-Accepted (overwrite (Read s1).0.buf buf) (Read s1).1)

        by_memory :
            (r : Option (List ℕ) × S)
            → IfOk services (IsStarted ops device name) (elim r.0 [
              | none ↦ (returned error_oom, r.1)
              | some buf ↦ elim (io_ok (Read r.1).0.result) [
                | false ↦ (returned error_io, (Read r.1).1)
                | true ↦
                    find_partition services ops device name
                      (overwrite (Read r.1).0.buf buf)
                      (Read r.1).1
              ]
            ])
        by_memory (none, s1) = tt
        by_memory (some buf, s1) = by_result buf s1 _ refl
