-- ===== src/Examples/Kernel.antt =====
-- The checks of a boot image on a device of two small partitions.
use brillo_device_generic_br.Base.{
  ℕ, ◌≤◌, ◌<◌, ◌≡◌, ◌⊎◌, refl, true, List, [], ◌∷◌, ◌++◌, none, some, arith, replicate,
}
use brillo_device_generic_br.OpsUefi.{GptEntry, Device, uefi_ops}
use brillo_device_generic_br.OpsUefi.Range.{IsPlaced, size}
use brillo_device_generic_br.Main.{error_partition_invalid_format}
use brillo_device_generic_br.BootKernel.{
  BootServices, returned, boot_magic, widen, read_kernel, find_partition,
}
use brillo_device_generic_br.BootKernel.Header.{IsBootImage, find_partition-IsBootImage}
use brillo_device_generic_br.BootKernel.CommandLine.{widen-cases}

abbrev pub boot_entry : GptEntry
boot_entry = record { first_lba = 34; last_lba = 50 }

-- The state is what the disk holds; nothing here changes it.
abbrev boot_device : Device (List ℕ)
boot_device = record {
  block_size = 512;
  read_disk = λ position num_bytes s. (some s, s);
  write_disk = λ position buf s. (true, s);
  partition_entry_by_name = λ name s. (some boot_entry, s);
}

abbrev pub firmware : BootServices (List ℕ)
firmware = record {
  allocate_pool = λ n s. (some (replicate n 0), s);
  load_image = λ kernel n s. (some 1, s);
  handle_protocol = λ image s. (true, s);
  set_load_options = λ image chars n s. s;
  start_image = λ image s. (true, s);
}

-- A header of a kernel of 4096 bytes behind a page of 2048.
abbrev pub head : List ℕ
head = boot_magic ++ (0 ∷ 16 ∷ 0 ∷ 0 ∷ replicate 24 0) ++ (0 ∷ 8 ∷ 0 ∷ 0 ∷ replicate 1592 0)

pub boot_entry-IsPlaced : IsPlaced 512 boot_entry
boot_entry-IsPlaced = omega arith

find_partition-IsBootImage_example :
    (IsBootImage (size 512 boot_entry) head
      × (find_partition firmware (uefi_ops boot_device) boot_device [] head []
          ≡ read_kernel firmware (uefi_ops boot_device) boot_device [] head []))
    ⊎ ((¬ IsBootImage (size 512 boot_entry) head)
        × (find_partition firmware (uefi_ops boot_device) boot_device [] head []
            ≡ (returned error_partition_invalid_format, [])))
find_partition-IsBootImage_example =
    find_partition-IsBootImage firmware (uefi_ops boot_device) boot_device [] boot_entry [] []
      boot_entry-IsPlaced (omega arith) refl head

widen-cases_example :
    (2 < 3 → widen 3 (7 ∷ 8 ∷ 0 ∷ 9 ∷ []) ≡ some (7 ∷ 8 ∷ []))
    × (3 ≤ 2 → widen 3 (7 ∷ 8 ∷ 9 ∷ []) ≡ none)
widen-cases_example = widen-cases 3 (7 ∷ 8 ∷ []) (9 ∷ []) (omega arith)
