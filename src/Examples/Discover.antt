-- ===== src/Examples/Discover.antt =====
-- A disk with a partition table, at the end of a device path of three nodes.
use brillo_device_generic_br.Base.{
  ℕ, ◌≡◌, ◌≢◌, ◌⊎◌, replicate, refl, Bool, true, false, List, [], ◌∷◌, some, arith, ◌==◌,
}
use brillo_device_generic_br.Gpt.{
  validate_gpt, signature, revision, header_size, header_crc32, without_crc,
}
use brillo_device_generic_br.Util.{host_value}
use brillo_device_generic_br.Base.{bytes_eq}
use brillo_device_generic_br.Sysdeps.{bub_malloc_}
use brillo_device_generic_br.Discovery.{
  Protocols, PathNodes, BootDisk, found, walk_disk, bub_init, walk_path, after_walk, after_copy,
  after_block_handle, after_disk_handle, after_block_io, after_disk_io, check_disk, after_media,
  after_read, after_validation, search_path, get_disk_block_io, after_image,
}
use brillo_device_generic_br.Discovery.Disk.{IsGptDisk, bub_init-IsGptDisk}
use brillo_device_generic_br.Discovery.Paths.{AreNodes, try_paths, tried, join, walk_disk-tried}
use brillo_device_generic_br.BootKernel.{BootServices}
use brillo_device_generic_br.Main.{error_io, ok, success}
use brillo_device_generic_br.Loader.{DiskIo, LoaderResult, ended, loader}
use brillo_device_generic_br.Loader.Safe.{BootedFrom, loader-BootedFrom}
use brillo_device_generic_br.Examples.Kernel.{head}
use brillo_device_generic_br.Examples.Memory.{Pool, pool, unused}
use brillo_device_generic_br.Examples.Table.{lib, header, no_partition}

abbrev first_is_end : List ℕ → Bool
first_is_end [] = true
first_is_end (kind ∷ bytes) = kind == 127

-- Nodes of two bytes; the kind 127 ends a path.
abbrev path_nodes : PathNodes
path_nodes = record {
  is_path_end = first_is_end;
  node_length = λ bytes. 2;
  end_device_path = 127 ∷ 2 ∷ [];
}

abbrev protocols : Protocols Pool
protocols = record {
  device_path_from_handle = λ handle s. (some (1 ∷ 2 ∷ 4 ∷ 2 ∷ 127 ∷ 2 ∷ []), s);
  locate_device_path = λ protocol path s. (some (4, 7), s);
  handle_protocol = λ handle protocol s. (some 9, s);
  device_handle = λ image s. 5;
  media = λ block_io s. record { logical_partition = false; media_present = true };
  read_blocks = λ block_io lba num_bytes s. (some header, s);
}

three_nodes : AreNodes path_nodes ((1 ∷ 2 ∷ []) ∷ (4 ∷ 2 ∷ []) ∷ (127 ∷ 2 ∷ []) ∷ [])
unfolding join
three_nodes = (refl, refl, (refl, refl, (refl, refl)))

walk_disk-tried_example :
    walk_disk pool lib protocols path_nodes 3
      (join ((1 ∷ 2 ∷ []) ∷ (4 ∷ 2 ∷ []) ∷ (127 ∷ 2 ∷ []) ∷ []))
      0
      unused
    ≡ try_paths pool lib protocols
        (tried path_nodes.end_device_path [] ((1 ∷ 2 ∷ []) ∷ (4 ∷ 2 ∷ []) ∷ (127 ∷ 2 ∷ []) ∷ []))
        unused
walk_disk-tried_example =
    walk_disk-tried pool lib protocols path_nodes 3 (1 ∷ 2 ∷ [])
      ((4 ∷ 2 ∷ []) ∷ (127 ∷ 2 ∷ []) ∷ []) unused three_nodes (omega arith)

-- The path of the first two nodes is copied to address 1, and its copy at 2 is moved by four bytes.
abbrev boot_disk : BootDisk
boot_disk = record { block_io = 9; disk_io = 9; path_address = 5; path = 127 ∷ 2 ∷ [] }

boot_disk_found : (bub_init pool lib protocols path_nodes 3 8 unused).0 ≡ found boot_disk
unfolding bub_init after_image get_disk_block_io search_path walk_disk walk_path after_walk
    after_copy after_block_handle after_disk_handle after_block_io after_disk_io check_disk
    after_media after_read after_validation validate_gpt signature revision header_size header_crc32
    without_crc host_value bytes_eq bub_malloc_
boot_disk_found = refl

bub_init-IsGptDisk_example : IsGptDisk lib protocols boot_disk
bub_init-IsGptDisk_example =
    bub_init-IsGptDisk pool lib protocols path_nodes 3 8 unused boot_disk boot_disk_found

abbrev boot_services : BootServices Pool
boot_services = record {
  allocate_pool = λ n s. (some (replicate n 0), s);
  load_image = λ kernel n s. (some 1, s);
  handle_protocol = λ image s. (true, s);
  set_load_options = λ image chars n s. s;
  start_image = λ image s. (true, s);
}

-- Every read of the disk gives the bytes of a kernel's header.
abbrev disk_bytes : DiskIo Pool
disk_bytes = record {
  block_size = λ block_io. 512;
  read_disk = λ disk_io position n s. (some head, s);
  write_disk = λ disk_io position buf s. (true, s);
}

fault_fails : (s : Pool) → error_io ≢ ok
fault_fails s h = cc

loader-BootedFrom_example :
    let out : LoaderResult × Pool =
      loader boot_services
        (λ s. (error_io, s))
        pool
        lib
        protocols
        path_nodes
        disk_bytes
        no_partition
        []
        3
        1
        8
        unused in
    (out.0 ≢ ended success)
    ⊎ BootedFrom boot_services
        (λ s. (error_io, s))
        fault_fails
        pool
        lib
        protocols
        path_nodes
        disk_bytes
        no_partition
        []
        out.1
loader-BootedFrom_example =
    loader-BootedFrom boot_services (λ s. (error_io, s)) fault_fails pool lib protocols path_nodes
      disk_bytes no_partition [] 3 1 8 unused
