-- ===== src/Discovery.antt =====
-- The search for the boot disk in brillo_uefi_x86_64/boot_loader/bub_boot_kernel.c: walk_path,
-- getDiskBlockIo and bub_init. The UEFI protocols and the macros on device paths are functions that
-- the definitions take. A device path is the list of its bytes, a position in it is a number; a
-- pointer into an allocated path is an address. Printing is left out.
pub mod Disk
pub mod Paths
use brillo_device_generic_br.Base.{
  ℕ, zero, suc, ◌+◌, Bool, true, false, not, ◌||◌, Option, none, some, List, [], ◌∷◌, ◌++◌, take,
  drop, length,
}
use brillo_device_generic_br.Sysdeps.{PoolServices, bub_malloc_, bub_free}
use brillo_device_generic_br.Gpt.{EfiLib, EfiStatus, efi_success, efi_not_found, validate_gpt}

pub data Protocol : Type 0 where
  block_io_protocol disk_io_protocol loaded_image_protocol : Protocol

pub record Media : Type 0 where
  pub logical_partition : Bool
  pub media_present : Bool

-- `none` is an EFI error, or no path. LocateDevicePath gives the number of bytes by which it moves
-- the path's pointer on, and a handle; an interface is a number.
pub record Protocols (S : Type 0) : Type 0 where
  pub device_path_from_handle : ℕ → S → Option (List ℕ) × S
  pub locate_device_path : Protocol → List ℕ → S → Option (ℕ × ℕ) × S
  pub handle_protocol : ℕ → Protocol → S → Option ℕ × S
  -- the DeviceHandle of a loaded image
  pub device_handle : ℕ → S → ℕ
  pub media : ℕ → S → Media
  -- interface, block, number of bytes
  pub read_blocks : ℕ → ℕ → ℕ → S → Option (List ℕ) × S

-- IsDevicePathEnd and the distance of NextDevicePathNode, on the bytes from a node on; the node
-- EndDevicePath, whose size is that of EFI_DEVICE_PATH.
pub record PathNodes : Type 0 where
  pub is_path_end : List ℕ → Bool
  pub node_length : List ℕ → ℕ
  pub end_device_path : List ℕ

-- What getDiskBlockIo leaves in its arguments: the two interfaces and the path behind the part that
-- was located, by its address and its bytes.
pub record BootDisk : Type 0 where
  pub block_io : ℕ
  pub disk_io : ℕ
  pub path_address : ℕ
  pub path : List ℕ

pub data DiskResult : Type 0 where
  found : BootDisk → DiskResult
  not_found fault out_of_fuel : DiskResult

-- The path up to the node at `walker`, that node included, closed by the end node, with its address
-- and `*out_bytes`; `none` if there is no memory.
unfoldable pub walk_path :
    {S : Type 0} → PoolServices S → PathNodes → List ℕ → ℕ → S → Option (ℕ × List ℕ × ℕ) × S
walk_path services nodes init walker s =
    let walker_bytes = walker + nodes.node_length (drop walker init) in
    let out_bytes = length nodes.end_device_path + walker_bytes in
    let (next, s') = bub_malloc_ services out_bytes s in
    (
      elim next [
        | none ↦ none
        | some (address, bytes) ↦
            some (address, take walker_bytes init ++ nodes.end_device_path, out_bytes)
      ],
      s',
    )

module _ {S : Type 0} (services : PoolServices S) (lib : EfiLib) (protocols : Protocols S) where
  -- `continue`, after both paths are freed at the addresses where their pointers now stand.
  unfoldable pub go_on : (S → DiskResult × S) → ℕ → ℕ → S → DiskResult × S
  go_on next io_path disk_path s =
      next (bub_free services (some disk_path) (bub_free services (some io_path) s))

  unfoldable pub after_validation :
      (S → DiskResult × S) → BootDisk → ℕ → EfiStatus → S → DiskResult × S
  unfolding go_on
  after_validation next disk disk_path efi_success s = (found disk, s)
  after_validation next disk disk_path efi_not_found s = go_on next disk.path_address disk_path s

  unfoldable pub after_read :
      (S → DiskResult × S) → BootDisk → ℕ → Option (List ℕ) × S → DiskResult × S
  unfolding after_validation go_on
  after_read next disk disk_path (none, s) = go_on next disk.path_address disk_path s
  after_read next disk disk_path (some gpt_header, s) =
      after_validation next disk disk_path (validate_gpt lib gpt_header) s

  unfoldable pub after_media : (S → DiskResult × S) → BootDisk → ℕ → Bool → S → DiskResult × S
  unfolding after_read go_on
  after_media next disk disk_path true s = go_on next disk.path_address disk_path s
  after_media next disk disk_path false s =
      after_read next disk disk_path (protocols.read_blocks disk.block_io 1 512 s)

  -- The medium, its first block, and the header there.
  unfoldable pub check_disk : (S → DiskResult × S) → BootDisk → ℕ → S → DiskResult × S
  unfolding after_media
  check_disk next disk disk_path s =
      let media = protocols.media disk.block_io s in
      after_media next disk disk_path (media.logical_partition || not media.media_present) s

  unfoldable pub after_disk_io :
      (S → DiskResult × S) → ℕ → List ℕ → ℕ → ℕ → Option ℕ × S → DiskResult × S
  unfolding check_disk go_on
  after_disk_io next io_path path disk_path block_io (none, s) = go_on next io_path disk_path s
  after_disk_io next io_path path disk_path block_io (some disk_io, s) =
      check_disk next
        (record { block_io = block_io; disk_io = disk_io; path_address = io_path; path = path })
        disk_path s

  unfoldable pub after_block_io :
      (S → DiskResult × S) → ℕ → List ℕ → ℕ → ℕ → Option ℕ × S → DiskResult × S
  unfolding after_disk_io go_on
  after_block_io next io_path path disk_path disk_handle (none, s) = go_on next io_path disk_path s
  after_block_io next io_path path disk_path disk_handle (some block_io, s) =
      after_disk_io next io_path path disk_path block_io
        (protocols.handle_protocol disk_handle disk_io_protocol s)

  unfoldable pub after_disk_handle :
      (S → DiskResult × S) → ℕ → List ℕ → ℕ → ℕ → Option (ℕ × ℕ) × S → DiskResult × S
  unfolding after_block_io go_on
  after_disk_handle next io_path path disk_path block_handle (none, s) =
      go_on next io_path disk_path s
  after_disk_handle next io_path path disk_path block_handle (some (moved, disk_handle), s) =
      after_block_io next io_path path (disk_path + moved) disk_handle
        (protocols.handle_protocol block_handle block_io_protocol s)

  -- `copy` is the path as it was before LocateDevicePath moved its pointer: what `disk_path` holds.
  unfoldable pub after_block_handle :
      (S → DiskResult × S) → ℕ → List ℕ → ℕ → Option (ℕ × ℕ) × S → DiskResult × S
  unfolding after_disk_handle go_on
  after_block_handle next io_path copy disk_path (none, s) = go_on next io_path disk_path s
  after_block_handle next io_path copy disk_path (some (moved, block_handle), s) =
      after_disk_handle next (io_path + moved) (drop moved copy) disk_path block_handle
        (protocols.locate_device_path disk_io_protocol copy s)

  -- The copy of the path is made without a check of its allocation.
  unfoldable pub after_copy :
      (S → DiskResult × S) → ℕ → List ℕ → Option (ℕ × List ℕ) × S → DiskResult × S
  unfolding after_block_handle
  after_copy next io_path path (none, s) = (fault, s)
  after_copy next io_path path (some (disk_path, bytes), s) =
      after_block_handle next io_path path disk_path
        (protocols.locate_device_path block_io_protocol path s)

  -- The body of the loop once walk_path has answered; `next` is the next round.
  unfoldable pub after_walk : (S → DiskResult × S) → Option (ℕ × List ℕ × ℕ) × S → DiskResult × S
  unfolding after_copy
  after_walk next (none, s) = (not_found, s)
  after_walk next (some (io_path, path, path_bytes), s) =
      after_copy next io_path path (bub_malloc_ services path_bytes s)

  module _ (nodes : PathNodes) where
    -- The loop, with the position of `walker_path`; fuel for a round at each node (see Paths).
    unfoldable pub walk_disk : ℕ → List ℕ → ℕ → S → DiskResult × S
    unfolding after_walk walk_path
    walk_disk zero init walker s = (out_of_fuel, s)
    walk_disk (suc fuel) init walker s = elim (nodes.is_path_end (drop walker init)) [
      | true ↦ (not_found, s)
      | false ↦
          let walker' = walker + nodes.node_length (drop walker init) in
          after_walk (walk_disk fuel init walker') (walk_path services nodes init walker' s)
    ]

    unfoldable pub search_path : ℕ → Option (List ℕ) × S → DiskResult × S
    unfolding walk_disk
    search_path fuel (none, s) = (not_found, s)
    search_path fuel (some init, s) = walk_disk fuel init 0 s

    unfoldable pub get_disk_block_io : ℕ → ℕ → S → DiskResult × S
    unfolding search_path
    get_disk_block_io fuel block_handle s =
        search_path fuel (protocols.device_path_from_handle block_handle s)

    -- bub_init: `found` is the return of 1, with the disk in the structure of the operations (which
    -- are then those of OpsUefi); `not_found` is the return of 0.
    unfoldable pub after_image : ℕ → Option ℕ × S → DiskResult × S
    unfolding get_disk_block_io
    after_image fuel (none, s) = (not_found, s)
    after_image fuel (some loaded_app_image, s) =
        get_disk_block_io fuel (protocols.device_handle loaded_app_image s) s

    unfoldable pub bub_init : ℕ → ℕ → S → DiskResult × S
    unfolding after_image
    bub_init fuel app_image s =
        after_image fuel (protocols.handle_protocol app_image loaded_image_protocol s)
