-- ===== src/Discovery/Disk.antt =====
-- The disk that bub_init of bub_boot_kernel.c settles on.
use brillo_device_generic_br.Base.{
  ℕ, zero, suc, ◌+◌, ◌≡◌, refl, sym, Bool, true, false, not, ◌||◌, Option, none, some, List, drop,
  inl, inr, Bool-cases, arith, subst,
}
use brillo_device_generic_br.Sysdeps.{PoolServices, bub_malloc_}
use brillo_device_generic_br.Gpt.{EfiLib, EfiStatus, efi_success, efi_not_found, validate_gpt}
use brillo_device_generic_br.Discovery.Paths.{walk_disk-end, walk_disk-node}
use brillo_device_generic_br.Discovery.{
  Protocols, block_io_protocol, disk_io_protocol, loaded_image_protocol, PathNodes, BootDisk,
  DiskResult, found, not_found, fault, out_of_fuel, walk_path, after_validation, after_read,
  check_disk, after_media, after_disk_io, after_block_io, after_disk_handle, after_block_handle,
  after_copy, after_walk, walk_disk, search_path, after_image, bub_init,
}

-- At the time of the check the disk is a medium that is present and no partition of another, and
-- its first block is read and is a valid header of a partition table.
pub record IsGptDisk {S : Type 0} (lib : EfiLib) (protocols : Protocols S) (disk : BootDisk)
    : Type 0 where
  pub checked : S
  pub whole : (protocols.media disk.block_io checked).logical_partition ≡ false
  pub present : (protocols.media disk.block_io checked).media_present ≡ true
  pub header : List ℕ
  pub header_read : (protocols.read_blocks disk.block_io 1 512 checked).0 ≡ some header
  pub header_valid : validate_gpt lib header ≡ efi_success

no_or : {a b : Bool} → (a || not b) ≡ false → (a ≡ false) × (b ≡ true)
no_or h = ground arith

found_inj : {d e : BootDisk} → found d ≡ found e → d ≡ e
found_inj h = cc

module _ {S : Type 0} (services : PoolServices S) (lib : EfiLib) (protocols : Protocols S) where
  abbrev Sound : DiskResult × S → Type 0
  Sound (found disk, s) = IsGptDisk lib protocols disk
  Sound (_, s) = Unit

  when_found :
      (r : DiskResult × S) {disk : BootDisk}
      → r.0 ≡ found disk
      → Sound r
      → IsGptDisk lib protocols disk
  when_found (found d, s) h good = subst (IsGptDisk lib protocols) (found_inj h) good
  when_found (not_found, s) h good = cc
  when_found (fault, s) h good = cc
  when_found (out_of_fuel, s) h good = cc

  -- The rounds that follow give only such disks.
  module _ (next : S → DiskResult × S) (rest : (s : S) → Sound (next s)) where
    after_validation-Sound :
        (disk : BootDisk) (d : ℕ) (status : EfiStatus) (s : S)
        → (status ≡ efi_success → IsGptDisk lib protocols disk)
        → Sound (after_validation services lib protocols next disk d status s)
    unfolding after_validation
    after_validation-Sound disk d efi_success s valid = valid refl
    after_validation-Sound disk d efi_not_found s valid = rest _

    after_read-Sound :
        (disk : BootDisk) (d : ℕ) (o : Option (List ℕ)) (s : S)
        → ((header : List ℕ)
            → o ≡ some header
            → validate_gpt lib header ≡ efi_success
            → IsGptDisk lib protocols disk)
        → Sound (after_read services lib protocols next disk d (o, s))
    unfolding after_read
    after_read-Sound disk d none s valid = rest _
    after_read-Sound disk d (some header) s valid =
        after_validation-Sound disk d (validate_gpt lib header) s (valid header refl)

    after_media-Sound :
        (disk : BootDisk) (d : ℕ) (s : S) (unfit : Bool)
        → ((protocols.media disk.block_io s).logical_partition
            || not (protocols.media disk.block_io s).media_present)
          ≡ unfit
        → Sound (after_media services lib protocols next disk d unfit s)
    unfolding after_media
    after_media-Sound disk d s true h = rest _
    after_media-Sound disk d s false h =
        let read = protocols.read_blocks disk.block_io 1 512 s in
        after_read-Sound disk d read.0 read.1 (λ header header_read header_valid. record {
          checked = s;
          whole = (no_or h).0;
          present = (no_or h).1;
          header = header;
          header_read = header_read;
          header_valid = header_valid;
        })

    check_disk-Sound :
        (disk : BootDisk) (d : ℕ) (s : S) → Sound (check_disk services lib protocols next disk d s)
    unfolding check_disk
    check_disk-Sound disk d s = after_media-Sound disk d s _ refl

    after_disk_io-Sound :
        (p : ℕ) (path : List ℕ) (d b : ℕ) (o : Option ℕ) (s : S)
        → Sound (after_disk_io services lib protocols next p path d b (o, s))
    unfolding after_disk_io
    after_disk_io-Sound p path d b none s = rest _
    after_disk_io-Sound p path d b (some disk_io) s = check_disk-Sound _ d s

    after_block_io-Sound :
        (p : ℕ) (path : List ℕ) (d h : ℕ) (o : Option ℕ) (s : S)
        → Sound (after_block_io services lib protocols next p path d h (o, s))
    unfolding after_block_io
    after_block_io-Sound p path d h none s = rest _
    after_block_io-Sound p path d h (some b) s =
        let o = protocols.handle_protocol h disk_io_protocol s in
        after_disk_io-Sound p path d b o.0 o.1

    after_disk_handle-Sound :
        (p : ℕ) (path : List ℕ) (d h : ℕ) (o : Option (ℕ × ℕ)) (s : S)
        → Sound (after_disk_handle services lib protocols next p path d h (o, s))
    unfolding after_disk_handle
    after_disk_handle-Sound p path d h none s = rest _
    after_disk_handle-Sound p path d h (some (moved, disk_handle)) s =
        let o = protocols.handle_protocol h block_io_protocol s in
        after_block_io-Sound p path (d + moved) disk_handle o.0 o.1

    after_block_handle-Sound :
        (p : ℕ) (copy : List ℕ) (d : ℕ) (o : Option (ℕ × ℕ)) (s : S)
        → Sound (after_block_handle services lib protocols next p copy d (o, s))
    unfolding after_block_handle
    after_block_handle-Sound p copy d none s = rest _
    after_block_handle-Sound p copy d (some (moved, h)) s =
        let o = protocols.locate_device_path disk_io_protocol copy s in
        after_disk_handle-Sound (p + moved) (drop moved copy) d h o.0 o.1

    after_copy-Sound :
        (p : ℕ) (path : List ℕ) (o : Option (ℕ × List ℕ)) (s : S)
        → Sound (after_copy services lib protocols next p path (o, s))
    unfolding after_copy
    after_copy-Sound p path none s = tt
    after_copy-Sound p path (some (d, bytes)) s =
        let o = protocols.locate_device_path block_io_protocol path s in
        after_block_handle-Sound p path d o.0 o.1

    after_walk-Sound :
        (o : Option (ℕ × List ℕ × ℕ)) (s : S)
        → Sound (after_walk services lib protocols next (o, s))
    unfolding after_walk bub_malloc_
    after_walk-Sound none s = tt
    after_walk-Sound (some (p, path, n)) s =
        let o = services.allocate_pool n s in after_copy-Sound p path o.0 o.1

  module _ (nodes : PathNodes) where
    walk_disk-Sound :
        (fuel : ℕ) (init : List ℕ) (walker : ℕ) (s : S)
        → Sound (walk_disk services lib protocols nodes fuel init walker s)
    unfolding walk_disk
    walk_disk-Sound zero init walker s = tt
    walk_disk-Sound (suc fuel) init walker s =
        elim (Bool-cases (nodes.is_path_end (drop walker init))) [
          | inl done ↦
              subst Sound (sym (walk_disk-end services lib protocols nodes fuel init walker s done))
                tt
          | inr more ↦
              let walker' = walker + nodes.node_length (drop walker init) in
              let o = walk_path services nodes init walker' s in
              subst Sound
                (sym (walk_disk-node services lib protocols nodes fuel init walker s more))
                (after_walk-Sound (walk_disk services lib protocols nodes fuel init walker')
                  (walk_disk-Sound fuel init walker') o.0 o.1)
        ]

    search_path-Sound :
        (fuel : ℕ) (o : Option (List ℕ)) (s : S)
        → Sound (search_path services lib protocols nodes fuel (o, s))
    unfolding search_path
    search_path-Sound fuel none s = tt
    search_path-Sound fuel (some init) s = walk_disk-Sound fuel init 0 s

    after_image-Sound :
        (fuel : ℕ) (o : Option ℕ) (s : S)
        → Sound (after_image services lib protocols nodes fuel (o, s))
    unfolding after_image
    after_image-Sound fuel none s = tt
    after_image-Sound fuel (some image) s =
        let o = protocols.device_path_from_handle (protocols.device_handle image s) s in
        search_path-Sound fuel o.0 o.1

    -- Whatever the firmware answers, the disk that bub_init settles on is a medium that is present
    -- and no partition of another, on which the first block was read and is a valid header of a
    -- partition table.
    pub bub_init-IsGptDisk :
        (fuel app_image : ℕ) (s : S) (disk : BootDisk)
        → (bub_init services lib protocols nodes fuel app_image s).0 ≡ found disk
        → IsGptDisk lib protocols disk
    unfolding bub_init
    bub_init-IsGptDisk fuel app_image s disk h =
        let o = protocols.handle_protocol app_image loaded_image_protocol s in
        when_found _ h (after_image-Sound fuel o.0 o.1)
