-- ===== src/BootKernel/Header.antt =====
-- The checks of bub_boot_kernel before a kernel is read.
use brillo_device_generic_br.Base.{
  ℕ, ◌+◌, ◌-◌, ◌%◌, ◌^◌, ◌≤◌, ◌<◌, ◌≡◌, ◌↔◌, ◌⊎◌, inl, inr, sym, ap, ◌∙◌, Bool, true, false, not,
  ◌||◌, some, List, arith, subst, ltb, bytes_eq, bytes_eq_refl, eq_of_bytes_eq, Bool-cases,
}
use brillo_device_generic_br.Ops.{BubOps}
use brillo_device_generic_br.OpsUefi.{GptEntry, Device, img_size}
use brillo_device_generic_br.OpsUefi.Range.{IsPlaced, size, img_size-size, end_lem}
use brillo_device_generic_br.Main.{error_partition_invalid_format}
use brillo_device_generic_br.BootKernel.{
  BootServices, returned, boot_magic, boot_img_hdr_size, header_magic, kernel_size, page_size,
  header_refused, read_kernel, check_header, find_partition,
}

-- A header with the right magic whose kernel and first page fit the partition.
abbrev pub IsBootImage : ℕ → List ℕ → Type 0
IsBootImage partition_size head =
    (header_magic head ≡ boot_magic)
    × (kernel_size head ≤ partition_size)
    × (page_size head + boot_img_hdr_size ≤ partition_size)

magic_test :
    (head : List ℕ)
    → (bytes_eq boot_magic (header_magic head) ≡ true) ↔ (header_magic head ≡ boot_magic)
magic_test head = (
  λ h. sym (eq_of_bytes_eq boot_magic (header_magic head) h),
  λ e. ap (bytes_eq boot_magic) e ∙ bytes_eq_refl boot_magic,
)

or_tests : (m k p : Bool) → ((not m || (k || p)) ≡ false) ↔ ((m ≡ true) × (k ≡ false) × (p ≡ false))
or_tests m k p = ground arith

not_below : (m n : ℕ) → (ltb m n ≡ false) ↔ (n ≤ m)
not_below m n = ground arith

-- Where the partition has room for the header, the three tests accept exactly such headers.
header_refused-IsBootImage :
    (n : ℕ) (head : List ℕ)
    → boot_img_hdr_size ≤ n
    → n < 2 ^ 64
    → (header_refused n head ≡ false) ↔ IsBootImage n head
unfolding header_refused
header_refused-IsBootImage n head large small = (
  λ h.
      let (m, k, p) = (or_tests _ _ _).0 h in
      (
        (magic_test head).0 m,
        (not_below n (kernel_size head)).0 k,
        omega (arith, (not_below ((n + 2 ^ 64 - 1632) % 2 ^ 64) (page_size head)).0 p),
      ),
  λ (m, k, p). (or_tests _ _ _).1 (
    (magic_test head).1 m,
    (not_below n (kernel_size head)).1 k,
    (not_below ((n + 2 ^ 64 - 1632) % 2 ^ 64) (page_size head)).1 (omega arith),
  ),
)

module _ {S : Type 0} (services : BootServices S) (ops : BubOps S) (device : Device S)
    (name : List ℕ) (e : GptEntry) (s s1 : S) (h : IsPlaced device.block_size e)
    (room : boot_img_hdr_size ≤ size device.block_size e)
    (found : device.partition_entry_by_name name s ≡ (some e, s1)) where
  find_check :
      (head : List ℕ)
      → find_partition services ops device name head s
        ≡ check_header services ops device name head e s1
  unfolding find_partition
  find_check head =
      rw (found, find_partition) (ap (λ o. check_header services ops device name head e o.1) found)

  small : img_size device.block_size e < 2 ^ 64
  small = omega (arith, img_size-size h, end_lem h, h.fits)

  exact :
      (head : List ℕ)
      → (header_refused (img_size device.block_size e) head ≡ false)
        ↔ IsBootImage (img_size device.block_size e) head
  exact head =
      header_refused-IsBootImage (img_size device.block_size e) head
        (omega (arith, img_size-size h, room)) small

  -- In a partition that was found, whose bytes end below position 2 ^ 63 and which has room for
  -- the header, the kernel is read exactly if the header has the magic, its kernel is not larger
  -- than the partition, and its page and the header fit the partition; with any other header the
  -- partition is refused, and nothing more is done.
  pub find_partition-IsBootImage :
      (head : List ℕ)
      → (IsBootImage (size device.block_size e) head
          × (find_partition services ops device name head s
              ≡ read_kernel services ops device name head s1))
        ⊎ ((¬ IsBootImage (size device.block_size e) head)
            × (find_partition services ops device name head s
                ≡ (returned error_partition_invalid_format, s1)))
  unfolding check_header
  find_partition-IsBootImage head =
      let same = img_size-size h in
      elim (Bool-cases (header_refused (img_size device.block_size e) head)) [
        | inl bad ↦ inr (
          λ good.
              true_false
                (sym bad ∙ (exact head).1 (subst (λ n. IsBootImage n head) (sym same) good)),
          find_check head ∙ rw (bad, check_header),
        )
        | inr good ↦ inl (
          subst (λ n. IsBootImage n head) same ((exact head).0 good),
          find_check head ∙ rw (good, check_header),
        )
      ]
    where
      true_false : true ≡ false → ⊥
      true_false x = cc
