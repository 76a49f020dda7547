-- ===== src/OpsUefi/Range.antt =====
-- Which bytes of the disk the reads and writes of bub_ops_uefi.c touch.
use native.Mathlib.Nat.{add-mul}
use brillo_device_generic_br.Base.{
  ℕ, ◌+◌, ◌*◌, ◌-◌, ◌%◌, ◌^◌, ◌≤◌, ◌<◌, ◌≡◌, ◌⊎◌, inl, inr, ap, ◌∙◌, true, false, none, some, List,
  arith, min, ltb, if◌then◌else◌, length,
}
use brillo_device_generic_br.Base.Int.{ℤ, pos, negsuc}
use brillo_device_generic_br.Ops
use brillo_device_generic_br.Ops.{ReadResult, BubIoResult}
use brillo_device_generic_br.OpsUefi.{
  GptEntry, Device, img_size, offset_in, bytes_left, disk_position, read_error, read_answer,
  read_at, read_entry, bub_read_from_partition, write_at, write_entry, bub_write_to_partition,
}

-- A partition whose bytes, up to its last block, have positions below 2 ^ 63.
pub record IsPlaced (block_size : ℕ) (e : GptEntry) : Type 0 where
  pub order : e.first_lba ≤ e.last_lba
  pub lba : e.last_lba < 2 ^ 64
  pub fits : e.last_lba * block_size < 2 ^ 63

abbrev pub start : ℕ → GptEntry → ℕ
start block_size e = e.first_lba * block_size

abbrev pub size : ℕ → GptEntry → ℕ
size block_size e = (e.last_lba - e.first_lba) * block_size

abbrev pub IsOffset : ℕ → ℤ → ℕ → Type 0
IsOffset n (pos o) p = (o ≡ p) × (o ≤ n)
IsOffset n (negsuc o) p = (o + 1 ≤ n) × (p ≡ n - (o + 1))

module _ {b : ℕ} {e : GptEntry} (h : IsPlaced b e) where
  pub end_lem : start b e + size b e ≡ e.last_lba * b
  end_lem =
      omega (
        arith,
        h.order,
        add-mul e.first_lba (e.last_lba - e.first_lba) b,
        ap (λ l. l * b) difference,
      )
    where
      difference : e.first_lba + (e.last_lba - e.first_lba) ≡ e.last_lba
      difference = omega (arith, h.order)

  pub img_size-size : img_size b e ≡ size b e
  unfolding img_size
  img_size-size = ap (λ n. n * b % 2 ^ 64) difference ∙ omega (arith, end_lem, h.fits)
    where
      difference : (e.last_lba + 2 ^ 64 - e.first_lba) % 2 ^ 64 ≡ e.last_lba - e.first_lba
      difference = omega (arith, h.order, h.lba)

  pub bytes_left_lem : (p : ℕ) → p ≤ size b e → bytes_left (img_size b e) p ≡ size b e - p
  unfolding bytes_left
  bytes_left_lem p inside = omega (arith, end_lem, h.fits, img_size-size)

  pub disk_position_lem : (p : ℕ) → p ≤ size b e → disk_position b e p ≡ start b e + p
  unfolding disk_position
  disk_position_lem p inside = omega (arith, end_lem, h.fits)

  offset_in_lem : (z : ℤ) (p : ℕ) → IsOffset (size b e) z p → offset_in (img_size b e) z ≡ some p
  unfolding offset_in
  offset_in_lem (pos o) p (same, _) = ap some same
  offset_in_lem (negsuc o) p (inside, same) =
      rw (img_size-size) (ground (arith, ap (λ q. some q) same))

  offset_before : (o : ℕ) → size b e < o + 1 → offset_in (img_size b e) (negsuc o) ≡ none
  unfolding offset_in
  offset_before o before = rw (img_size-size) (ground arith)

  pub IsOffset-bound : (z : ℤ) (p : ℕ) → IsOffset (size b e) z p → p ≤ size b e
  IsOffset-bound (pos o) p inside = omega arith
  IsOffset-bound (negsuc o) p inside = omega arith

fits-cases : (m n : ℕ) → (n ≤ m) ⊎ (m < n)
fits-cases m n = omega arith

num_lem : (rest n : ℕ) → (if ltb rest n then rest else n) ≡ min n rest
num_lem rest n = ground arith

module _ {S : Type 0} (device : Device S) (name : List ℕ) (e : GptEntry) (s s1 : S)
    (h : IsPlaced device.block_size e)
    (found : device.partition_entry_by_name name s ≡ (some e, s1)) where
  abbrev b : ℕ
  b = device.block_size

  read_found :
      (z : ℤ) (n : ℕ) → bub_read_from_partition device name z n s ≡ read_entry device e z n s1
  unfolding bub_read_from_partition
  read_found z n = rw (found, bub_read_from_partition) (ap (λ o. read_entry device e z n o.1) found)

  write_found :
      (z : ℤ) (buf : List ℕ)
      → bub_write_to_partition device name buf z s ≡ write_entry device e z buf s1
  unfolding bub_write_to_partition
  write_found z buf =
      rw (found, bub_write_to_partition) (ap (λ o. write_entry device e z buf o.1) found)

  read_entry-read_at :
      (z : ℤ) (p n : ℕ)
      → IsOffset (size device.block_size e) z p
      → read_entry device e z n s1 ≡ read_at device e p n s1
  unfolding read_entry
  read_entry-read_at z p n inside = rw (offset_in_lem h z p inside, read_entry)

  write_entry-write_at :
      (z : ℤ) (p : ℕ) (buf : List ℕ)
      → IsOffset (size device.block_size e) z p
      → write_entry device e z buf s1 ≡ write_at device e p buf s1
  unfolding write_entry
  write_entry-write_at z p buf inside = rw (offset_in_lem h z p inside, write_entry)

  read_at_lem :
      (p n : ℕ)
      → p ≤ size device.block_size e
      → let num_read = min n (size device.block_size e - p) in
        let (bytes, s2) = device.read_disk (start device.block_size e + p) num_read s1 in
        read_at device e p n s1 ≡ (read_answer num_read bytes, s2)
  unfolding read_at
  read_at_lem p n inside =
      rw
        (bytes_left_lem h p inside, num_lem (size b e - p) n, disk_position_lem h p inside, read_at)

  -- A read at an offset inside a partition that was found and whose bytes end below position 2 ^
  -- 63 is one read of the disk, inside the partition, of the bytes that are asked for or of those
  -- up to the partition's end, whichever are fewer; its answer and that number are passed on.
  pub bub_read_from_partition-read_disk :
      (z : ℤ) (p n : ℕ)
      → IsOffset (size device.block_size e) z p
      → let num_read = min n (size device.block_size e - p) in
        let (bytes, s2) = device.read_disk (start device.block_size e + p) num_read s1 in
        bub_read_from_partition device name z n s ≡ (read_answer num_read bytes, s2)
  bub_read_from_partition-read_disk z p n inside =
      read_found z n
      ∙ read_entry-read_at z p n inside
      ∙ read_at_lem p n (IsOffset-bound h z p inside)

  -- A write at an offset inside a partition that was found and whose bytes end below position 2 ^
  -- 63 is one write of the disk if its bytes end inside the partition; otherwise it is refused,
  -- and the disk is not touched.
  pub bub_write_to_partition-write_disk :
      (z : ℤ) (p : ℕ) (buf : List ℕ)
      → IsOffset (size device.block_size e) z p
      → ((p + length buf ≤ size device.block_size e)
          × (let (written, s2) = device.write_disk (start device.block_size e + p) buf s1 in
              bub_write_to_partition device name buf z s
              ≡ (if written then Ops.ok else Ops.error_io, s2)))
        ⊎ ((size device.block_size e < p + length buf)
            × (bub_write_to_partition device name buf z s
                ≡ (Ops.error_range_outside_partition, s1)))
  unfolding write_at
  bub_write_to_partition-write_disk z p buf inside = elim (fits-cases (size b e) (p + length buf)) [
    | inl fits ↦
        inl (fits, opened ∙ rw (left, fits_test fits, disk_position_lem h p bound, write_at))
    | inr long ↦ inr (long, opened ∙ rw (left, long_test long, write_at))
  ]
    where
      bound : p ≤ size b e
      bound = IsOffset-bound h z p inside

      left : bytes_left (img_size b e) p ≡ size b e - p
      left = bytes_left_lem h p bound

      opened : bub_write_to_partition device name buf z s ≡ write_at device e p buf s1
      opened = write_found z buf ∙ write_entry-write_at z p buf inside

      fits_test : p + length buf ≤ size b e → ltb (size b e - p) (length buf) ≡ false
      fits_test fits = ground arith

      long_test : size b e < p + length buf → ltb (size b e - p) (length buf) ≡ true
      long_test long = ground arith

  -- A negative offset before the start of a partition that was found and whose bytes end below
  -- position 2 ^ 63 is refused by both the read and the write, and the disk is not touched.
  pub offset_before-refused :
      (o n : ℕ) (buf : List ℕ)
      → size device.block_size e < o + 1
      → (bub_read_from_partition device name (negsuc o) n s
          ≡ (read_error Ops.error_range_outside_partition, s1))
        × (bub_write_to_partition device name buf (negsuc o) s
            ≡ (Ops.error_range_outside_partition, s1))
  unfolding read_entry write_entry
  offset_before-refused o n buf before = (
    read_found (negsuc o) n ∙ rw (offset_before h o before, read_entry),
    write_found (negsuc o) buf ∙ rw (offset_before h o before, write_entry),
  )
