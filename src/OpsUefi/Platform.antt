-- ===== src/OpsUefi/Platform.antt =====
-- The operations of bub_ops_uefi.c as a platform of the A/B flow: what the flow relies on, from
-- what the disk and the lookup of a partition do at the "misc" partition.
use brillo_device_generic_br.Base.{
  ℕ, ◌+◌, ◌-◌, ◌≤◌, subst, ap₂, ◌≡◌, ◌⊎◌, inl, inr, refl, sym, ap, ◌∙◌, true, false, some, List,
  arith, length, min, All, IsByte, if◌then◌else◌,
}
use brillo_device_generic_br.Base.Int.{pos}
use brillo_device_generic_br.Ops
use brillo_device_generic_br.Ops.{BubIoResult, ReadResult, MiscLaws, misc_name, ab_data_size}
use brillo_device_generic_br.OpsUefi.{
  GptEntry, Device, read_answer, uefi_ops, bub_read_from_partition, bub_write_to_partition,
}
use brillo_device_generic_br.OpsUefi.Range.{
  IsPlaced, start, size, bub_read_from_partition-read_disk, bub_write_to_partition-write_disk,
}

-- A device on which "misc" is found at `e` and has room for the metadata. `block` is what stands
-- at its start: the lookup and reads do not change it, reads of these positions give it, and a
-- write there replaces it or, with an error, leaves it.
pub record MiscDevice {S : Type 0} (device : Device S) (e : GptEntry) (IsReady : S → Type 0)
    (block : S → List ℕ) : Type 0 where
  pub placed : IsPlaced device.block_size e
  pub room : ab_data_size ≤ size device.block_size e
  pub block_size : (s : S) → IsReady s → length (block s) ≡ ab_data_size
  pub block_bytes : (s : S) → IsReady s → All IsByte (block s)
  pub found : (s : S) → IsReady s → (device.partition_entry_by_name misc_name s).0 ≡ some e
  pub found_keeps :
      (s : S) → IsReady s → block (device.partition_entry_by_name misc_name s).1 ≡ block s
  pub found_ready : (s : S) → IsReady s → IsReady (device.partition_entry_by_name misc_name s).1
  pub read :
      (s : S)
      → IsReady s
      → let (bytes, s') = device.read_disk (start device.block_size e) ab_data_size s in
        (bytes ≡ some (block s)) × (block s' ≡ block s) × IsReady s'
  pub write :
      (s : S) (buf : List ℕ)
      → IsReady s
      → length buf ≡ ab_data_size
      → All IsByte buf
      → let (written, s') = device.write_disk (start device.block_size e) buf s in
        (((written ≡ true) × (block s' ≡ buf)) ⊎ ((written ≡ false) × (block s' ≡ block s)))
        × IsReady s'

module _ {S : Type 0} (device : Device S) (e : GptEntry) (IsReady : S → Type 0) (block : S → List ℕ)
    (laws : MiscDevice device e IsReady block) where
  abbrev lookup : S → S
  lookup s = (device.partition_entry_by_name misc_name s).1

  found_misc : (s : S) → IsReady s → device.partition_entry_by_name misc_name s ≡ (some e, lookup s)
  found_misc s r = ap (λ o. (o, lookup s)) (laws.found s r)

  at_start : start device.block_size e + 0 ≡ start device.block_size e
  at_start = omega arith

  whole : min ab_data_size (size device.block_size e - 0) ≡ ab_data_size
  whole = omega (arith, laws.room)

  -- The metadata is read at the start of the partition, whole.
  read_misc :
      (s : S)
      → IsReady s
      → let (bytes, s2) = device.read_disk (start device.block_size e) ab_data_size (lookup s) in
        bub_read_from_partition device misc_name (pos 0) ab_data_size s
        ≡ (read_answer ab_data_size bytes, s2)
  read_misc s r =
      subst
        (λ (q : ℕ × ℕ).
          let (bytes, s2) = device.read_disk q.0 q.1 (lookup s) in
          bub_read_from_partition device misc_name (pos 0) ab_data_size s
          ≡ (read_answer q.1 bytes, s2))
        (ap₂ (λ a n. (a, n)) at_start whole)
        (bub_read_from_partition-read_disk device misc_name e s (lookup s) laws.placed
          (found_misc s r) (pos 0) 0 ab_data_size (refl, omega arith))

  write_misc :
      (s : S) (buf : List ℕ)
      → IsReady s
      → length buf ≡ ab_data_size
      → let (written, s2) = device.write_disk (start device.block_size e) buf (lookup s) in
        bub_write_to_partition device misc_name buf (pos 0) s
        ≡ (if written then Ops.ok else Ops.error_io, s2)
  write_misc s buf r l =
      elim (bub_write_to_partition-write_disk device misc_name e s (lookup s) laws.placed
        (found_misc s r) (pos 0) 0 buf (refl, omega arith)) [
          | inl (_, q) ↦
              subst
                (λ a.
                  let (written, s2) = device.write_disk a buf (lookup s) in
                  bub_write_to_partition device misc_name buf (pos 0) s
                  ≡ (if written then Ops.ok else Ops.error_io, s2))
                at_start q
          | inr (long, _) ↦ absurd (omega (arith, laws.room))
        ]

  module _ (s : S) (r : IsReady s) where
    abbrev after_find_ready : IsReady (lookup s)
    after_find_ready = laws.found_ready s r

    read_back :
        (bub_read_from_partition device misc_name (pos 0) ab_data_size s).0
        ≡ record { result = Ops.ok; buf = block s; num_read = ab_data_size }
    read_back =
        ap (λ o. o.0) (read_misc s r)
        ∙ ap (read_answer ab_data_size)
            ((laws.read (lookup s) after_find_ready).0 ∙ ap some (laws.found_keeps s r))

    read_keeps : block (bub_read_from_partition device misc_name (pos 0) ab_data_size s).1 ≡ block s
    read_keeps =
        ap (λ o. block o.1) (read_misc s r)
        ∙ (laws.read (lookup s) after_find_ready).1
        ∙ laws.found_keeps s r

    read_ready : IsReady (bub_read_from_partition device misc_name (pos 0) ab_data_size s).1
    read_ready =
        subst (λ o. IsReady o.1) (sym (read_misc s r)) (laws.read (lookup s) after_find_ready).2

    module _ (buf : List ℕ) (l : length buf ≡ ab_data_size) (h : All IsByte buf) where
      write_ready : IsReady (bub_write_to_partition device misc_name buf (pos 0) s).1
      write_ready =
          subst (λ o. IsReady o.1) (sym (write_misc s buf r l))
            (laws.write (lookup s) buf after_find_ready l h).1

      -- The result of a write and what it leaves.
      write_outcome :
          let (result, s') = bub_write_to_partition device misc_name buf (pos 0) s in
          ((result ≡ Ops.ok) × (block s' ≡ buf)) ⊎ ((result ≡ Ops.error_io) × (block s' ≡ block s))
      write_outcome =
          subst
            (λ o.
              ((o.0 ≡ Ops.ok) × (block o.1 ≡ buf)) ⊎ ((o.0 ≡ Ops.error_io) × (block o.1 ≡ block s)))
            (sym (write_misc s buf r l))
            (elim (laws.write (lookup s) buf after_find_ready l h).0 [
              | inl (w, q) ↦ inl (rw w refl, q)
              | inr (w, q) ↦ inr (rw w refl, q ∙ laws.found_keeps s r)
            ])

  -- On a device with the properties of MiscDevice the operations keep every promise of MiscLaws,
  -- which the A/B flow relies on.
  pub uefi_ops-MiscLaws : MiscLaws (uefi_ops device) IsReady block
  uefi_ops-MiscLaws = record {
    size = laws.block_size;
    bytes = laws.block_bytes;
    read_done = read_back;
    read_keeps = read_keeps;
    read_ready = read_ready;
    write_done = λ s buf r l h w. elim (write_outcome s r buf l h) [
      | inl (_, q) ↦ q
      | inr (x, _) ↦ absurd (cc)
    ];
    write_fails = λ s buf r l h w. elim (write_outcome s r buf l h) [
      | inl (x, _) ↦ absurd (w x)
      | inr (_, q) ↦ q
    ];
    write_ready = λ s buf r l h. write_ready s r buf l h;
  }
