-- ===== src/AbFlow/Misc.antt =====
-- bub_read_ab_data_from_misc and bub_write_ab_data_to_misc over a platform that keeps the promises
-- of bub_ops.h: what is read, and what a write leaves behind.
use brillo_device_generic_br.Base.{ℕ, ◌≡◌, ◌≢◌, ap, ◌∙◌, ◌⊎◌, inl, inr, true, false, List, arith}
use brillo_device_generic_br.Base.Int.{pos}
use brillo_device_generic_br.Crc32.{bub_crc32}
use brillo_device_generic_br.Ops
use brillo_device_generic_br.Ops.{BubOps, BubIoResult, MiscLaws, misc_name, ab_data_size}
use brillo_device_generic_br.AbData.{BubAbData, IsAbData, boot_ctrl_magic, to_bytes}
use brillo_device_generic_br.AbData.Layout.{with_crc}
use brillo_device_generic_br.AbData.Stored.{length-to_bytes, to_bytes-IsByte}
use brillo_device_generic_br.AbFlow.{
  ReadOutcome, read, io_ok, check_ab_data, sealed, bub_read_ab_data_from_misc,
  bub_write_ab_data_to_misc,
}
use brillo_device_generic_br.AbFlow.Storage.{
  full_read, sealed-IsAbData, check_ab_data-sealed, read-IsAbData,
}

-- The structure with the checksum that a later read gives.
unfoldable pub settled : BubAbData → BubAbData
settled d = with_crc d (bub_crc32 0 (to_bytes (with_crc d 0)))

-- What the platform answers to the write of the structure, sealed, at the start of "misc".
abbrev pub write_result : {S : Type 0} → BubOps S → BubAbData → S → BubIoResult
write_result ops d s = (ops.write_to_partition misc_name (to_bytes (sealed d)) (pos 0) s).0

module _ {S : Type 0} (ops : BubOps S) (IsReady : S → Type 0) (misc : S → List ℕ)
    (laws : MiscLaws ops IsReady misc) where
  -- What the block on the disk stands for.
  abbrev pub loaded : S → ReadOutcome
  loaded s = check_ab_data (full_read (misc s))

  -- The state after the metadata is read, and after it is written.
  abbrev pub after_read : S → S
  after_read s = (bub_read_ab_data_from_misc ops s).1

  abbrev pub after_write : BubAbData → S → S
  after_write d s = (bub_write_ab_data_to_misc ops d s).1

  pub read_loaded : (s : S) → IsReady s → (bub_read_ab_data_from_misc ops s).0 ≡ loaded s
  unfolding bub_read_ab_data_from_misc
  read_loaded s r = ap check_ab_data (laws.read_done s r)

  pub after_read_ready : (s : S) → IsReady s → IsReady (after_read s)
  unfolding bub_read_ab_data_from_misc
  after_read_ready s r = laws.read_ready s r

  pub loaded-after_read : (s : S) → IsReady s → loaded (after_read s) ≡ loaded s
  unfolding bub_read_ab_data_from_misc
  loaded-after_read s r = ap (λ b. check_ab_data (full_read b)) (laws.read_keeps s r)

  pub after_write_ready :
      (d : BubAbData) (s : S) → IsAbData d → IsReady s → IsReady (after_write d s)
  unfolding bub_write_ab_data_to_misc
  after_write_ready d s h r =
      laws.write_ready s (to_bytes (sealed d)) r (length-to_bytes (sealed-IsAbData h))
        (to_bytes-IsByte (sealed-IsAbData h))

  -- On a platform that keeps the promises of MiscLaws, a write of metadata with the right magic
  -- and values in the ranges of their fields, if it succeeds, is read back with its checksum in
  -- host order.
  pub write_loaded :
      (d : BubAbData) (s : S)
      → IsAbData d
      → d.magic ≡ boot_ctrl_magic
      → IsReady s
      → (bub_write_ab_data_to_misc ops d s).0 ≡ true
      → loaded (after_write d s) ≡ read (settled d)
  unfolding bub_write_ab_data_to_misc settled
  write_loaded d s h m r w =
      ap (λ b. check_ab_data (full_read b))
        (laws.write_done s (to_bytes (sealed d)) r (length-to_bytes (sealed-IsAbData h))
          (to_bytes-IsByte (sealed-IsAbData h)) (io_ok_iff _ w))
      ∙ check_ab_data-sealed h m
    where
      io_ok_iff : (x : BubIoResult) → io_ok x ≡ true → x ≡ Ops.ok
      io_ok_iff x e = ground arith

  -- A write that fails changes nothing.
  pub write_failed :
      (d : BubAbData) (s : S)
      → IsAbData d
      → IsReady s
      → (bub_write_ab_data_to_misc ops d s).0 ≡ false
      → loaded (after_write d s) ≡ loaded s
  unfolding bub_write_ab_data_to_misc
  write_failed d s h r w =
      ap (λ b. check_ab_data (full_read b))
        (laws.write_fails s (to_bytes (sealed d)) r (length-to_bytes (sealed-IsAbData h))
          (to_bytes-IsByte (sealed-IsAbData h)) (not_ok _ w))
    where
      not_ok : (x : BubIoResult) → io_ok x ≡ false → x ≢ Ops.ok
      not_ok x e p = ground arith

  -- A write of good metadata, by the answer of the platform's write.
  pub write-cases :
      (d : BubAbData) (s : S)
      → IsAbData d
      → d.magic ≡ boot_ctrl_magic
      → IsReady s
      → let (done, s') = bub_write_ab_data_to_misc ops d s in
        ((done ≡ true) × (write_result ops d s ≡ Ops.ok) × (loaded s' ≡ read (settled d)))
        ⊎ ((done ≡ false) × (write_result ops d s ≢ Ops.ok) × (misc s' ≡ misc s))
  unfolding bub_write_ab_data_to_misc
  write-cases d s h m r = elim (result-cases (write_result ops d s)) [
    | inl e ↦ inl (ap io_ok e, e, write_loaded d s h m r (ap io_ok e))
    | inr (f, e) ↦ inr (
      f,
      e,
      laws.write_fails s (to_bytes (sealed d)) r (length-to_bytes (sealed-IsAbData h))
          (to_bytes-IsByte (sealed-IsAbData h)) e,
    )
  ]
    where
      result-cases : (x : BubIoResult) → (x ≡ Ops.ok) ⊎ ((io_ok x ≡ false) × (x ≢ Ops.ok))
      result-cases x = ground arith

  pub misc-after_read : (s : S) → IsReady s → misc (after_read s) ≡ misc s
  unfolding bub_read_ab_data_from_misc
  misc-after_read s r = laws.read_keeps s r

  -- What is loaded has values in the ranges of its fields, and the right magic.
  pub loaded-IsAbData :
      (s : S) {d : BubAbData}
      → IsReady s
      → loaded s ≡ read d
      → IsAbData d × (d.magic ≡ boot_ctrl_magic)
  loaded-IsAbData s r e = read-IsAbData (misc s) (laws.size s r) (laws.bytes s r) e
