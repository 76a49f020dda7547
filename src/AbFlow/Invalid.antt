-- ===== src/AbFlow/Invalid.antt =====
-- bub_ab_mark_as_invalid of bub_ab_flow.c over a platform that keeps the promises of bub_ops.h.
use brillo_device_generic_br.Base.{
  ℕ, ◌<◌, ◌≡◌, ◌⊎◌, inl, inr, refl, ap, ◌∙◌, false, List, arith, Bool-cases, if◌then◌else◌, ◌==◌,
  ◌≢◌, sym, zero, suc, take, bytes_eq, eq_of_bytes_eq, length,
}
use brillo_device_generic_br.Base.Int.{pos}
use brillo_device_generic_br.Ops
use brillo_device_generic_br.Ops.{misc_name, BubOps, MiscLaws, ab_data_size}
use brillo_device_generic_br.AbData.{
  BubAbData, IsSlot, IsAbData, boot_ctrl_magic, to_bytes, zero_slot,
}
use brillo_device_generic_br.AbData.Layout.{with_slots-IsAbData}
use brillo_device_generic_br.AbData.Stored.{length-to_bytes}
use brillo_device_generic_br.AbFlow.Storage.{sealed-IsAbData}
use brillo_device_generic_br.AbFlow.{
  io_ok, sealed, ReadOutcome, read, bub_read_ab_data_from_misc, bub_write_ab_data_to_misc, suffix,
  int_of, invalidate, bub_ab_mark_as_invalid,
}
use brillo_device_generic_br.AbFlow.Misc.{
  settled, loaded, read_loaded, after_read_ready, loaded-after_read, write-cases, write_result,
  misc-after_read, loaded-IsAbData,
}

-- The structure with one slot zeroed.
unfoldable pub without_slot : ℕ → BubAbData → BubAbData
without_slot i d = if i == 0 then record d { slot0 = zero_slot } else record d { slot1 = zero_slot }

without_slot-IsAbData : (i : ℕ) (d : BubAbData) → IsAbData d → IsAbData (without_slot i d)
unfolding without_slot
without_slot-IsAbData i d h = elim (Bool-cases (i == 0)) [
  | inl e ↦ rw e (with_slots-IsAbData h zero_slot-IsSlot h.slot1)
  | inr e ↦ rw e (with_slots-IsAbData h h.slot0 zero_slot-IsSlot)
]
  where
    zero_slot-IsSlot : IsSlot zero_slot
    zero_slot-IsSlot = omega arith

without_slot-magic : (i : ℕ) (d : BubAbData) → (without_slot i d).magic ≡ d.magic
unfolding without_slot
without_slot-magic i d = ground arith

module _ {S : Type 0} (ops : BubOps S) where
  -- The string is the suffix of a slot.
  invalidate-suffix :
      (i : ℕ) (d : BubAbData) (s : S)
      → i < 2
      → invalidate ops d (suffix i) s ≡ (
        int_of (bub_write_ab_data_to_misc ops (without_slot i d) s).0,
        (bub_write_ab_data_to_misc ops (without_slot i d) s).1,
      )
  unfolding invalidate without_slot bytes_eq
  invalidate-suffix zero d s h = refl
  invalidate-suffix (suc zero) d s h = refl
  invalidate-suffix (suc (suc i)) d s h = absurd (omega arith)

  invalidate_other :
      (d : BubAbData) (text : List ℕ) (s : S)
      → take 3 text ≢ suffix 0
      → take 3 text ≢ suffix 1
      → invalidate ops d text s ≡ (0, s)
  unfolding invalidate
  invalidate_other d text s p q = rw (differs (suffix 0) p, differs (suffix 1) q) refl
    where
      differs : (x : List ℕ) → take 3 text ≢ x → bytes_eq x (take 3 text) ≡ false
      differs x h = elim (Bool-cases (bytes_eq x (take 3 text))) [
        | inl e ↦ absurd (h (sym (eq_of_bytes_eq x (take 3 text) e)))
        | inr e ↦ e
      ]

module _ {S : Type 0} (ops : BubOps S) (IsReady : S → Type 0) (misc : S → List ℕ)
    (laws : MiscLaws ops IsReady misc) where
  abbrev mark_loaded : S → ReadOutcome
  mark_loaded = loaded ops IsReady misc laws

  mark_of_read :
      (text : List ℕ) (s : S) {d : BubAbData}
      → IsReady s
      → mark_loaded s ≡ read d
      → bub_ab_mark_as_invalid ops text s
        ≡ invalidate ops d text (bub_read_ab_data_from_misc ops s).1
  unfolding bub_ab_mark_as_invalid
  mark_of_read text s r e = rw (read_loaded ops IsReady misc laws s r ∙ e, bub_ab_mark_as_invalid)

  -- On a platform that keeps the promises of MiscLaws, and on intact metadata, marking the slot of
  -- a known suffix writes the metadata with that slot zeroed, after the read. If the platform
  -- answers that write with success, it returns 1, and the disk then holds that metadata; if it
  -- answers with an error, it returns 0, and the bytes of "misc" are what they were.
  pub bub_ab_mark_as_invalid-without_slot :
      (i : ℕ) (d : BubAbData) (s : S)
      → i < 2
      → IsReady s
      → mark_loaded s ≡ read d
      → let (code, s') = bub_ab_mark_as_invalid ops (suffix i) s in
        let written = write_result ops (without_slot i d) (bub_read_ab_data_from_misc ops s).1 in
        ((written ≡ Ops.ok) × (code ≡ 1) × (mark_loaded s' ≡ read (settled (without_slot i d))))
        ⊎ ((written ≢ Ops.ok) × (code ≡ 0) × (misc s' ≡ misc s))
  bub_ab_mark_as_invalid-without_slot i d s h r e =
      rw (mark_of_read (suffix i) s r e, invalidate-suffix ops i d s1 h) outcome
    where
      s1 : S
      s1 = (bub_read_ab_data_from_misc ops s).1

      good : IsAbData d × (d.magic ≡ boot_ctrl_magic)
      good = loaded-IsAbData ops IsReady misc laws s r e

      x : BubAbData
      x = without_slot i d

      outcome :
          ((write_result ops x s1 ≡ Ops.ok)
            × (int_of (bub_write_ab_data_to_misc ops x s1).0 ≡ 1)
            × (mark_loaded (bub_write_ab_data_to_misc ops x s1).1 ≡ read (settled x)))
          ⊎ ((write_result ops x s1 ≢ Ops.ok)
              × (int_of (bub_write_ab_data_to_misc ops x s1).0 ≡ 0)
              × (misc (bub_write_ab_data_to_misc ops x s1).1 ≡ misc s))
      outcome =
          elim (write-cases ops IsReady misc laws x s1 (without_slot-IsAbData i d good.0)
            (without_slot-magic i d ∙ good.1) (after_read_ready ops IsReady misc laws s r)) [
              | inl (b, w, l) ↦ inl (w, ap int_of b, l)
              | inr (b, w, k) ↦ inr (w, ap int_of b, k ∙ misc-after_read ops IsReady misc laws s r)
            ]

  -- On a platform that keeps the promises of MiscLaws, and on intact metadata, a string whose
  -- first three bytes are no suffix is answered by 0, and the disk holds what it held.
  pub bub_ab_mark_as_invalid_other :
      (text : List ℕ) (d : BubAbData) (s : S)
      → take 3 text ≢ suffix 0
      → take 3 text ≢ suffix 1
      → IsReady s
      → mark_loaded s ≡ read d
      → let (code, s') = bub_ab_mark_as_invalid ops text s in
        (code ≡ 0) × (mark_loaded s' ≡ mark_loaded s)
  bub_ab_mark_as_invalid_other text d s p q r e =
      rw
        (
          mark_of_read text s r e,
          invalidate_other ops d text (bub_read_ab_data_from_misc ops s).1 p q,
        )
        (refl, loaded-after_read ops IsReady misc laws s r)

  -- A mark of a known suffix returns 1 where every write of the metadata reaches the disk.
  pub mark_written :
      (i : ℕ) (d : BubAbData) (s : S)
      → ((s' : S) (buf : List ℕ)
          → IsReady s'
          → length buf ≡ ab_data_size
          → (ops.write_to_partition misc_name buf (pos 0) s').0 ≡ Ops.ok)
      → i < 2
      → IsReady s
      → mark_loaded s ≡ read d
      → (bub_ab_mark_as_invalid ops (suffix i) s).0 ≡ 1
  unfolding bub_write_ab_data_to_misc
  mark_written i d s writes h r e =
      let s1 = (bub_read_ab_data_from_misc ops s).1 in
      rw (mark_of_read (suffix i) s r e, invalidate-suffix ops i d s1 h)
        (ap (λ w. int_of (io_ok w))
          (writes s1 (to_bytes (sealed (without_slot i d)))
            (after_read_ready ops IsReady misc laws s r)
            (length-to_bytes (
              sealed-IsAbData
                (without_slot-IsAbData i d (loaded-IsAbData ops IsReady misc laws s r e).0)))))
