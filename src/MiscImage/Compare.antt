-- ===== src/MiscImage/Compare.antt =====
-- CompareMiscImage of bub_image_util.cc: what its expectations say of the partition.
use brillo_device_generic_br.Base.{
  ℕ, ◌≡◌, ◌↔◌, refl, ap, ap₂, sym, ◌∙◌, subst, Bool, true, ◌&&◌, List, ◌++◌, arith, length, take,
  drop, All, IsByte, bytes_eq, bytes_eq_refl, eq_of_bytes_eq, ◌==◌, ==_iff, take-append-drop,
}
use brillo_device_generic_br.Ops.{BubOps, MiscLaws}
use brillo_device_generic_br.AbData.{BubSlotData, BubAbData, IsAbData, to_bytes, of_bytes}
use brillo_device_generic_br.AbData.Stored.{behind_reserved1, drop_8, of_bytes-to_bytes}
use brillo_device_generic_br.AbData.Layout.{of_bytes-IsAbData, to_bytes-of_bytes}
use brillo_device_generic_br.AbFlow.{sealed}
use brillo_device_generic_br.AbFlow.Storage.{sealed-IsAbData}
use brillo_device_generic_br.MiscImage.{
  slots_match, image_matches, compare_misc_image, compare_read,
}

slots_match-eq : (e a : BubSlotData) → slots_match e a ≡ true → e ≡ a
unfolding slots_match
slots_match-eq e a h = ground (arith, eq_of_bytes_eq e.reserved a.reserved)

slots_match_refl : (e : BubSlotData) → slots_match e e ≡ true
unfolding slots_match
slots_match_refl e = ground (arith, bytes_eq_refl e.reserved)

and_parts :
    (a b c d f : Bool)
    → ((a && (b && (c && (d && f)))) ≡ true)
      ↔ ((a ≡ true) × (b ≡ true) × (c ≡ true) × (d ≡ true) × (f ≡ true))
and_parts a b c d f = ground arith

same_behind :
    (d e : BubAbData)
    → d.slot0 ≡ e.slot0
    → d.slot1 ≡ e.slot1
    → d.reserved2 ≡ e.reserved2
    → d.crc32 ≡ e.crc32
    → behind_reserved1 d ≡ behind_reserved1 e
same_behind d e a b c f = cc

module _ (d : BubAbData) (h : IsAbData d) (bytes : List ℕ) (l : length bytes ≡ 64)
    (hb : All IsByte bytes) where
  abbrev actual : BubAbData
  actual = of_bytes bytes

  same_rest :
      d.slot0 ≡ actual.slot0
      → d.slot1 ≡ actual.slot1
      → actual.reserved2 ≡ d.reserved2
      → d.crc32 ≡ actual.crc32
      → drop 8 (to_bytes d) ≡ drop 8 bytes
  same_rest a b c f =
      drop_8 h
      ∙ same_behind d actual a b (sym c) f
      ∙ sym (drop_8 (of_bytes-IsAbData bytes l hb))
      ∙ ap (drop 8) (to_bytes-of_bytes bytes l hb)

  matches-eq : image_matches d bytes ≡ true → to_bytes d ≡ bytes
  unfolding image_matches
  matches-eq m =
      let (a, b, c, e, f) = (and_parts _ _ _ _ _).0 m in
      sym (take-append-drop 8 (to_bytes d))
      ∙ ap₂ ◌++◌ (eq_of_bytes_eq _ _ a) (
          same_rest (slots_match-eq _ _ b) (slots_match-eq _ _ c) (eq_of_bytes_eq _ _ e)
            ((==_iff _ _).0 f))
      ∙ take-append-drop 8 bytes

  matches_self : image_matches d (to_bytes d) ≡ true
  unfolding image_matches
  matches_self =
      subst
        (λ a.
          (bytes_eq (take 8 (to_bytes d)) (take 8 (to_bytes d))
            && (slots_match d.slot0 a.slot0
                && (slots_match d.slot1 a.slot1
                    && (bytes_eq a.reserved2 d.reserved2 && (d.crc32 == a.crc32)))))
          ≡ true)
        (sym (of_bytes-to_bytes h))
        ((and_parts _ _ _ _ _).1 (
          bytes_eq_refl (take 8 (to_bytes d)),
          slots_match_refl d.slot0,
          slots_match_refl d.slot1,
          bytes_eq_refl d.reserved2,
          (==_iff _ _).1 refl,
        ))

  image_matches_iff : (image_matches d bytes ≡ true) ↔ (to_bytes d ≡ bytes)
  image_matches_iff = (matches-eq, λ e. ap (image_matches d) (sym e) ∙ matches_self)

-- On a platform that keeps the promises of MiscLaws, the comparison returns 0 and leaves the block
-- as it is, and its expectations hold exactly when the 64 bytes of the block are those of the
-- expected metadata with its checksum: no byte escapes it.
pub compare_misc_image-to_bytes :
    {S : Type 0} (ops : BubOps S) (IsReady : S → Type 0) (misc : S → List ℕ)
    (laws : MiscLaws ops IsReady misc) (d : BubAbData) (s : S)
    → IsAbData d
    → IsReady s
    → let ((code, holds), s') = compare_misc_image ops d s in
      (code ≡ 0) × ((holds ≡ true) ↔ (to_bytes (sealed d) ≡ misc s)) × (misc s' ≡ misc s)
unfolding compare_misc_image
compare_misc_image-to_bytes ops IsReady misc laws d s h r = (
  ap (λ o. o.0) compared,
  subst (λ (o : ℕ × Bool). (o.1 ≡ true) ↔ (to_bytes (sealed d) ≡ misc s)) (sym compared)
      (image_matches_iff (sealed d) (sealed-IsAbData h) (misc s) (laws.size s r) (laws.bytes s r)),
  laws.read_keeps s r,
)
  where
    compared : (compare_misc_image ops d s).0 ≡ (0, image_matches (sealed d) (misc s))
    compared = ap (compare_read d) (laws.read_done s r)
