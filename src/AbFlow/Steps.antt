-- ===== src/AbFlow/Steps.antt =====
-- The steps of bub_ab_flow in bub_ab_flow.c (normalization, use of a try) in terms of the machine.
use brillo_device_generic_br.Base.{ℕ, ◌≡◌, inl, inr, refl, ap₂, false, arith, Bool-cases, ◌==◌}
use brillo_device_generic_br.AbData.{BubSlotData, BubAbData, IsSlot, IsAbData}
use brillo_device_generic_br.AbData.Layout.{with_slots-IsAbData}
use brillo_device_generic_br.AbFlow.{normalize, take_try, take_try_at}
use brillo_device_generic_br.AbFlow.Slots.{IsProper, normalize_slot-IsSlot, normalize_slot-IsProper}
use brillo_device_generic_br.AbFlow.Machine.{
  view, attempt_at, view_slot-normalize_slot, take_try-attempt,
}

-- The fields that no boot attempt touches.
abbrev pub SameHeader : BubAbData → BubAbData → Type 0
SameHeader d e =
    (d.magic ≡ e.magic)
    × (d.major_version ≡ e.major_version)
    × (d.minor_version ≡ e.minor_version)
    × (d.reserved1 ≡ e.reserved1)
    × (d.reserved2 ≡ e.reserved2)

-- `normalize` in terms of the machine.
module _ (d : BubAbData) (h : IsAbData d) where
  pub normalize-IsAbData : IsAbData (normalize d).0
  unfolding normalize
  normalize-IsAbData =
      with_slots-IsAbData h (normalize_slot-IsSlot d.slot0 h.slot0)
        (normalize_slot-IsSlot d.slot1 h.slot1)

  pub normalize-IsProper : IsProper (normalize d).0.slot0 × IsProper (normalize d).0.slot1
  unfolding normalize
  normalize-IsProper =
      ((normalize_slot-IsProper d.slot0 h.slot0).0, (normalize_slot-IsProper d.slot1 h.slot1).0)

  pub normalize-view : view (normalize d).0 ≡ view d
  unfolding normalize
  normalize-view =
      ap₂ (λ a b. (a, b)) (view_slot-normalize_slot d.slot0 h.slot0)
        (view_slot-normalize_slot d.slot1 h.slot1)

  pub normalize-header : SameHeader (normalize d).0 d
  unfolding normalize
  normalize-header = (refl, refl, refl, refl, refl)

  pub normalize_unchanged : (normalize d).1 ≡ false → (normalize d).0 ≡ d
  unfolding normalize
  normalize_unchanged e = ground (
    arith,
    (normalize_slot-IsProper d.slot0 h.slot0).2,
    (normalize_slot-IsProper d.slot1 h.slot1).2,
  )

pub take_try-IsSlot : (s : BubSlotData) → IsSlot s → IsSlot (take_try s).0
unfolding take_try
take_try-IsSlot s h = ground arith

pub take_try_unchanged : (s : BubSlotData) → (take_try s).1 ≡ false → (take_try s).0 ≡ s
unfolding take_try
take_try_unchanged s e = ground arith

module _ (i : ℕ) (d : BubAbData) where
  pub take_try_at-IsAbData : IsAbData d → IsAbData (take_try_at i d).0
  unfolding take_try_at
  take_try_at-IsAbData h = elim (Bool-cases (i == 0)) [
    | inl e ↦ rw e (with_slots-IsAbData h (take_try-IsSlot d.slot0 h.slot0) h.slot1)
    | inr e ↦ rw e (with_slots-IsAbData h h.slot0 (take_try-IsSlot d.slot1 h.slot1))
  ]

  pub take_try_at-view :
      IsProper d.slot0 → IsProper d.slot1 → view (take_try_at i d).0 ≡ attempt_at i (view d)
  unfolding take_try_at
  take_try_at-view p q = ground (arith, take_try-attempt d.slot0 p, take_try-attempt d.slot1 q)

  pub take_try_at-header : SameHeader (take_try_at i d).0 d
  unfolding take_try_at
  take_try_at-header = ground arith

  pub take_try_at_unchanged : (take_try_at i d).1 ≡ false → (take_try_at i d).0 ≡ d
  unfolding take_try_at
  take_try_at_unchanged e = ground (arith, take_try_unchanged d.slot0, take_try_unchanged d.slot1)
