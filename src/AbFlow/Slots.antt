-- ===== src/AbFlow/Slots.antt =====
-- The states of one slot and the choice between two (bub_ab_flow.c: normalize_slot,
-- slot_is_bootable and the selection in bub_ab_flow).
use brillo_device_generic_br.Base.{◌≤◌, ◌<◌, ◌≡◌, ◌↔◌, ◌⊎◌, true, false, none, some, arith}
use brillo_device_generic_br.AbData.{BubSlotData, IsSlot}
use brillo_device_generic_br.AbFlow.{normalize_slot, slot_is_bootable, target_slot}

-- The three states of the header: unbootable, updating (tries are left) and successful.
abbrev pub IsUnbootable : BubSlotData → Type 0
IsUnbootable s = (s.priority ≡ 0) × (s.tries_remaining ≡ 0) × (s.successful_boot ≡ 0)

abbrev pub IsUpdating : BubSlotData → Type 0
IsUpdating s = (0 < s.priority) × (0 < s.tries_remaining) × (s.successful_boot ≡ 0)

abbrev pub IsSuccessful : BubSlotData → Type 0
IsSuccessful s = (0 < s.priority) × (s.tries_remaining ≡ 0) × (s.successful_boot ≡ 1)

abbrev pub IsProper : BubSlotData → Type 0
IsProper s = IsUnbootable s ⊎ IsUpdating s ⊎ IsSuccessful s

-- A slot that may be booted: it has a priority, and tries or a successful boot.
abbrev pub IsBootable : BubSlotData → Type 0
IsBootable s = (0 < s.priority) × ((0 < s.tries_remaining) ⊎ (s.successful_boot ≡ 1))

pub normalize_slot-IsSlot : (s : BubSlotData) → IsSlot s → IsSlot (normalize_slot s).0
unfolding normalize_slot
normalize_slot-IsSlot s h = ground arith

-- A normalized slot is in one of the three proper states; the function reports a change exactly for
-- a slot that was in none of them, and without a change returns the slot as it was.
pub normalize_slot-IsProper :
    (s : BubSlotData)
    → IsSlot s
    → IsProper (normalize_slot s).0
      × (((normalize_slot s).1 ≡ false) ↔ IsProper s)
      × ((normalize_slot s).1 ≡ false → (normalize_slot s).0 ≡ s)
unfolding normalize_slot
normalize_slot-IsProper s h = (ground arith, ground arith, ground arith)

-- Normalizing keeps a slot bootable or not, and the priority and tries of one that is.
pub normalize_slot-IsBootable :
    (s : BubSlotData)
    → IsSlot s
    → (IsBootable (normalize_slot s).0 ↔ IsBootable s)
      × (IsBootable s
          → ((normalize_slot s).0.priority ≡ s.priority)
            × ((normalize_slot s).0.tries_remaining ≡ s.tries_remaining))
unfolding normalize_slot
normalize_slot-IsBootable s h = (ground arith, ground arith)

slot_is_bootable_iff : (s : BubSlotData) → IsProper s → (slot_is_bootable s ≡ true) ↔ IsBootable s
unfolding slot_is_bootable
slot_is_bootable_iff s p = ground arith

-- On proper slots the selection is: none when no slot is bootable, slot A when it is bootable and
-- no bootable slot has a higher priority, slot B when it is bootable and A is not, or is lower.
pub target_slot_lem :
    (a b : BubSlotData)
    → IsProper a
    → IsProper b
    → ((target_slot a b ≡ none) ↔ ((¬ IsBootable a) × (¬ IsBootable b)))
      × ((target_slot a b ≡ some 0) ↔ (IsBootable a × (IsBootable b → b.priority ≤ a.priority)))
      × ((target_slot a b ≡ some 1) ↔ (IsBootable b × (IsBootable a → a.priority < b.priority)))
unfolding target_slot
target_slot_lem a b p q = (ground arith, ground arith, ground arith)
