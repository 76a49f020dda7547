-- ===== src/AbFlow/Machine.antt =====
-- The abstract A/B machine: what the metadata of two slots means, and what one boot attempt does to
-- it. A slot is described as bub_ab_flow.h does: unbootable, being tried, or booted successfully.
use brillo_device_generic_br.Base.{
  ℕ, ◌-◌, ◌≡◌, Option, none, some, arith, ◌==◌, ltb, leb, if◌then◌else◌,
}
use brillo_device_generic_br.AbData.{BubSlotData, BubAbData, IsSlot}
use brillo_device_generic_br.AbFlow.{normalize_slot, target_slot, take_try}
use brillo_device_generic_br.AbFlow.Slots.{IsProper}

-- `updating p t` has priority `p` and `t + 1` tries left.
pub data SlotState : Type 0 where
  unbootable : SlotState
  updating : ℕ → ℕ → SlotState
  successful : ℕ → SlotState

-- What a slot stands for, whether or not it is in a proper state: tries that are left count before
-- a recorded success, and without a priority there is nothing to boot.
unfoldable pub view_slot : BubSlotData → SlotState
view_slot s =
    if s.priority == 0
    then unbootable
    else if ltb 0 s.tries_remaining
    then updating s.priority (s.tries_remaining - 1)
    else if s.successful_boot == 0
    then unbootable
    else successful s.priority

-- The priority of a slot that can be booted; 0 if it cannot.
unfoldable pub rank : SlotState → ℕ
rank unbootable = 0
rank (updating p t) = p
rank (successful p) = p

-- The bootable slot of the highest priority, slot A of two that are equal.
unfoldable pub choose : SlotState → SlotState → Option ℕ
unfolding rank
choose a b =
    if rank a == 0
    then (if rank b == 0 then none else some 1)
    else if leb (rank b) (rank a)
    then some 0
    else some 1

-- One attempt uses up one try; the last one leaves nothing to boot.
unfoldable pub attempt : SlotState → SlotState
attempt unbootable = unbootable
attempt (updating p t) = if t == 0 then unbootable else updating p (t - 1)
attempt (successful p) = successful p

pub view_slot-normalize_slot :
    (s : BubSlotData) → IsSlot s → view_slot (normalize_slot s).0 ≡ view_slot s
unfolding view_slot normalize_slot
view_slot-normalize_slot s h = ground arith

pub target_slot-choose :
    (a b : BubSlotData)
    → IsProper a
    → IsProper b
    → target_slot a b ≡ choose (view_slot a) (view_slot b)
unfolding target_slot choose view_slot
target_slot-choose a b p q = ground arith

pub take_try-attempt :
    (s : BubSlotData) → IsProper s → view_slot (take_try s).0 ≡ attempt (view_slot s)
unfolding take_try view_slot attempt
take_try-attempt s p = ground arith

-- The two slots of the machine, and one boot attempt: the slot that is tried, and the slots after.
abbrev pub Ab : Type 0
Ab = SlotState × SlotState

abbrev pub view : BubAbData → Ab
view d = (view_slot d.slot0, view_slot d.slot1)

abbrev pub attempt_at : ℕ → Ab → Ab
attempt_at i (a, b) = if i == 0 then (attempt a, b) else (a, attempt b)

unfoldable pub boot : Ab → Option ℕ × Ab
boot ab = elim (choose ab.0 ab.1) [ none ↦ (none, ab) | some i ↦ (some i, attempt_at i ab) ]

pub boot_none_lem : (ab : Ab) → choose ab.0 ab.1 ≡ none → boot ab ≡ (none, ab)
unfolding boot
boot_none_lem ab c = rw (c, boot)

pub boot_some_lem :
    (i : ℕ) (ab : Ab) → choose ab.0 ab.1 ≡ some i → boot ab ≡ (some i, attempt_at i ab)
unfolding boot
boot_some_lem i ab c = rw (c, boot)
