-- ===== src/AbFlow.antt =====
-- brillo_uefi_x86_64/boot_loader/bub_ab_flow.c over the operations of a platform. A function that
-- takes `ops` takes the platform's state and returns it. `bub_warning` only prints and is left out;
-- the assertions of `bub_ab_flow` and `bub_ab_mark_as_invalid` are empty in the boot loader's build
-- (its Makefile does not define BUB_ENABLE_DEBUG).
pub mod Storage
pub mod Corruption
pub mod Misc
pub mod Machine
pub mod Steps
pub mod Writes
pub mod Boot
pub mod Tries
pub mod Reboot
pub mod Invalid
pub mod Slots
use brillo_device_generic_br.Base.{
  ℕ, ◌-◌, ◌+◌, Bool, true, false, ◌&&◌, ◌||◌, not, Option, none, some, List, [], ◌∷◌, ◌==◌, ltb,
  if◌then◌else◌, bytes_eq, take, replicate, length,
}
use brillo_device_generic_br.Base.Int.{pos}
use brillo_device_generic_br.Crc32.{bub_crc32}
use brillo_device_generic_br.Util.{bub_be32toh}
use brillo_device_generic_br.Ops
use brillo_device_generic_br.Ops.{BubOps, ReadResult, BubIoResult, misc_name, ab_data_size}
use brillo_device_generic_br.AbData.{
  BubAbFlowResult, ok, error_input, error_invalid_metadata, error_no_valid_slots,
  error_read_metadata, error_write_metadata, BubSlotData, BubAbData, boot_ctrl_magic,
  major_version_1, minor_version_0, to_bytes, of_bytes, zero_slot, zero_data,
}

-- `slot` as it is left, and whether something was changed.
unfoldable pub normalize_slot : BubSlotData → BubSlotData × Bool
normalize_slot slot =
    if ltb 0 slot.priority
    then (if slot.tries_remaining == 0 && slot.successful_boot == 0
        then (zero_slot, true)
        else if ltb 0 slot.tries_remaining && not (slot.successful_boot == 0)
        then (record slot { successful_boot = 0 }, true)
        else (slot, false))
    else if not (slot.tries_remaining == 0) || not (slot.successful_boot == 0)
    then (zero_slot, true)
    else (slot, false)

unfoldable pub slot_is_bootable : BubSlotData → Bool
slot_is_bootable slot = not (slot.successful_boot == 0) || ltb 0 slot.tries_remaining

-- The structure that the caller gets, or the error; on an error no caller looks at `*data`.
pub data ReadOutcome : Type 0 where
  read : BubAbData → ReadOutcome
  failed : BubAbFlowResult → ReadOutcome

abbrev pub io_ok : BubIoResult → Bool
io_ok Ops.ok = true
io_ok _ = false

-- The checks of `bub_read_ab_data_from_misc`: of the structure, and of the read before it.
unfoldable pub check_fields : BubAbData → ReadOutcome
check_fields ab_data =
    if not (bytes_eq ab_data.magic boot_ctrl_magic)
    then failed error_invalid_metadata
    else (let crc = bub_be32toh ab_data.crc32 in
        if not (crc == bub_crc32 0 (to_bytes (record ab_data { crc32 = 0 })))
        then failed error_invalid_metadata
        else read (record ab_data { crc32 = crc }))

unfoldable pub check_ab_data : ReadResult → ReadOutcome
unfolding check_fields
check_ab_data r =
    if not (io_ok r.result) || not (r.num_read == ab_data_size)
    then failed error_read_metadata
    else check_fields (of_bytes r.buf)

-- The block that `bub_write_ab_data_to_misc` writes.
unfoldable pub sealed : BubAbData → BubAbData
sealed ab_data = record ab_data {
  crc32 = bub_be32toh (bub_crc32 0 (to_bytes (record ab_data { crc32 = 0 })));
}

module _ {S : Type 0} (ops : BubOps S) where
  unfoldable pub bub_read_ab_data_from_misc : S → ReadOutcome × S
  bub_read_ab_data_from_misc s =
      let (r, s') = ops.read_from_partition misc_name (pos 0) ab_data_size s in
      (check_ab_data r, s')

  -- Whether the write succeeded.
  unfoldable pub bub_write_ab_data_to_misc : BubAbData → S → Bool × S
  bub_write_ab_data_to_misc ab_data s =
      let (r, s') = ops.write_to_partition misc_name (to_bytes (sealed ab_data)) (pos 0) s in
      (io_ok r, s')

-- What `reset_metadata` writes.
abbrev pub fresh_slot : BubSlotData
fresh_slot = record zero_slot { priority = 15; tries_remaining = 7; successful_boot = 0 }

abbrev pub fresh_data : BubAbData
fresh_data = record zero_data {
  magic = boot_ctrl_magic;
  major_version = major_version_1;
  minor_version = minor_version_0;
  slot0 = fresh_slot;
  slot1 = fresh_slot;
}

-- `target_slot_index_to_boot`; `none` is -1.
unfoldable pub target_slot : BubSlotData → BubSlotData → Option ℕ
unfolding slot_is_bootable
target_slot a b =
    if slot_is_bootable a && slot_is_bootable b
    then (if ltb a.priority b.priority then some 1 else some 0)
    else if slot_is_bootable a
    then some 0
    else if slot_is_bootable b
    then some 1
    else none

-- `bub_suffixes[i]`, with its NUL.
abbrev pub suffix : ℕ → List ℕ
suffix i = if i == 0 then b'_' ∷ b'a' ∷ 0 ∷ [] else b'_' ∷ b'b' ∷ 0 ∷ []

-- `out_selected_suffix` when no selection has been made.
abbrev pub no_suffix : List ℕ
no_suffix = replicate 3 0

-- `tries_remaining--` of one slot if it is not 0, and whether that was done.
unfoldable pub take_try : BubSlotData → BubSlotData × Bool
take_try slot =
    if ltb 0 slot.tries_remaining
    then (record slot { tries_remaining = slot.tries_remaining - 1 }, true)
    else (slot, false)

unfoldable pub take_try_at : ℕ → BubAbData → BubAbData × Bool
unfolding take_try
take_try_at i ab_data =
    if i == 0
    then (let (slot, taken) = take_try ab_data.slot0 in (record ab_data { slot0 = slot }, taken))
    else (let (slot, taken) = take_try ab_data.slot1 in (record ab_data { slot1 = slot }, taken))

-- Both slots normalized, and whether one was changed.
unfoldable pub normalize : BubAbData → BubAbData × Bool
unfolding normalize_slot
normalize ab_data =
    let (a, changed_a) = normalize_slot ab_data.slot0 in
    let (b, changed_b) = normalize_slot ab_data.slot1 in
    (record ab_data { slot0 = a; slot1 = b }, changed_a || changed_b)

module _ {S : Type 0} (ops : BubOps S) where
  unfoldable pub reset_metadata : S → Bool × S
  reset_metadata s = bub_write_ab_data_to_misc ops fresh_data s

  -- `if (new_metadata) if (!write) return ...`: whether the flow may go on.
  unfoldable pub write_if : Bool → BubAbData → S → Bool × S
  write_if new_metadata ab_data s =
      if new_metadata then bub_write_ab_data_to_misc ops ab_data s else (true, s)

  -- The flow once the metadata is read: its result, the suffix in the caller's buffer, the state.
  unfoldable pub boot_target : Option ℕ → Bool → BubAbData → S → BubAbFlowResult × List ℕ × S
  boot_target none new_metadata ab_data s =
      let (written, s') = write_if new_metadata ab_data s in
      if written
      then (error_no_valid_slots, no_suffix, s')
      else (error_write_metadata, no_suffix, s')
  boot_target (some i) new_metadata ab_data s =
      let (ab_data', taken) = take_try_at i ab_data in
      let (written, s') = write_if (new_metadata || taken) ab_data' s in
      if written then (ok, suffix i, s') else (error_write_metadata, no_suffix, s')

  unfoldable pub flow_slots : BubAbData → S → BubAbFlowResult × List ℕ × S
  flow_slots ab_ctl s =
      let (ab_data, new_metadata) = normalize ab_ctl in
      boot_target (target_slot ab_data.slot0 ab_data.slot1) new_metadata ab_data s

  unfoldable pub flow_failed : BubAbFlowResult → S → BubAbFlowResult × List ℕ × S
  flow_failed error_invalid_metadata s = (error_invalid_metadata, no_suffix, (reset_metadata s).1)
  flow_failed e s = (e, no_suffix, s)

  unfoldable pub bub_ab_flow : S → BubAbFlowResult × List ℕ × S
  bub_ab_flow s =
      let (outcome, s') = bub_read_ab_data_from_misc ops s in
      elim outcome [ read ab_data ↦ flow_slots ab_data s' | failed e ↦ flow_failed e s' ]

-- The number of an enumerator, as `return ab_err` converts it to `int`.
unfoldable pub result_code : BubAbFlowResult → ℕ
result_code ok = 0
result_code error_input = 1
result_code error_invalid_metadata = 2
result_code error_no_valid_slots = 3
result_code error_read_metadata = 4
result_code error_write_metadata = 5

abbrev pub int_of : Bool → ℕ
int_of true = 1
int_of false = 0

module _ {S : Type 0} (ops : BubOps S) where
  -- The loop over `bub_suffixes`, which compares three bytes of the given string.
  unfoldable pub invalidate : BubAbData → List ℕ → S → ℕ × S
  invalidate ab_ctl invalid_suffix s =
      if bytes_eq (suffix 0) (take 3 invalid_suffix)
      then (let (written, s') =
            bub_write_ab_data_to_misc ops (record ab_ctl { slot0 = zero_slot }) s in
          (int_of written, s'))
      else if bytes_eq (suffix 1) (take 3 invalid_suffix)
      then (let (written, s') =
            bub_write_ab_data_to_misc ops (record ab_ctl { slot1 = zero_slot }) s in
          (int_of written, s'))
      else (0, s)

  -- The `int` that is returned. `invalid_suffix` holds the NUL of the string.
  unfoldable pub bub_ab_mark_as_invalid : List ℕ → S → ℕ × S
  bub_ab_mark_as_invalid invalid_suffix s =
      let (outcome, s') = bub_read_ab_data_from_misc ops s in
      elim outcome [
        | read ab_data ↦ invalidate ab_data invalid_suffix s'
        | failed e ↦ (result_code e, s')
      ]
