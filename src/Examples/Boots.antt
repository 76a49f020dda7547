-- ===== src/Examples/Boots.antt =====
-- The A/B flow on the disk of `Disk`.
use brillo_device_generic_br.Base.{
  ℕ, ◌<◌, ◌≡◌, ◌≢◌, ◌⊎◌, inr, refl, ap, true, none, some, List, [], ◌∷◌, arith, drop, ◌++◌,
  All-replicate, IsByte, replicate, get_or, bytes_eq,
}
use brillo_device_generic_br.Ops
use brillo_device_generic_br.AbData.{
  ok, error_no_valid_slots, error_invalid_metadata, BubSlotData, BubAbData, to_bytes, of_bytes,
  IsSlot, IsAbData,
}
use brillo_device_generic_br.AbData.Layout.{with_crc, body}
use brillo_device_generic_br.AbData.Stored.{length-to_bytes, to_bytes-IsByte}
use brillo_device_generic_br.AbFlow.{
  ReadOutcome, read, failed, check_ab_data, check_fields, sealed, fresh_slot, fresh_data, suffix,
  no_suffix, bub_ab_flow, bub_ab_mark_as_invalid, bub_write_ab_data_to_misc,
  bub_read_ab_data_from_misc,
}
use brillo_device_generic_br.AbFlow.Storage.{
  full_read, check_ab_data-sealed, check_ab_data-cases, IsIntact, stored_crc, sealed-IsAbData,
}
use brillo_device_generic_br.AbFlow.Corruption.{check_ab_data-corrupted}
use brillo_device_generic_br.AbFlow.Misc.{settled, loaded, write_loaded, write_result}
use brillo_device_generic_br.AbFlow.Machine.{boot, view, view_slot}
use brillo_device_generic_br.AbFlow.Boot.{bub_ab_flow-invalid}
use brillo_device_generic_br.AbFlow.Writes.{fresh-IsAbData}
use brillo_device_generic_br.AbFlow.Reboot.{reboots, reboots-total_tries, reboots-HasSuccessful}
use brillo_device_generic_br.AbFlow.Tries.{HasSuccessful, AllPending, total_tries}
use brillo_device_generic_br.AbFlow.Invalid.{without_slot, bub_ab_mark_as_invalid-without_slot}
use brillo_device_generic_br.Main.{
  BubBootResult, error_partition_invalid_format, MainResult, aborted, could_not_choose_slot,
  could_not_mark_slot, main_loop,
}
use brillo_device_generic_br.Main.Loop.{main_loop-first_round}
use brillo_device_generic_br.Examples.Disk.{
  disk, IsDisk, contents, disk_laws, fresh_block, fresh_block-IsDisk,
}

abbrev pub outcome : List ℕ → ReadOutcome
outcome = loaded disk IsDisk contents disk_laws

-- What the fresh block holds.
pub fresh_loaded : outcome fresh_block ≡ read (settled fresh_data)
unfolding settled
fresh_loaded = check_ab_data-sealed fresh-IsAbData refl

fresh_pending : AllPending (view (settled fresh_data))
unfolding settled view_slot
fresh_pending = (tt, tt)

-- Fourteen boots use up the tries of both slots.
reboots-total_tries_example :
    let result =
      (bub_ab_flow disk
        (reboots disk IsDisk contents disk_laws (λ s buf r l. refl) 14 fresh_block)).0 in
    (14 < total_tries (view (settled fresh_data)) → result ≡ ok)
    × (14 ≡ total_tries (view (settled fresh_data)) → result ≡ error_no_valid_slots)
reboots-total_tries_example =
    reboots-total_tries disk IsDisk contents disk_laws (λ s buf r l. refl) 14 (settled fresh_data)
      fresh_block fresh_block-IsDisk fresh_loaded fresh_pending

-- A disk on which slot B has booted.
abbrev good_data : BubAbData
good_data = record fresh_data {
  slot1 = record fresh_slot { tries_remaining = 0; successful_boot = 1 };
}

good-IsAbData : IsAbData good_data
good-IsAbData = omega arith

abbrev good_block : List ℕ
good_block = to_bytes (sealed good_data)

good_block-IsDisk : IsDisk good_block
good_block-IsDisk = (
  length-to_bytes (sealed-IsAbData good-IsAbData),
  to_bytes-IsByte (sealed-IsAbData good-IsAbData),
)

good_loaded : outcome good_block ≡ read (settled good_data)
unfolding settled
good_loaded = check_ab_data-sealed good-IsAbData refl

good_successful : HasSuccessful (view (settled good_data))
unfolding settled view_slot
good_successful = inr (15, refl)

reboots-HasSuccessful_example :
    (bub_ab_flow disk (reboots disk IsDisk contents disk_laws (λ s buf r l. refl) 100 good_block)).0
    ≡ ok
reboots-HasSuccessful_example =
    reboots-HasSuccessful disk IsDisk contents disk_laws (λ s buf r l. refl) 100 (settled good_data)
      good_block good_block-IsDisk good_loaded good_successful

abbrev blank_block : List ℕ
blank_block = replicate 64 0

blank_block-IsDisk : IsDisk blank_block
blank_block-IsDisk = (refl, All-replicate IsByte 64 0 (omega arith))

blank_loaded : outcome blank_block ≡ failed error_invalid_metadata
unfolding check_ab_data check_fields of_bytes bytes_eq
blank_loaded = refl

bub_ab_flow-invalid_example :
    let (result, selected, s') = bub_ab_flow disk blank_block in
    let written = write_result disk fresh_data (bub_read_ab_data_from_misc disk blank_block).1 in
    (result ≡ error_invalid_metadata)
    × (selected ≡ no_suffix)
    × (((written ≡ Ops.ok) × (outcome s' ≡ read (settled fresh_data)))
        ⊎ ((written ≢ Ops.ok) × (contents s' ≡ contents blank_block)))
bub_ab_flow-invalid_example =
    bub_ab_flow-invalid disk IsDisk contents disk_laws blank_block blank_block-IsDisk blank_loaded

bub_ab_mark_as_invalid-without_slot_example :
    let (code, s') = bub_ab_mark_as_invalid disk (suffix 1) fresh_block in
    let written =
      write_result disk
        (without_slot 1 (settled fresh_data))
        (bub_read_ab_data_from_misc disk fresh_block).1 in
    ((written ≡ Ops.ok)
      × (code ≡ 1)
      × (outcome s' ≡ read (settled (without_slot 1 (settled fresh_data)))))
    ⊎ ((written ≢ Ops.ok) × (code ≡ 0) × (contents s' ≡ contents fresh_block))
bub_ab_mark_as_invalid-without_slot_example =
    bub_ab_mark_as_invalid-without_slot disk IsDisk contents disk_laws 1 (settled fresh_data)
      fresh_block (omega arith) fresh_block-IsDisk fresh_loaded

check_ab_data-cases_example :
    (IsIntact fresh_block fresh_block-IsDisk.0 fresh_block-IsDisk.1
      × (check_ab_data (full_read fresh_block)
          ≡ read (
              with_crc
                (of_bytes fresh_block)
                (stored_crc fresh_block fresh_block-IsDisk.0 fresh_block-IsDisk.1))))
    ⊎ ((¬ IsIntact fresh_block fresh_block-IsDisk.0 fresh_block-IsDisk.1)
        × (check_ab_data (full_read fresh_block) ≡ failed error_invalid_metadata))
check_ab_data-cases_example =
    check_ab_data-cases fresh_block fresh_block-IsDisk.0 fresh_block-IsDisk.1

-- The highest bit of the flags of slot A, flipped.
abbrev before_flags : List ℕ
before_flags = b'B' ∷ b'U' ∷ b'E' ∷ b'F' ∷ 1 ∷ 0 ∷ 0 ∷ 0 ∷ []

abbrev after_flags : List ℕ
after_flags = replicate 7 0 ++ (127 ∷ replicate 43 0)

flags_parts : body fresh_data ≡ before_flags ++ (127 ∷ []) ++ after_flags
unfolding body to_bytes
flags_parts = refl

flags_differ : ◌≢◌ {A = List ℕ} (127 ∷ []) (255 ∷ [])
flags_differ e = omega (arith, ap (λ t. get_or t 0 0) e)

check_ab_data-corrupted_example :
    check_ab_data (
      full_read
        (before_flags ++ (255 ∷ []) ++ after_flags ++ drop 60 (to_bytes (sealed fresh_data))))
    ≡ failed error_invalid_metadata
check_ab_data-corrupted_example =
    check_ab_data-corrupted fresh-IsAbData before_flags (127 ∷ []) (255 ∷ []) after_flags
      flags_parts refl (omega arith) (omega arith, tt) flags_differ

good_write : (bub_write_ab_data_to_misc disk good_data fresh_block).0 ≡ true
unfolding bub_write_ab_data_to_misc
good_write = refl

write_loaded_example :
    outcome (bub_write_ab_data_to_misc disk good_data fresh_block).1 ≡ read (settled good_data)
write_loaded_example =
    write_loaded disk IsDisk contents disk_laws good_data fresh_block good-IsAbData refl
      fresh_block-IsDisk good_write

-- A slot that is marked successful and yet has tries left.
abbrev odd_slot : BubSlotData
odd_slot = record fresh_slot { successful_boot = 1 }

odd_slot-IsSlot : IsSlot odd_slot
odd_slot-IsSlot = omega arith

-- Every kernel partition is refused.
abbrev no_kernel : List ℕ → List ℕ → BubBootResult × List ℕ
no_kernel name s = (error_partition_invalid_format, s)

main_loop-first_round_example :
    let out : MainResult × List ℕ = main_loop disk no_kernel 1 fresh_block in
    (((boot (view (settled fresh_data))).0 ≡ none) × (out.0 ≡ aborted could_not_choose_slot))
    ⊎ ((i : ℕ) × ((boot (view (settled fresh_data))).0 ≡ some i)
        × (out.0 ≡ aborted could_not_mark_slot)
        × (error_partition_invalid_format ≡ error_partition_invalid_format
            → (x : BubAbData) × (view x ≡ (boot (view (settled fresh_data))).1)
              × (outcome out.1 ≡ read (settled (without_slot i x)))))
main_loop-first_round_example =
    main_loop-first_round disk IsDisk contents disk_laws no_kernel (λ name s r. r)
      (λ name s r. refl) (λ s buf r l. refl) 0 (settled fresh_data) fresh_block fresh_block-IsDisk
      fresh_loaded
