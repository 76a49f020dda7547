-- ===== src/MiscImage/Image.antt =====
-- The image that make_misc_image writes, and the checks of the boot loader (bub_ab_flow.c).
use brillo_device_generic_br.Base.{
  ℕ, ◌≤◌, ◌≡◌, ◌≢◌, refl, ap, ◌∙◌, false, List, [], ◌∷◌, none, some, arith, length, codes, ◌==◌,
  if◌then◌else◌,
}
use brillo_device_generic_br.Crc32.{bub_crc32}
use brillo_device_generic_br.AbData.{BubSlotData, BubAbData, IsAbData, boot_ctrl_magic, to_bytes}
use brillo_device_generic_br.AbData.Layout.{with_crc}
use brillo_device_generic_br.AbFlow.{read, check_ab_data}
use brillo_device_generic_br.AbFlow.Storage.{full_read, check_ab_data-sealed}
use brillo_device_generic_br.MiscImage.{
  Posix, CommandLine, write_ab_metadata, metadata_image, main, parse_command_line_args, run_main,
  after_slots,
}
use brillo_device_generic_br.MiscImage.Arguments.{
  AreValues, limits, attributes_of, set_slots_from_tokens-AreValues,
}

-- The widths of the fields.
abbrev pub InRange : BubSlotData → Type 0
InRange a = (a.priority ≤ 15) × (a.tries_remaining ≤ 7) × (a.successful_boot ≤ 1)

module _ (a b : BubSlotData) (ha : InRange a) (hb : InRange b) where
  abbrev metadata : BubAbData
  metadata = write_ab_metadata boot_ctrl_magic a b

  metadata-IsAbData : IsAbData (write_ab_metadata boot_ctrl_magic a b)
  unfolding write_ab_metadata
  metadata-IsAbData = omega arith

  metadata-magic : (write_ab_metadata boot_ctrl_magic a b).magic ≡ boot_ctrl_magic
  unfolding write_ab_metadata
  metadata-magic = refl

  -- The structure with its checksum, as it is read back.
  abbrev read_back : BubAbData
  read_back = with_crc metadata (bub_crc32 0 (to_bytes (with_crc metadata 0)))

  image_read :
      check_ab_data (full_read (metadata_image (write_ab_metadata boot_ctrl_magic a b)))
      ≡ read read_back
  unfolding metadata_image
  image_read = check_ab_data-sealed metadata-IsAbData metadata-magic

  slots_read : attributes_of read_back.slot0 read_back.slot1 ≡ attributes_of a b
  unfolding write_ab_metadata
  slots_read = refl

module _ (command_line : CommandLine) (a b a' b' : BubSlotData)
    (accepted : AreValues command_line limits
      (command_line.tokens (command_line.switch_value (codes "ab_metadata")))
      (attributes_of a' b'))
    (kept_a : a'.reserved ≡ a.reserved) (kept_b : b'.reserved ≡ b.reserved)
    (named : length (command_line.switch_value (codes "output")) ≢ 0) where
  abbrev output : List ℕ
  output = command_line.switch_value (codes "output")

  has_name : (output_length : ℕ) → output_length ≢ 0 → (output_length == 0) ≡ false
  has_name n h = ground arith

  parsed : parse_command_line_args command_line a b ≡ some (a', b', output)
  unfolding parse_command_line_args after_slots
  parsed =
      ap (after_slots command_line)
        ((set_slots_from_tokens-AreValues command_line _ a b a' b').1 (accepted, kept_a, kept_b))
      ∙ ap (λ t. if t then none else some (a', b', output)) (has_name (length output) named)

  in_range :
      (st : List (List ℕ))
      → AreValues command_line limits st (attributes_of a' b')
      → InRange a' × InRange b'
  in_range (p ∷ t ∷ s ∷ p' ∷ t' ∷ s' ∷ rest) v =
      ((v.1, v.2.1, v.2.2.1), (v.2.2.2.1, v.2.2.2.2.1, v.2.2.2.2.2.1))
  in_range [] v = absurd v
  in_range (p ∷ []) v = absurd v.2
  in_range (p ∷ t ∷ []) v = absurd v.2.2
  in_range (p ∷ t ∷ s ∷ []) v = absurd v.2.2.2
  in_range (p ∷ t ∷ s ∷ p' ∷ []) v = absurd v.2.2.2.2
  in_range (p ∷ t ∷ s ∷ p' ∷ t' ∷ []) v = absurd v.2.2.2.2.2

  -- When the command line names an output and its attributes are accepted, the tool writes one
  -- file there, and its exit code is 1; the bytes of the file are accepted by the checks of the
  -- boot loader, which reads from them slots with these attributes.
  pub main-check_ab_data :
      {S : Type 0} (posix : Posix S) (s : S)
      → (bytes : List ℕ) × (d : BubAbData) × (main command_line posix a b s
          ≡ (1, (posix.write_file (posix.image_path output) bytes s).1))
        × (check_ab_data (full_read bytes) ≡ read d)
        × (attributes_of d.slot0 d.slot1 ≡ attributes_of a' b')
  unfolding main
  main-check_ab_data posix s =
      let (ha, hb) = in_range _ accepted in
      (
        metadata_image (write_ab_metadata boot_ctrl_magic a' b'),
        read_back a' b' ha hb,
        ap (λ o. run_main command_line posix o s) parsed,
        image_read a' b' ha hb,
        slots_read a' b' ha hb,
      )
