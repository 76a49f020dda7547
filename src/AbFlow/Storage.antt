-- ===== src/AbFlow/Storage.antt =====
-- Reading and writing the metadata block: bub_read_ab_data_from_misc and
-- bub_write_ab_data_to_misc of bub_ab_flow.c.
use brillo_device_generic_br.Base.{
  ℕ, ◌^◌, ◌<◌, ◌≡◌, ◌↔◌, ◌⊎◌, inl, inr, refl, sym, ap, ◌∙◌, true, List, [], ◌∷◌, ◌++◌, arith,
  ==_iff, bytes_eq, bytes_eq_refl, eq_of_bytes_eq, length, length-drop, take, drop, take_all, All,
  All-append, subst, All-drop, IsByte,
}
use brillo_device_generic_br.Crc32.{bub_crc32}
use brillo_device_generic_br.Crc32.Detect.{bub_crc32-IsWord}
use brillo_device_generic_br.Util.{bub_be32toh, host_value}
use brillo_device_generic_br.Util.Endian.{
  big_endian, bub_be32toh-lt, bub_be32toh-bub_be32toh, bub_be32toh-host_value,
}
use brillo_device_generic_br.Ops
use brillo_device_generic_br.Ops.{
  BubOps, ReadResult, BubIoResult, MiscLaws, misc_name, ab_data_size,
}
use brillo_device_generic_br.AbData.{
  error_invalid_metadata, BubAbData, IsAbData, boot_ctrl_magic, to_bytes, of_bytes, word_bytes,
}
use brillo_device_generic_br.AbData.Layout.{
  of_bytes-IsAbData, to_bytes-of_bytes, body, body-IsByte, with_crc, with_crc-IsAbData,
  to_bytes-with_crc,
}
use brillo_device_generic_br.AbData.Stored.{
  of_bytes-to_bytes, word_bytes-IsByte, length-word_bytes, host_value-word_bytes,
}
use brillo_device_generic_br.AbFlow.{read, failed, check_fields, check_ab_data, sealed}

abbrev pub zeros : List ℕ
zeros = 0 ∷ 0 ∷ 0 ∷ 0 ∷ []

-- The checksum that belongs to a block: that of its 64 bytes with the checksum field zero.
unfoldable pub checksum : List ℕ → ℕ
checksum block = bub_crc32 0 (take 60 block ++ zeros)

abbrev pub full_read : List ℕ → ReadResult
full_read block = record { result = Ops.ok; buf = block; num_read = ab_data_size }

zero_word : word_bytes 0 ≡ zeros
unfolding word_bytes
zero_word = refl

-- The outcome of the checks on a structure.
IsAccepted : BubAbData → Type 0
IsAccepted d =
    (d.magic ≡ boot_ctrl_magic) × (bub_be32toh d.crc32 ≡ bub_crc32 0 (to_bytes (with_crc d 0)))

bytes_eq_iff : (xs ys : List ℕ) → (bytes_eq xs ys ≡ true) ↔ (xs ≡ ys)
bytes_eq_iff xs ys = (eq_of_bytes_eq xs ys, λ e. ap (bytes_eq xs) (sym e) ∙ bytes_eq_refl xs)

check_fields-cases :
    (d : BubAbData)
    → (IsAccepted d × (check_fields d ≡ read (with_crc d (bub_be32toh d.crc32))))
      ⊎ ((¬ IsAccepted d) × (check_fields d ≡ failed error_invalid_metadata))
unfolding check_fields IsAccepted
check_fields-cases d = ground (
  arith,
  bytes_eq_iff d.magic boot_ctrl_magic,
  ==_iff (bub_be32toh d.crc32) (bub_crc32 0 (to_bytes (with_crc d 0))),
)

check_fields_read :
    (d : BubAbData) → IsAccepted d → check_fields d ≡ read (with_crc d (bub_be32toh d.crc32))
check_fields_read d a = elim (check_fields-cases d) [ inl (_, e) ↦ e | inr (n, _) ↦ absurd (n a) ]

check_full : (block : List ℕ) → check_ab_data (full_read block) ≡ check_fields (of_bytes block)
unfolding check_ab_data
check_full block = refl

module _ {d : BubAbData} (h : IsAbData d) where
  crc_input : to_bytes (with_crc d 0) ≡ body d ++ zeros
  crc_input = to_bytes-with_crc 0 h ∙ ap (λ t. body d ++ t) zero_word

  crc-lt : bub_crc32 0 (to_bytes (with_crc d 0)) < 2 ^ 32
  crc-lt = rw crc_input (
      bub_crc32-IsWord 0 (body d ++ zeros) (omega arith)
        (All-append IsByte (body d) zeros (body-IsByte h) (omega arith)))

  pub sealed-IsAbData : IsAbData (sealed d)
  unfolding sealed
  sealed-IsAbData = with_crc-IsAbData _ h (bub_be32toh-lt _)

  -- A block with the right magic that was sealed passes every check, and is read as the structure
  -- that was given, with the checksum in host order.
  pub check_ab_data-sealed :
      d.magic ≡ boot_ctrl_magic
      → check_ab_data (full_read (to_bytes (sealed d)))
        ≡ read (with_crc d (bub_crc32 0 (to_bytes (with_crc d 0))))
  unfolding sealed IsAccepted
  check_ab_data-sealed m =
      check_full (to_bytes (sealed d))
      ∙ ap check_fields (of_bytes-to_bytes sealed-IsAbData)
      ∙ check_fields_read (sealed d) (m, stored)
      ∙ ap (λ w. read (with_crc d w)) stored
    where
      stored : bub_be32toh (sealed d).crc32 ≡ bub_crc32 0 (to_bytes (with_crc d 0))
      stored = bub_be32toh-bub_be32toh _ crc-lt

big_endian-word_bytes : (x : ℕ) → x < 2 ^ 32 → big_endian 0 (word_bytes (bub_be32toh x)) ≡ x
big_endian-word_bytes x h =
    sym (
      bub_be32toh-host_value (word_bytes (bub_be32toh x)) (length-word_bytes (bub_be32toh x))
        (word_bytes-IsByte (bub_be32toh x)))
    ∙ ap bub_be32toh (host_value-word_bytes (bub_be32toh x) (bub_be32toh-lt x))
    ∙ bub_be32toh-bub_be32toh x h

pub sealed_crc :
    {d : BubAbData}
    → IsAbData d
    → big_endian 0 (word_bytes (sealed d).crc32) ≡ bub_crc32 0 (body d ++ zeros)
unfolding sealed
sealed_crc {d} h =
    big_endian-word_bytes (bub_crc32 0 (to_bytes (with_crc d 0))) (crc-lt h)
    ∙ ap (bub_crc32 0) (crc_input h)

-- A block of 64 bytes, as the read gives it.
module _ (block : List ℕ) (l : length block ≡ 64) (h : All IsByte block) where
  abbrev pub stored_crc : ℕ
  stored_crc = big_endian 0 (drop 60 block)

  stored_crc_lem : bub_be32toh (of_bytes block).crc32 ≡ stored_crc
  unfolding of_bytes
  stored_crc_lem =
      ap (λ t. bub_be32toh (host_value t))
        (take_all (drop 60 block) 4 (omega (arith, length-drop 60 block)))
      ∙ bub_be32toh-host_value (drop 60 block) (omega (arith, length-drop 60 block))
          (All-drop IsByte 60 block h)

  checksum_lem : bub_crc32 0 (to_bytes (with_crc (of_bytes block) 0)) ≡ checksum block
  unfolding checksum body
  checksum_lem =
      ap (bub_crc32 0) (crc_input (of_bytes-IsAbData block l h))
      ∙ ap (λ t. bub_crc32 0 (take 60 t ++ zeros)) (to_bytes-of_bytes block l h)

  unfoldable pub IsIntact : Type 0
  IsIntact = (take 4 block ≡ boot_ctrl_magic) × (stored_crc ≡ checksum block)

  IsAccepted-iff : IsAccepted (of_bytes block) ↔ IsIntact
  unfolding IsAccepted IsIntact of_bytes
  IsAccepted-iff = (
    λ (m, c). (m, sym stored_crc_lem ∙ c ∙ checksum_lem),
    λ (m, c). (m, stored_crc_lem ∙ c ∙ sym checksum_lem),
  )

  -- The outcome for every block of 64 bytes that is read whole: accepted exactly when the block
  -- starts with the magic and its last four bytes, the first highest, are the checksum of the
  -- block with these bytes zero, and then given with that checksum; refused as invalid metadata
  -- otherwise.
  pub check_ab_data-cases :
      (IsIntact × (check_ab_data (full_read block) ≡ read (with_crc (of_bytes block) stored_crc)))
      ⊎ ((¬ IsIntact) × (check_ab_data (full_read block) ≡ failed error_invalid_metadata))
  check_ab_data-cases = elim (check_fields-cases (of_bytes block)) [
    | inl (a, e) ↦ inl (
      IsAccepted-iff.0 a,
      check_full block ∙ e ∙ ap (λ w. read (with_crc (of_bytes block) w)) stored_crc_lem,
    )
    | inr (n, e) ↦ inr (λ a. n (IsAccepted-iff.1 a), check_full block ∙ e)
  ]

-- What is read has values in the ranges of its fields, and the right magic.
pub read-IsAbData :
    (block : List ℕ)
    → length block ≡ 64
    → All IsByte block
    → {d : BubAbData} → check_ab_data (full_read block) ≡ read d
    → IsAbData d × (d.magic ≡ boot_ctrl_magic)
unfolding IsIntact
read-IsAbData block l h {d} e = elim (check_ab_data-cases block l h) [
  | inl ((m, c), p) ↦
      subst (λ x. IsAbData x × (x.magic ≡ boot_ctrl_magic)) (cc)
        (with_crc-IsAbData (stored_crc block l h) (of_bytes-IsAbData block l h) stored-lt, magic m)
  | inr (_, p) ↦ absurd (cc)
]
  where
    stored-lt : stored_crc block l h < 2 ^ 32
    stored-lt =
        subst (λ x. x < 2 ^ 32) (stored_crc_lem block l h) (bub_be32toh-lt (of_bytes block).crc32)

    magic : take 4 block ≡ boot_ctrl_magic → (of_bytes block).magic ≡ boot_ctrl_magic
    magic m = unfold of_bytes in m
