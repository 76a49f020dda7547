-- ===== src/AbFlow/Corruption.antt =====
-- What the checksum of a sealed metadata block detects (bub_read_ab_data_from_misc of
-- bub_ab_flow.c).
use mathlib.Core.List.{append_assoc}
use brillo_device_generic_br.Base.{
  ℕ, ◌+◌, ◌≤◌, ◌≡◌, ◌≢◌, inl, inr, sym, ap, ◌∙◌, List, ◌++◌, arith, length, length-append,
  length-drop, drop, take-append, drop-append, All, All-append, All-append_left, All-append_right,
  subst, All-drop, IsByte,
}
use brillo_device_generic_br.Crc32.{bub_crc32}
use brillo_device_generic_br.Crc32.Detect.{bub_crc32-window}
use brillo_device_generic_br.Util.Endian.{big_endian}
use brillo_device_generic_br.AbData.{error_invalid_metadata, BubAbData, IsAbData, to_bytes}
use brillo_device_generic_br.AbData.Layout.{body, length-body, body-IsByte}
use brillo_device_generic_br.AbData.Stored.{length-to_bytes, to_bytes-IsByte, drop_60}
use brillo_device_generic_br.AbFlow.{failed, check_ab_data, sealed}
use brillo_device_generic_br.AbFlow.Storage.{
  zeros, checksum, full_read, sealed-IsAbData, IsIntact, check_ab_data-cases, sealed_crc,
}

-- Corruption of at most four consecutive bytes before the checksum, in a block that was sealed.
module _ {d : BubAbData} (h : IsAbData d) (pre old new post : List ℕ)
    (parts : body d ≡ pre ++ old ++ post) (same : length old ≡ length new) (short : length old ≤ 4)
    (byte : All IsByte new) (differs : old ≢ new) where
  abbrev pub corrupted : List ℕ
  corrupted = pre ++ new ++ post ++ drop 60 (to_bytes (sealed d))

  total : length pre + length old + length post ≡ 60
  total = omega (
    arith,
    length-body h,
    ap (length {0}) parts,
    length-append (pre ++ old) post,
    length-append pre old,
  )

  new_length : length (pre ++ new ++ post) ≡ 60
  new_length = omega (arith, total, length-append (pre ++ new) post, length-append pre new)

  parts-IsByte : All IsByte pre × All IsByte old × All IsByte post
  parts-IsByte =
      let whole : All IsByte (pre ++ old ++ post) = subst (All IsByte) parts (body-IsByte h) in
      let front = All-append_left IsByte (pre ++ old) post whole in
      (
        All-append_left IsByte pre old front,
        All-append_right IsByte pre old front,
        All-append_right IsByte (pre ++ old) post whole,
      )

  corrupted_length : length corrupted ≡ 64
  corrupted_length = omega (
    arith,
    new_length,
    length-append (pre ++ new ++ post) (drop 60 (to_bytes (sealed d))),
    length-drop 60 (to_bytes (sealed d)),
    length-to_bytes (sealed-IsAbData h),
  )

  corrupted-IsByte : All IsByte corrupted
  corrupted-IsByte =
      All-append IsByte (pre ++ new ++ post) (drop 60 (to_bytes (sealed d)))
        (All-append IsByte (pre ++ new) post (All-append IsByte pre new parts-IsByte.0 byte)
          parts-IsByte.2)
        (All-drop IsByte 60 (to_bytes (sealed d)) (to_bytes-IsByte (sealed-IsAbData h)))

  -- The stored checksum is that of the block before the corruption.
  stored_before : big_endian 0 (drop 60 corrupted) ≡ bub_crc32 0 (pre ++ old ++ post ++ zeros)
  stored_before =
      ap (big_endian 0) (
        drop-append (pre ++ new ++ post) (drop 60 (to_bytes (sealed d))) 60 new_length
        ∙ drop_60 (sealed-IsAbData h))
      ∙ sealed_crc h
      ∙ ap (λ t. bub_crc32 0 (t ++ zeros)) parts

  checksum_after : checksum corrupted ≡ bub_crc32 0 (pre ++ new ++ post ++ zeros)
  unfolding checksum
  checksum_after =
      ap (λ t. bub_crc32 0 (t ++ zeros))
        (take-append (pre ++ new ++ post) (drop 60 (to_bytes (sealed d))) 60 new_length)

  differ_after :
      bub_crc32 0 (pre ++ old ++ post ++ zeros) ≢ bub_crc32 0 (pre ++ new ++ post ++ zeros)
  differ_after e =
      bub_crc32-window 0 pre old new (post ++ zeros) (omega arith) same short parts-IsByte.0
        parts-IsByte.1 byte (All-append IsByte post zeros parts-IsByte.2 (omega arith)) differs
        (ap (bub_crc32 0) (sym (append_assoc (pre ++ old) post zeros))
          ∙ e
          ∙ ap (bub_crc32 0) (append_assoc (pre ++ new) post zeros))

  not_intact : ¬ IsIntact corrupted corrupted_length corrupted-IsByte
  unfolding IsIntact
  not_intact (_, c) = differ_after (sym stored_before ∙ c ∙ checksum_after)

  -- A sealed block in which at most four consecutive bytes before the checksum are replaced by as
  -- many other bytes, not all the same, is refused as invalid metadata.
  pub check_ab_data-corrupted : check_ab_data (full_read corrupted) ≡ failed error_invalid_metadata
  check_ab_data-corrupted = elim (check_ab_data-cases corrupted corrupted_length corrupted-IsByte) [
    | inl (a, _) ↦ absurd (not_intact a)
    | inr (_, e) ↦ e
  ]
