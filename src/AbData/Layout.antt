-- ===== src/AbData/Layout.antt =====
-- The memory layout of `BubAbData`: 64 bytes, and nothing is lost either way.
use mathlib.Core.List.{append_assoc}
use brillo_device_generic_br.Base.{
  ℕ, ◌+◌, ◌^◌, ◌≤◌, ◌<◌, ◌≡◌, sym, ap, ◌∙◌, List, ◌∷◌, ◌++◌, arith, get_or, take, drop, length,
  length-append, length-take, length-drop, take-append, take-append-drop, take_all,
  take-drop-append, get_or-drop, All, All-take, All-drop, IsByte,
}
use brillo_device_generic_br.Util.{host_value}
use brillo_device_generic_br.AbData.{
  BubSlotData, BubAbData, word_bytes, slot_bytes, slot_of_bytes, to_bytes, of_bytes, IsSlot,
  IsAbData,
}
use brillo_device_generic_br.AbData.Stored.{
  length-word_bytes, behind_slot0, behind_reserved1, behind_magic, to_bytes_parts, length-to_bytes,
  to_bytes-IsByte, get_or-IsByte, drop_60, slot_bytes-slot_of_bytes, word_bytes-host_value,
  host_value-lt,
}

module _ (bs : List ℕ) (l : length bs ≡ 64) (h : All IsByte bs) where
  piece_bytes : (n k : ℕ) → All IsByte (take k (drop n bs))
  piece_bytes n k = All-take IsByte k (drop n bs) (All-drop IsByte n bs h)

  piece_length : (n k : ℕ) → n + k ≤ 64 → length (take k (drop n bs)) ≡ k
  piece_length n k p = omega (arith, length-take k (drop n bs), length-drop n bs)

  slot_of_bytes-IsSlot : (n : ℕ) → n + 8 ≤ 64 → IsSlot (slot_of_bytes (take 8 (drop n bs)))
  unfolding slot_of_bytes
  slot_of_bytes-IsSlot n p = record {
    priority = omega arith;
    tries_remaining = omega arith;
    successful_boot = omega arith;
    reserved_length = omega (arith, length-drop 1 (take 8 (drop n bs)), piece_length n 8 p);
    reserved_bytes = All-drop IsByte 1 (take 8 (drop n bs)) (piece_bytes n 8);
  }

  head_byte : (n : ℕ) → IsByte (get_or (drop n bs) 0 0)
  head_byte n = get_or-IsByte (drop n bs) (All-drop IsByte n bs h)

  -- Any 64 bytes load as a structure within the ranges of its fields.
  pub of_bytes-IsAbData : IsAbData (of_bytes bs)
  unfolding of_bytes
  of_bytes-IsAbData = record {
    magic_length = piece_length 0 4 (omega arith);
    magic_bytes = piece_bytes 0 4;
    major_version = head_byte 4;
    minor_version = head_byte 5;
    reserved1_length = piece_length 6 2 (omega arith);
    reserved1_bytes = piece_bytes 6 2;
    slot0 = slot_of_bytes-IsSlot 8 (omega arith);
    slot1 = slot_of_bytes-IsSlot 16 (omega arith);
    reserved2_length = piece_length 24 36 (omega arith);
    reserved2_bytes = piece_bytes 24 36;
    crc32 =
        host_value-lt (take 4 (drop 60 bs)) (omega (arith, piece_length 60 4 (omega arith)))
          (piece_bytes 60 4);
  }

  -- What is loaded from 64 bytes is stored as the same bytes.
  pub to_bytes-of_bytes : to_bytes (of_bytes bs) ≡ bs
  unfolding of_bytes
  to_bytes-of_bytes = to_bytes_parts (of_bytes bs) ∙ take-drop-append 0 4 bs _ at_4
    where
      crc : word_bytes (host_value (take 4 (drop 60 bs))) ≡ drop 60 bs
      crc =
          word_bytes-host_value (take 4 (drop 60 bs)) (piece_length 60 4 (omega arith))
            (piece_bytes 60 4)
          ∙ take_all (drop 60 bs) 4 (omega (arith, length-drop 60 bs))

      slot_at :
          (n : ℕ) (rest : List ℕ)
          → n + 8 ≤ 64
          → rest ≡ drop (n + 8) bs
          → slot_bytes (slot_of_bytes (take 8 (drop n bs))) ++ rest ≡ drop n bs
      slot_at n rest p e =
          ap (λ t. t ++ rest)
            (slot_bytes-slot_of_bytes (take 8 (drop n bs)) (omega (arith, piece_length n 8 p))
              (piece_bytes n 8))
          ∙ take-drop-append n 8 bs rest e

      at_16 : behind_slot0 (of_bytes bs) ≡ drop 16 bs
      at_16 = slot_at 16 _ (omega arith) (take-drop-append 24 36 bs _ crc)

      at_6 : take 2 (drop 6 bs) ++ behind_reserved1 (of_bytes bs) ≡ drop 6 bs
      at_6 = take-drop-append 6 2 bs _ (slot_at 8 _ (omega arith) at_16)

      at_4 : behind_magic (of_bytes bs) ≡ drop 4 bs
      at_4 = get_or-drop 4 bs _ 0 (omega arith) (get_or-drop 5 bs _ 0 (omega arith) at_6)

-- The 60 bytes before the checksum.
unfoldable pub body : BubAbData → List ℕ
body d = take 60 (to_bytes d)

module _ {d : BubAbData} (h : IsAbData d) where
  pub length-body : length (body d) ≡ 60
  unfolding body
  length-body = omega (arith, length-take 60 (to_bytes d), length-to_bytes h)

  pub body-IsByte : All IsByte (body d)
  unfolding body
  body-IsByte = All-take IsByte 60 (to_bytes d) (to_bytes-IsByte h)

  pub to_bytes-body : to_bytes d ≡ body d ++ word_bytes d.crc32
  unfolding body
  to_bytes-body =
      sym (take-append-drop 60 (to_bytes d)) ∙ ap (λ t. take 60 (to_bytes d) ++ t) (drop_60 h)

abbrev pub with_crc : BubAbData → ℕ → BubAbData
with_crc d w = record d { crc32 = w }

pub with_crc-IsAbData : {d : BubAbData} (w : ℕ) → IsAbData d → w < 2 ^ 32 → IsAbData (with_crc d w)
with_crc-IsAbData {d} w h p = record {
  magic_length = h.magic_length;
  magic_bytes = h.magic_bytes;
  major_version = h.major_version;
  minor_version = h.minor_version;
  reserved1_length = h.reserved1_length;
  reserved1_bytes = h.reserved1_bytes;
  slot0 = h.slot0;
  slot1 = h.slot1;
  reserved2_length = h.reserved2_length;
  reserved2_bytes = h.reserved2_bytes;
  crc32 = p;
}

-- The parts before the checksum as a list of their own.
before_crc : BubAbData → List ℕ
before_crc d =
    d.magic
    ++ (d.major_version
        ∷ d.minor_version
        ∷ (d.reserved1 ++ (slot_bytes d.slot0 ++ (slot_bytes d.slot1 ++ d.reserved2))))

to_bytes-before_crc : (d : BubAbData) → to_bytes d ≡ before_crc d ++ word_bytes d.crc32
unfolding before_crc
to_bytes-before_crc d = to_bytes_parts d ∙ simp append_assoc

before_crc-body : {d : BubAbData} → IsAbData d → before_crc d ≡ body d
unfolding body
before_crc-body {d} h =
    let e = to_bytes-before_crc d in
    sym (
      ap (take 60) e
      ∙ take-append (before_crc d) (word_bytes d.crc32) 60 (
          omega (
            arith,
            ap (length {0}) e,
            length-to_bytes h,
            length-append (before_crc d) (word_bytes d.crc32),
            length-word_bytes d.crc32,
          )))

-- Writing the checksum changes the last four bytes alone.
pub to_bytes-with_crc :
    {d : BubAbData} (w : ℕ) → IsAbData d → to_bytes (with_crc d w) ≡ body d ++ word_bytes w
unfolding before_crc
to_bytes-with_crc {d} w h =
    to_bytes-before_crc (with_crc d w) ∙ ap (λ t. t ++ word_bytes w) (before_crc-body h)

pub with_slots-IsAbData :
    {d : BubAbData} {a b : BubSlotData}
    → IsAbData d
    → IsSlot a
    → IsSlot b
    → IsAbData (record d { slot0 = a; slot1 = b })
with_slots-IsAbData h p q = record {
  magic_length = h.magic_length;
  magic_bytes = h.magic_bytes;
  major_version = h.major_version;
  minor_version = h.minor_version;
  reserved1_length = h.reserved1_length;
  reserved1_bytes = h.reserved1_bytes;
  slot0 = p;
  slot1 = q;
  reserved2_length = h.reserved2_length;
  reserved2_bytes = h.reserved2_bytes;
  crc32 = h.crc32;
}
