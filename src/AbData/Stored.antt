-- ===== src/AbData/Stored.antt =====
-- The metadata of bub_ab_flow.h stored in memory: its 64 bytes, and what is loaded from them.
use brillo_device_generic_br.Base.{
  ℕ, ◌^◌, ◌≤◌, ◌<◌, ◌≡◌, refl, sym, ap, ◌∙◌, List, [], ◌∷◌, ◌++◌, arith, get_or, take, drop, length,
  length-append, take-append, drop-append, drop-drop, take_all, All, All-append, IsByte,
}
use brillo_device_generic_br.Util.{host_value}
use brillo_device_generic_br.AbData.{
  BubSlotData, BubAbData, word_bytes, slot_bytes, slot_of_bytes, to_bytes, of_bytes, IsSlot,
  IsAbData,
}

pub host_value-word_bytes : (w : ℕ) → w < 2 ^ 32 → host_value (word_bytes w) ≡ w
unfolding host_value word_bytes
host_value-word_bytes w h = omega arith

pub word_bytes-IsByte : (w : ℕ) → All IsByte (word_bytes w)
unfolding word_bytes
word_bytes-IsByte w = omega arith

pub slot_bytes-IsByte : {s : BubSlotData} → IsSlot s → All IsByte (slot_bytes s)
unfolding slot_bytes
slot_bytes-IsByte h = (omega arith, h.reserved_bytes)

pub slot_of_bytes-slot_bytes : {s : BubSlotData} → IsSlot s → slot_of_bytes (slot_bytes s) ≡ s
unfolding slot_bytes slot_of_bytes
slot_of_bytes-slot_bytes {s} h = ground arith

pub length-slot_bytes : {s : BubSlotData} → IsSlot s → length (slot_bytes s) ≡ 8
unfolding slot_bytes
length-slot_bytes h = omega arith

pub length-word_bytes : (w : ℕ) → length (word_bytes w) ≡ 4
unfolding word_bytes
length-word_bytes w = refl

-- The parts of the structure in memory order, each with the parts behind it.
module _ (d : BubAbData) where
  abbrev pub behind_slot1 : List ℕ
  behind_slot1 = d.reserved2 ++ word_bytes d.crc32

  abbrev pub behind_slot0 : List ℕ
  behind_slot0 = slot_bytes d.slot1 ++ behind_slot1

  abbrev pub behind_reserved1 : List ℕ
  behind_reserved1 = slot_bytes d.slot0 ++ behind_slot0

  abbrev pub behind_magic : List ℕ
  behind_magic = d.major_version ∷ d.minor_version ∷ (d.reserved1 ++ behind_reserved1)

pub to_bytes_parts : (d : BubAbData) → to_bytes d ≡ d.magic ++ behind_magic d
unfolding to_bytes
to_bytes_parts d = refl

-- The structure occupies 64 bytes (the static assertion of the header).
pub length-to_bytes : {d : BubAbData} → IsAbData d → length (to_bytes d) ≡ 64
length-to_bytes {d} h = omega (
  arith,
  ap (length {0}) (to_bytes_parts d),
  length-append d.magic (behind_magic d),
  length-append d.reserved1 (behind_reserved1 d),
  length-append (slot_bytes d.slot0) (behind_slot0 d),
  length-append (slot_bytes d.slot1) (behind_slot1 d),
  length-append d.reserved2 (word_bytes d.crc32),
  length-slot_bytes h.slot0,
  length-slot_bytes h.slot1,
  length-word_bytes d.crc32,
)

pub to_bytes-IsByte : {d : BubAbData} → IsAbData d → All IsByte (to_bytes d)
to_bytes-IsByte {d} h = rw (to_bytes_parts d) (
    All-append IsByte d.magic (behind_magic d) h.magic_bytes (
      h.major_version,
      (
        h.minor_version,
        All-append IsByte d.reserved1 (behind_reserved1 d) h.reserved1_bytes (
            All-append IsByte (slot_bytes d.slot0) (behind_slot0 d) (slot_bytes-IsByte h.slot0) (
              All-append IsByte (slot_bytes d.slot1) (behind_slot1 d) (slot_bytes-IsByte h.slot1) (
                All-append IsByte d.reserved2 (word_bytes d.crc32) h.reserved2_bytes
                  (word_bytes-IsByte d.crc32)))),
      ),
    ))

pub get_or-IsByte : (bs : List ℕ) → All IsByte bs → IsByte (get_or bs 0 0)
get_or-IsByte [] h = omega arith
get_or-IsByte (b ∷ bs) h = h.0

-- Where the parts stand.
module _ {d : BubAbData} (h : IsAbData d) where
  pub drop_4 : drop 4 (to_bytes d) ≡ behind_magic d
  drop_4 = rw (to_bytes_parts d) (drop-append d.magic (behind_magic d) 4 h.magic_length)

  pub drop_6 : drop 6 (to_bytes d) ≡ d.reserved1 ++ behind_reserved1 d
  drop_6 = sym (drop-drop 4 2 (to_bytes d)) ∙ ap (drop 2) drop_4

  pub drop_8 : drop 8 (to_bytes d) ≡ behind_reserved1 d
  drop_8 =
      sym (drop-drop 6 2 (to_bytes d))
      ∙ ap (drop 2) drop_6
      ∙ drop-append d.reserved1 (behind_reserved1 d) 2 h.reserved1_length

  pub drop_16 : drop 16 (to_bytes d) ≡ behind_slot0 d
  drop_16 =
      sym (drop-drop 8 8 (to_bytes d))
      ∙ ap (drop 8) drop_8
      ∙ drop-append (slot_bytes d.slot0) (behind_slot0 d) 8 (length-slot_bytes h.slot0)

  pub drop_24 : drop 24 (to_bytes d) ≡ behind_slot1 d
  drop_24 =
      sym (drop-drop 16 8 (to_bytes d))
      ∙ ap (drop 8) drop_16
      ∙ drop-append (slot_bytes d.slot1) (behind_slot1 d) 8 (length-slot_bytes h.slot1)

  pub drop_60 : drop 60 (to_bytes d) ≡ word_bytes d.crc32
  drop_60 =
      sym (drop-drop 24 36 (to_bytes d))
      ∙ ap (drop 36) drop_24
      ∙ drop-append d.reserved2 (word_bytes d.crc32) 36 h.reserved2_length

  -- What is stored as 64 bytes is loaded again as the same structure.
  pub of_bytes-to_bytes : of_bytes (to_bytes d) ≡ d
  unfolding of_bytes
  of_bytes-to_bytes = λ i. record {
    magic = magic i;
    major_version = get_or (drop_4 i) 0 0;
    minor_version = get_or (drop_5 i) 0 0;
    reserved1 = reserved1 i;
    slot0 = slot0 i;
    slot1 = slot1 i;
    reserved2 = reserved2 i;
    crc32 = crc i;
  }
    where
      drop_5 : drop 5 (to_bytes d) ≡ d.minor_version ∷ (d.reserved1 ++ behind_reserved1 d)
      drop_5 = sym (drop-drop 4 1 (to_bytes d)) ∙ ap (drop 1) drop_4

      magic : take 4 (to_bytes d) ≡ d.magic
      magic = rw (to_bytes_parts d) (take-append d.magic (behind_magic d) 4 h.magic_length)

      reserved1 : take 2 (drop 6 (to_bytes d)) ≡ d.reserved1
      reserved1 = rw drop_6 (take-append d.reserved1 (behind_reserved1 d) 2 h.reserved1_length)

      slot0 : slot_of_bytes (take 8 (drop 8 (to_bytes d))) ≡ d.slot0
      slot0 =
          rw
            (
              drop_8,
              take-append (slot_bytes d.slot0) (behind_slot0 d) 8 (length-slot_bytes h.slot0),
            )
            (slot_of_bytes-slot_bytes h.slot0)

      slot1 : slot_of_bytes (take 8 (drop 16 (to_bytes d))) ≡ d.slot1
      slot1 =
          rw
            (
              drop_16,
              take-append (slot_bytes d.slot1) (behind_slot1 d) 8 (length-slot_bytes h.slot1),
            )
            (slot_of_bytes-slot_bytes h.slot1)

      reserved2 : take 36 (drop 24 (to_bytes d)) ≡ d.reserved2
      reserved2 = rw drop_24 (take-append d.reserved2 (word_bytes d.crc32) 36 h.reserved2_length)

      crc : host_value (take 4 (drop 60 (to_bytes d))) ≡ d.crc32
      crc =
          rw (drop_60, take_all (word_bytes d.crc32) 4 (length-word_bytes d.crc32))
            (host_value-word_bytes d.crc32 h.crc32)

-- A slot and a word are the bytes that they are loaded from.
pub slot_bytes-slot_of_bytes :
    (bs : List ℕ) → 0 < length bs → All IsByte bs → slot_bytes (slot_of_bytes bs) ≡ bs
unfolding slot_bytes slot_of_bytes
slot_bytes-slot_of_bytes [] l h = absurd (omega arith)
slot_bytes-slot_of_bytes (b ∷ bs) l h = ap (λ t. t ∷ bs) (omega arith)

pub word_bytes-host_value :
    (bs : List ℕ) → length bs ≡ 4 → All IsByte bs → word_bytes (host_value bs) ≡ bs
unfolding word_bytes host_value
word_bytes-host_value [] l h = absurd (omega arith)
word_bytes-host_value (a ∷ []) l h = absurd (omega arith)
word_bytes-host_value (a ∷ b ∷ []) l h = absurd (omega arith)
word_bytes-host_value (a ∷ b ∷ c ∷ []) l h = absurd (omega arith)
word_bytes-host_value (a ∷ b ∷ c ∷ d ∷ []) l h = ground arith
word_bytes-host_value (a ∷ b ∷ c ∷ d ∷ e ∷ bs) l h = absurd (omega arith)

pub host_value-lt : (bs : List ℕ) → length bs ≤ 4 → All IsByte bs → host_value bs < 2 ^ 32
unfolding host_value
host_value-lt [] l h = omega arith
host_value-lt (a ∷ []) l h = omega arith
host_value-lt (a ∷ b ∷ []) l h = omega arith
host_value-lt (a ∷ b ∷ c ∷ []) l h = omega arith
host_value-lt (a ∷ b ∷ c ∷ d ∷ []) l h = omega arith
host_value-lt (a ∷ b ∷ c ∷ d ∷ e ∷ bs) l h = absurd (omega arith)
