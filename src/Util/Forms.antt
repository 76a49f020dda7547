-- ===== src/Util/Forms.antt =====
-- The one-, two- and three-byte forms of UTF-8 that utf8_to_ucs2 of bub_util.c reads, against an
-- encoder of 16-bit values written from the UTF-8 tables.
use brillo_device_generic_br.Base.{
  ℕ, ◌+◌, ◌*◌, ◌/◌, ◌%◌, ◌^◌, ◌≤◌, ◌<◌, ◌≡◌, refl, ap, ◌∙◌, Bool, true, false, ◌&&◌, not, List, [],
  ◌∷◌, ◌++◌, some, arith, ◌==◌, ltb, leb, if◌then◌else◌, get_elem?, length, all_below,
  all_below_sound, bit_and, get_elem?-append, ◌⊎◌, inl, inr,
}
use brillo_device_generic_br.Base.Bits.{bit_or_fields}
use brillo_device_generic_br.Util.{unit, three_bytes, two_bytes, char_of_lead, char_at}

-- One, two or three bytes for a value below 2 ^ 16.
unfoldable pub encode : ℕ → List ℕ
encode c =
    if ltb c 0x80
    then c ∷ []
    else if ltb c 0x800
    then (0xc0 + c / 64) ∷ (0x80 + c % 64) ∷ []
    else (0xe0 + c / 4096) ∷ (0x80 + c / 64 % 64) ∷ (0x80 + c % 64) ∷ []

unfoldable pub encode_all : List ℕ → List ℕ
encode_all [] = []
encode_all (c ∷ cs) = encode c ++ encode_all cs

abbrev pub same : Bool → Bool → Bool
same true b = b
same false b = not b

pub eq_of_same : (a b : Bool) → same a b ≡ true → a ≡ b
eq_of_same a b h = ground arith

-- The three masks of the lead byte are ranges of its value.
abbrev pub lead_ranges : ℕ → Bool
lead_ranges a =
    same (bit_and a 0xf8 == 0xf0) (leb 240 a && ltb a 248)
    && same (bit_and a 0xf0 == 0xe0) (leb 224 a && ltb a 240)
    && same (bit_and a 0xe0 == 0xc0) (leb 192 a && ltb a 224)

pub lead_table : all_below 256 lead_ranges ≡ true
unfolding all_below
lead_table = refl

pub lead_masks :
    (a : ℕ)
    → a < 256
    → ((bit_and a 0xf8 == 0xf0) ≡ (leb 240 a && ltb a 248))
      × ((bit_and a 0xf0 == 0xe0) ≡ (leb 224 a && ltb a 240))
      × ((bit_and a 0xe0 == 0xc0) ≡ (leb 192 a && ltb a 224))
lead_masks a h = ground (arith, all_below_sound 256 lead_ranges a lead_table)

-- The masks of the parts keep the digits that the encoder wrote.
abbrev pub part_values : ℕ → Bool
part_values b =
    (bit_and (b * 64) 0x0fc0 == b % 64 * 64)
    && (bit_and b 0x003f == b % 64)
    && (bit_and (b * 64) 0x07c0 == b % 32 * 64)
    && (bit_and b 0x00ff == b)

pub part_table : all_below 256 part_values ≡ true
unfolding all_below
part_table = refl

pub part_masks :
    (b : ℕ)
    → b < 256
    → (bit_and (b * 64) 0x0fc0 ≡ b % 64 * 64)
      × (bit_and b 0x003f ≡ b % 64)
      × (bit_and (b * 64) 0x07c0 ≡ b % 32 * 64)
      × (bit_and b 0x00ff ≡ b)
part_masks b h = ground (arith, all_below_sound 256 part_values b part_table)

pub three_bytes_lem :
    (a b c : ℕ)
    → a < 256
    → b < 256
    → c < 256
    → three_bytes a b c ≡ a % 16 * 4096 + b % 64 * 64 + c % 64
unfolding three_bytes
three_bytes_lem a b c ha hb hc =
    rw (high, middle, low, bit_or_fields 12 (a % 16) (b % 64 * 64) (omega arith), regroup)
      (bit_or_fields 6 (a % 16 * 64 + b % 64) (c % 64) (omega arith) ∙ omega arith)
  where
    high : a * 2 ^ 12 % 2 ^ 16 ≡ a % 16 * 2 ^ 12
    high = omega arith

    middle : bit_and (b * 2 ^ 6) 0x0fc0 % 2 ^ 16 ≡ b % 64 * 64
    middle = omega (arith, (part_masks b hb).0)

    low : bit_and c 0x003f % 2 ^ 16 ≡ c % 64
    low = omega (arith, (part_masks c hc).1)

    regroup : a % 16 * 2 ^ 12 + b % 64 * 64 ≡ (a % 16 * 64 + b % 64) * 2 ^ 6
    regroup = omega arith

pub two_bytes_lem : (a b : ℕ) → a < 256 → b < 256 → two_bytes a b ≡ a % 32 * 64 + b % 64
unfolding two_bytes
two_bytes_lem a b ha hb = rw (high, low) (bit_or_fields 6 (a % 32) (b % 64) (omega arith))
  where
    high : bit_and (a * 2 ^ 6) 0x07c0 % 2 ^ 16 ≡ a % 32 * 2 ^ 6
    high = omega (arith, (part_masks a ha).2)

    low : bit_and b 0x003f % 2 ^ 16 ≡ b % 64
    low = omega (arith, (part_masks b hb).1)

-- Each form, at the head of what is left of the text.
module _ (d : List ℕ) (i c : ℕ) where
  pub one_byte : c < 0x80 → char_of_lead d i c ≡ unit c 1
  unfolding char_of_lead
  one_byte h = ground (arith, lead_masks c, part_masks c)

  pub two_byte :
      0x80 ≤ c
      → c < 0x800
      → get_elem? d ((i + 1) % 2 ^ 32) ≡ some (0x80 + c % 64)
      → char_of_lead d i (0xc0 + c / 64) ≡ unit c 2
  unfolding char_of_lead
  two_byte low high e =
      ground (arith, lead_masks (0xc0 + c / 64), two_bytes_lem (0xc0 + c / 64) (0x80 + c % 64))

  pub three_byte :
      0x800 ≤ c
      → c < 2 ^ 16
      → get_elem? d ((i + 1) % 2 ^ 32) ≡ some (0x80 + c / 64 % 64)
      → get_elem? d ((i + 2) % 2 ^ 32) ≡ some (0x80 + c % 64)
      → char_of_lead d i (0xe0 + c / 4096) ≡ unit c 3
  unfolding char_of_lead
  three_byte low high e f = ground (
    arith,
    lead_masks (0xe0 + c / 4096),
    three_bytes_lem (0xe0 + c / 4096) (0x80 + c / 64 % 64) (0x80 + c % 64),
  )

-- The byte at an offset behind a prefix, with the index in 32 bits.
pub get_behind :
    (pre rest : List ℕ) (j : ℕ)
    → length pre + j < 2 ^ 32
    → get_elem? (pre ++ rest) ((length pre + j) % 2 ^ 32) ≡ get_elem? rest j
get_behind pre rest j small =
    ap (get_elem? (pre ++ rest)) (omega arith) ∙ get_elem?-append pre rest (length pre) j refl

pub char_at_head :
    (pre rest : List ℕ) (a : ℕ)
    → length pre < 2 ^ 32
    → char_at (pre ++ (a ∷ rest)) (length pre) ≡ char_of_lead (pre ++ (a ∷ rest)) (length pre) a
unfolding char_at
char_at_head pre rest a small = rw head
  where
    head : get_elem? (pre ++ (a ∷ rest)) (length pre) ≡ some a
    head =
        ap (get_elem? (pre ++ (a ∷ rest))) (omega arith)
        ∙ get_elem?-append pre (a ∷ rest) (length pre) 0 refl

pub encode_one : (c : ℕ) → c < 0x80 → encode c ≡ c ∷ []
unfolding encode
encode_one c h = ground arith

pub encode_two : (c : ℕ) → 0x80 ≤ c → c < 0x800 → encode c ≡ (0xc0 + c / 64) ∷ (0x80 + c % 64) ∷ []
unfolding encode
encode_two c low high = ground arith

pub encode_three :
    (c : ℕ) → 0x800 ≤ c → encode c ≡ (0xe0 + c / 4096) ∷ (0x80 + c / 64 % 64) ∷ (0x80 + c % 64) ∷ []
unfolding encode
encode_three c low = ground arith

pub forms-cases : (c : ℕ) → (c < 0x80) ⊎ ((0x80 ≤ c) × (c < 0x800)) ⊎ (0x800 ≤ c)
forms-cases c = omega arith

-- Wherever an encoded value stands, the function reads that value and its length.
pub char_at-encode :
    (pre rest : List ℕ) (c : ℕ)
    → length pre + 3 < 2 ^ 32
    → c < 2 ^ 16
    → char_at (pre ++ (encode c ++ rest)) (length pre) ≡ unit c (length (encode c))
char_at-encode pre rest c small h = elim (forms-cases c) [
  | inl low ↦
      rw (encode_one c low)
        (char_at_head pre rest c (omega arith) ∙ one_byte (pre ++ (c ∷ rest)) (length pre) c low)
  | inr (inl (low, high)) ↦ rw (encode_two c low high) (
      char_at_head pre ((0x80 + c % 64) ∷ rest) (0xc0 + c / 64) (omega arith)
      ∙ two_byte _ (length pre) c low high (get_behind pre _ 1 (omega arith)))
  | inr (inr low) ↦ rw (encode_three c low) (
      char_at_head pre ((0x80 + c / 64 % 64) ∷ (0x80 + c % 64) ∷ rest) (0xe0 + c / 4096)
        (omega arith)
      ∙ three_byte _ (length pre) c low h (get_behind pre _ 1 (omega arith))
          (get_behind pre _ 2 (omega arith)))
]
