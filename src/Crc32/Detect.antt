-- ===== src/Crc32/Detect.antt =====
-- What the checksum of bub_crc32.c detects: the register is never lost, so two messages that differ
-- in a window of at most four bytes have different checksums.
use native.Mathlib.Nat.{mul_comm}
use brillo_device_generic_br.Base.{
  ℕ, zero, suc, ◌+◌, ◌*◌, ◌/◌, ◌%◌, ◌^◌, ◌≤◌, ◌<◌, ◌≡◌, ◌≢◌, refl, sym, ap, ap₂, ◌∙◌, List, [], ◌∷◌,
  ◌++◌, arith, length, All, All-append, IsByte, bit_xor, ◌⊎◌,
}
use brillo_device_generic_br.Base.Bits.{
  bit_xor_assoc, bit_xor_comm, bit_xor-shift, bit_xor-lt, bit_xor_fields, bit_xor-injective_left,
  bit_xor-injective_right, xor-zero,
}
use brillo_device_generic_br.Crc32.{all_ones, bub_crc32}
use brillo_device_generic_br.Crc32.Serial.{
  polynomial, shift_bit, shift_bits, serial, shift_bits-xor, bub_crc32-serial,
}

abbrev pub IsWord : ℕ → Type 0
IsWord c = c < 2 ^ 32

shift_bit-IsWord : (c : ℕ) → IsWord c → IsWord (shift_bit c)
unfolding shift_bit
shift_bit-IsWord c h = ground (arith, bit_xor-lt 32 (c / 2) polynomial)

-- The feedback term sets the top bit, so it shows which bit fell out.
odd_high : (c : ℕ) → IsWord c → c % 2 ≡ 1 → shift_bit c / 2 ^ 31 ≡ 1
unfolding shift_bit
odd_high c h o =
    let low : c / 2 / 2 ^ 31 ≡ 0 = omega arith in
    ground
      (arith, bit_xor-shift 31 (c / 2) polynomial, ap (λ t. bit_xor t (polynomial / 2 ^ 31)) low)

even_high : (c : ℕ) → IsWord c → c % 2 ≡ 0 → shift_bit c / 2 ^ 31 ≡ 0
unfolding shift_bit
even_high c h o = ground arith

parity-cases : (c : ℕ) → (c % 2 ≡ 0) ⊎ (c % 2 ≡ 1)
parity-cases c = omega arith

shift_bit-injective : (c d : ℕ) → IsWord c → IsWord d → shift_bit c ≡ shift_bit d → c ≡ d
unfolding shift_bit
shift_bit-injective c d hc hd e = ground (
  arith,
  parity-cases c,
  parity-cases d,
  odd_high c hc,
  odd_high d hd,
  even_high c hc,
  even_high d hd,
  bit_xor-injective_left (c / 2) (d / 2) polynomial,
)

shift_bits-IsWord : (n c : ℕ) → IsWord c → IsWord (shift_bits n c)
unfolding shift_bits
shift_bits-IsWord zero c h = h
shift_bits-IsWord (suc n) c h = shift_bits-IsWord n (shift_bit c) (shift_bit-IsWord c h)

shift_bits-injective : (n c d : ℕ) → IsWord c → IsWord d → shift_bits n c ≡ shift_bits n d → c ≡ d
unfolding shift_bits
shift_bits-injective zero c d hc hd e = e
shift_bits-injective (suc n) c d hc hd e = shift_bit-injective c d hc hd (
    shift_bits-injective n (shift_bit c) (shift_bit d) (shift_bit-IsWord c hc)
      (shift_bit-IsWord d hd) e)

IsWord-of_IsByte : (b : ℕ) → IsByte b → IsWord b
IsWord-of_IsByte b h = omega arith

serial-IsWord : (c : ℕ) (p : List ℕ) → IsWord c → All IsByte p → IsWord (serial c p)
unfolding serial
serial-IsWord c [] h bs = h
serial-IsWord c (b ∷ p) h bs =
    serial-IsWord (shift_bits 8 (bit_xor c b)) p
      (shift_bits-IsWord 8 (bit_xor c b) (bit_xor-lt 32 c b h (IsWord-of_IsByte b bs.0))) bs.1

-- No byte makes two registers equal.
serial-injective :
    (c d : ℕ) (p : List ℕ) → IsWord c → IsWord d → All IsByte p → serial c p ≡ serial d p → c ≡ d
unfolding serial
serial-injective c d [] hc hd bs e = e
serial-injective c d (b ∷ p) hc hd bs e =
    let wc = bit_xor-lt 32 c b hc (IsWord-of_IsByte b bs.0) in
    let wd = bit_xor-lt 32 d b hd (IsWord-of_IsByte b bs.0) in
    bit_xor-injective_left c d b (
      shift_bits-injective 8 (bit_xor c b) (bit_xor d b) wc wd (
        serial-injective (shift_bits 8 (bit_xor c b)) (shift_bits 8 (bit_xor d b)) p
          (shift_bits-IsWord 8 (bit_xor c b) wc) (shift_bits-IsWord 8 (bit_xor d b) wd) bs.1 e))

serial-append : (c : ℕ) (xs ys : List ℕ) → serial c (xs ++ ys) ≡ serial (serial c xs) ys
unfolding serial
serial-append c [] ys = refl
serial-append c (x ∷ xs) ys = serial-append (shift_bits 8 (bit_xor c x)) xs ys

-- The bytes of a window as one number, the first byte lowest.
word : List ℕ → ℕ
word [] = 0
word (b ∷ w) = 2 ^ 8 * word w + b

shift_bytes : ℕ → ℕ → ℕ
shift_bytes zero c = c
shift_bytes (suc n) c = shift_bytes n (shift_bits 8 c)

-- A window enters the register at once.
serial-word :
    (c : ℕ) (w : List ℕ) → All IsByte w → serial c w ≡ shift_bytes (length w) (bit_xor c (word w))
unfolding serial word shift_bytes
serial-word c [] h = sym (xor-zero c)
serial-word c (b ∷ w) h =
    serial-word (shift_bits 8 (bit_xor c b)) w h.1
    ∙ ap (shift_bytes (length w)) (
        bit_xor_comm _ (word w)
        ∙ sym (shift_bits-xor 8 (word w) (bit_xor c b))
        ∙ ap (shift_bits 8) regroup)
  where
    regroup : bit_xor (2 ^ 8 * word w) (bit_xor c b) ≡ bit_xor c (2 ^ 8 * word w + b)
    regroup =
        ap (bit_xor (2 ^ 8 * word w)) (bit_xor_comm c b)
        ∙ sym (bit_xor_assoc (2 ^ 8 * word w) b c)
        ∙ bit_xor_comm (bit_xor (2 ^ 8 * word w) b) c
        ∙ ap (bit_xor c) (
            omega (
              arith,
              bit_xor_fields 8 (word w) b h.0,
              ap (λ t. bit_xor t b) (mul_comm (2 ^ 8) (word w)),
            ))

shift_bytes-injective :
    (n c d : ℕ) → IsWord c → IsWord d → shift_bytes n c ≡ shift_bytes n d → c ≡ d
unfolding shift_bytes
shift_bytes-injective zero c d hc hd e = e
shift_bytes-injective (suc n) c d hc hd e = shift_bits-injective 8 c d hc hd (
    shift_bytes-injective n (shift_bits 8 c) (shift_bits 8 d) (shift_bits-IsWord 8 c hc)
      (shift_bits-IsWord 8 d hd) e)

word-injective :
    (v w : List ℕ) → length v ≡ length w → All IsByte v → All IsByte w → word v ≡ word w → v ≡ w
unfolding word
word-injective [] [] l hv hw e = refl
word-injective [] (y ∷ w) l hv hw e = absurd (omega arith)
word-injective (x ∷ v) [] l hv hw e = absurd (omega arith)
word-injective (x ∷ v) (y ∷ w) l hv hw e =
    ap₂ ◌∷◌ (omega arith) (word-injective v w (omega arith) hv.1 hw.1 (omega arith))

word-IsWord : (w : List ℕ) → length w ≤ 4 → All IsByte w → IsWord (word w)
unfolding word
word-IsWord [] l h = omega arith
word-IsWord (a ∷ []) l h = omega arith
word-IsWord (a ∷ b ∷ []) l h = omega arith
word-IsWord (a ∷ b ∷ c ∷ []) l h = omega arith
word-IsWord (a ∷ b ∷ c ∷ d ∷ []) l h = omega arith
word-IsWord (a ∷ b ∷ c ∷ d ∷ e ∷ w) l h = absurd (omega arith)

window-injective :
    (c : ℕ) (v w : List ℕ)
    → IsWord c
    → length v ≡ length w
    → length v ≤ 4
    → All IsByte v
    → All IsByte w
    → serial c v ≡ serial c w
    → v ≡ w
window-injective c v w hc l short hv hw e =
    let wv = word-IsWord v short hv in
    let ww = word-IsWord w (omega arith) hw in
    word-injective v w l hv hw (
      bit_xor-injective_right (word v) (word w) c (
        shift_bytes-injective (length v) (bit_xor c (word v)) (bit_xor c (word w))
          (bit_xor-lt 32 c (word v) hc wv) (bit_xor-lt 32 c (word w) hc ww)
          (sym (serial-word c v hv)
            ∙ e
            ∙ serial-word c w hw
            ∙ ap (λ n. shift_bytes n (bit_xor c (word w))) (sym l))))

-- Two messages of bytes that differ only inside a window of at most four bytes have different
-- checksums, for every initial value of 32 bits.
pub bub_crc32-window :
    (crc_in : ℕ) (pre old new post : List ℕ)
    → IsWord crc_in
    → length old ≡ length new
    → length old ≤ 4
    → All IsByte pre
    → All IsByte old
    → All IsByte new
    → All IsByte post
    → old ≢ new
    → bub_crc32 crc_in (pre ++ old ++ post) ≢ bub_crc32 crc_in (pre ++ new ++ post)
bub_crc32-window crc_in pre old new post hc l short hpre hold hnew hpost ne e =
    ne (window-injective s old new hs l short hold hnew inside)
  where
    c : ℕ
    c = bit_xor crc_in all_ones

    hc' : IsWord c
    hc' = bit_xor-lt 32 crc_in all_ones hc (omega arith)

    s : ℕ
    s = serial c pre

    hs : IsWord s
    hs = serial-IsWord c pre hc' hpre

    split : (w : List ℕ) → serial c (pre ++ w ++ post) ≡ serial (serial s w) post
    split w = serial-append c (pre ++ w) post ∙ ap (λ t. serial t post) (serial-append c pre w)

    whole : (w : List ℕ) → All IsByte w → All IsByte (pre ++ w ++ post)
    whole w hw = All-append IsByte (pre ++ w) post (All-append IsByte pre w hpre hw) hpost

    inside : serial s old ≡ serial s new
    inside =
        serial-injective (serial s old) (serial s new) post (serial-IsWord s old hs hold)
          (serial-IsWord s new hs hnew) hpost
          (sym (split old)
            ∙ bit_xor-injective_left _ _ all_ones (
                sym (bub_crc32-serial crc_in (pre ++ old ++ post) (whole old hold))
                ∙ e
                ∙ bub_crc32-serial crc_in (pre ++ new ++ post) (whole new hnew))
            ∙ split new)

-- The checksum of bytes is a word.
pub bub_crc32-IsWord :
    (crc_in : ℕ) (buf : List ℕ) → IsWord crc_in → All IsByte buf → IsWord (bub_crc32 crc_in buf)
bub_crc32-IsWord crc_in buf hc h = rw (bub_crc32-serial crc_in buf h) (
    bit_xor-lt 32 (serial (bit_xor crc_in all_ones) buf) all_ones
      (serial-IsWord (bit_xor crc_in all_ones) buf (bit_xor-lt 32 crc_in all_ones hc (omega arith))
        h)
      (omega arith))
