-- ===== src/Gpt/Header.antt =====
-- validate_gpt of bub_boot_kernel.c: which blocks it accepts, and that a header whose checksum was
-- stored is one of them.
use brillo_device_generic_br.Base.{
  ap₂, if◌then◌else◌, drop-drop, ℕ, ◌+◌, ◌^◌, ◌≤◌, ◌<◌, ◌≡◌, ◌↔◌, refl, ap, sym, ◌∙◌, Bool, true,
  false, not, List, ◌∷◌, ◌++◌, ◌==◌, ==_iff, take, drop, length, arith, bytes_eq, bytes_eq_refl,
  eq_of_bytes_eq, ltb, length-take, length-drop, length-append, drop-append, take-append_le,
  take-append-drop, drop-append_le, take-append,
}
use brillo_device_generic_br.Util.{host_value}
use brillo_device_generic_br.AbData.{word_bytes}
use brillo_device_generic_br.AbData.Stored.{host_value-word_bytes, length-word_bytes}
use brillo_device_generic_br.Gpt.{
  EfiLib, EfiStatus, efi_success, efi_not_found, gpt_magic, signature, revision, header_size,
  header_crc32, without_crc, validate_gpt,
}

-- What a header is: the signature, a size between 92 and one block, the checksum of so many bytes
-- of the header with the checksum's own field zero, and revision 1.0.
pub record IsGptHeader (lib : EfiLib) (gpth : List ℕ) : Type 0 where
  pub signed : signature gpth ≡ gpt_magic
  pub size_least : 92 ≤ header_size gpth
  pub size_most : header_size gpth ≤ 512
  pub checksum : header_crc32 gpth ≡ lib.calculate_crc (take (header_size gpth) (without_crc gpth))
  pub revised : revision gpth ≡ 0x00010000

-- Words at an offset that lies in the first of two pieces.
word_in_first :
    (n k : ℕ) (xs ys : List ℕ) → n + k ≤ length xs → take k (drop n (xs ++ ys)) ≡ take k (drop n xs)
word_in_first n k xs ys h =
    ap (take k) (drop-append_le n xs ys (omega arith))
    ∙ take-append_le k (drop n xs) ys (omega (arith, length-drop n xs))

word_in_take :
    (n k m : ℕ) (xs : List ℕ)
    → n + k ≤ m
    → m ≤ length xs
    → take k (drop n (take m xs)) ≡ take k (drop n xs)
word_in_take n k m xs h room =
    sym (word_in_first n k (take m xs) (drop m xs) (omega (arith, length-take m xs)))
    ∙ ap (λ t. take k (drop n t)) (take-append-drop m xs)

header_size-without_crc :
    (gpth : List ℕ) → length gpth ≡ 512 → header_size (without_crc gpth) ≡ header_size gpth
unfolding header_size without_crc
header_size-without_crc gpth h = ap host_value (
    word_in_first 12 4 (take 16 gpth) _ (omega (arith, length-take 16 gpth))
    ∙ word_in_take 12 4 16 gpth (omega arith) (omega arith))

abbrev verdict : Bool → Bool → Bool → Bool → Bool → EfiStatus
verdict signed small big summed revised =
    if not signed
    then efi_not_found
    else if small
    then efi_not_found
    else if big
    then efi_not_found
    else if not summed
    then efi_not_found
    else if not revised
    then efi_not_found
    else efi_success

verdict_lem :
    (signed small big summed revised : Bool)
    → (verdict signed small big summed revised ≡ efi_success)
      ↔ ((signed ≡ true) × (small ≡ false) × (big ≡ false) × (summed ≡ true) × (revised ≡ true))
verdict_lem signed small big summed revised = ground arith

not_below : (m n : ℕ) → (ltb m n ≡ false) ↔ (n ≤ m)
not_below m n = ground arith

module _ (lib : EfiLib) (gpth : List ℕ) where
  -- The checksum that the code computes.
  abbrev computed_crc : ℕ
  computed_crc = lib.calculate_crc (take (header_size (without_crc gpth)) (without_crc gpth))

  computed_crc_lem :
      length gpth ≡ 512
      → computed_crc ≡ lib.calculate_crc (take (header_size gpth) (without_crc gpth))
  computed_crc_lem h =
      ap (λ n. lib.calculate_crc (take n (without_crc gpth))) (header_size-without_crc gpth h)

  abbrev tests : EfiStatus
  tests =
      verdict (bytes_eq (signature gpth) gpt_magic) (ltb (header_size gpth) 92)
        (ltb 512 (header_size gpth)) (header_crc32 gpth == computed_crc)
        (revision gpth == 0x00010000)

  validate_gpt-tests : validate_gpt lib gpth ≡ tests
  unfolding validate_gpt
  validate_gpt-tests = refl

  tests-IsGptHeader : length gpth ≡ 512 → (tests ≡ efi_success) ↔ IsGptHeader lib gpth
  tests-IsGptHeader h = (accepted, header)
    where
      accepted : tests ≡ efi_success → IsGptHeader lib gpth
      accepted e =
          let (a, b, c, d, f) = (verdict_lem _ _ _ _ _).0 e in
          record {
            signed = eq_of_bytes_eq (signature gpth) gpt_magic a;
            size_least = (not_below _ _).0 b;
            size_most = (not_below _ _).0 c;
            checksum = (==_iff _ _).0 d ∙ computed_crc_lem h;
            revised = (==_iff _ _).0 f;
          }

      header : IsGptHeader lib gpth → tests ≡ efi_success
      header g = (verdict_lem _ _ _ _ _).1 (
        rw g.signed (bytes_eq_refl gpt_magic),
        (not_below _ _).1 g.size_least,
        (not_below _ _).1 g.size_most,
        (==_iff _ _).1 (g.checksum ∙ sym (computed_crc_lem h)),
        (==_iff _ _).1 g.revised,
      )

-- A block of 512 bytes is accepted exactly when it is a header with the signature, a size between
-- 92 and 512, the revision, and the checksum of its first bytes, up to that size, with the field
-- of the checksum zero.
pub validate_gpt-IsGptHeader :
    (lib : EfiLib) (gpth : List ℕ)
    → length gpth ≡ 512
    → (validate_gpt lib gpth ≡ efi_success) ↔ IsGptHeader lib gpth
validate_gpt-IsGptHeader lib gpth h = (
  λ e. (tests-IsGptHeader lib gpth h).0 (sym (validate_gpt-tests lib gpth) ∙ e),
  λ g. validate_gpt-tests lib gpth ∙ (tests-IsGptHeader lib gpth h).1 g,
)

-- A header whose checksum is stored in its field.
abbrev pub with_crc : EfiLib → List ℕ → List ℕ
with_crc lib gpth =
    take 16 gpth
    ++ (word_bytes (lib.calculate_crc (take (header_size gpth) (without_crc gpth))) ++ drop 20 gpth)

module _ (lib : EfiLib) (gpth : List ℕ) (h : length gpth ≡ 512) where
  abbrev behind : List ℕ
  behind =
      word_bytes (lib.calculate_crc (take (header_size gpth) (without_crc gpth))) ++ drop 20 gpth

  first16 : length (take 16 gpth) ≡ 16
  first16 = omega (arith, length-take 16 gpth)

  word_kept : (n k : ℕ) → n + k ≤ 16 → take k (drop n (with_crc lib gpth)) ≡ take k (drop n gpth)
  word_kept n k inside =
      word_in_first n k (take 16 gpth) behind (omega (arith, first16))
      ∙ word_in_take n k 16 gpth inside (omega arith)

  behind_crc : drop 20 (with_crc lib gpth) ≡ drop 20 gpth
  behind_crc =
      sym (drop-drop 16 4 (with_crc lib gpth))
      ∙ ap (drop 4) (drop-append (take 16 gpth) behind 16 first16)
      ∙ drop-append (word_bytes _) (drop 20 gpth) 4 (length-word_bytes _)

  without_crc-with_crc : without_crc (with_crc lib gpth) ≡ without_crc gpth
  unfolding without_crc
  without_crc-with_crc =
      ap₂ (λ a b. a ++ (0 ∷ 0 ∷ 0 ∷ 0 ∷ b)) (take-append (take 16 gpth) behind 16 first16)
        behind_crc

  header_size-with_crc : header_size (with_crc lib gpth) ≡ header_size gpth
  unfolding header_size
  header_size-with_crc = ap host_value (word_kept 12 4 (omega arith))

  header_crc32-with_crc :
      lib.calculate_crc (take (header_size gpth) (without_crc gpth)) < 2 ^ 32
      → header_crc32 (with_crc lib gpth)
        ≡ lib.calculate_crc (take (header_size gpth) (without_crc gpth))
  unfolding header_crc32
  header_crc32-with_crc small =
      ap (λ t. host_value (take 4 t)) (drop-append (take 16 gpth) behind 16 first16)
      ∙ ap host_value (take-append (word_bytes _) (drop 20 gpth) 4 (length-word_bytes _))
      ∙ host_value-word_bytes _ small

  length-with_crc : length (with_crc lib gpth) ≡ 512
  length-with_crc = omega (
    arith,
    length-append (take 16 gpth) behind,
    first16,
    length-drop 20 gpth,
    length-append (word_bytes crc) (drop 20 gpth),
    length-word_bytes crc,
  )
    where
      crc : ℕ
      crc = lib.calculate_crc (take (header_size gpth) (without_crc gpth))

  -- A block of 512 bytes with the signature, a size in the range and the revision is accepted once
  -- the checksum of its first bytes, computed with the field of the checksum zero, is stored in
  -- that field.
  pub validate_gpt-with_crc :
      signature gpth ≡ gpt_magic
      → 92 ≤ header_size gpth
      → header_size gpth ≤ 512
      → revision gpth ≡ 0x00010000
      → lib.calculate_crc (take (header_size gpth) (without_crc gpth)) < 2 ^ 32
      → validate_gpt lib (with_crc lib gpth) ≡ efi_success
  unfolding signature revision
  validate_gpt-with_crc signed least most revised small =
      (validate_gpt-IsGptHeader lib (with_crc lib gpth) length-with_crc).1 (record {
        signed = word_kept 0 8 (omega arith) ∙ signed;
        size_least = rw header_size-with_crc least;
        size_most = rw header_size-with_crc most;
        checksum =
            header_crc32-with_crc small
            ∙ ap₂ (λ n t. lib.calculate_crc (take n t)) (sym header_size-with_crc)
                (sym without_crc-with_crc);
        revised = ap host_value (word_kept 8 4 (omega arith)) ∙ revised;
      })
