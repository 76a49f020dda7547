-- ===== src/Examples/Codec.antt =====
-- Checksums, byte orders, texts and the layout at concrete values.
use brillo_device_generic_br.Base.{
  ℕ, ◌+◌, ◌<◌, ◌^◌, ◌≡◌, ◌≢◌, refl, List, [], ◌∷◌, ◌++◌, arith, length, ap, All, IsByte, bit_xor,
  get_or,
}
use brillo_device_generic_br.Crc32.{all_ones, bub_crc32}
use brillo_device_generic_br.Crc32.Serial.{serial, bub_crc32-serial}
use brillo_device_generic_br.Crc32.Detect.{bub_crc32-window}
use brillo_device_generic_br.Util.{converted, utf8_to_ucs2}
use brillo_device_generic_br.Util.Encode.{utf8_to_ucs2-encode_all}
use brillo_device_generic_br.Util.Forms.{encode, encode_all}

-- "misc"
abbrev misc : List ℕ
misc = b'm' ∷ b'i' ∷ b's' ∷ b'c' ∷ []

misc-IsByte : All IsByte misc
misc-IsByte = omega arith

bub_crc32-serial_example : bub_crc32 0 misc ≡ bit_xor (serial (bit_xor 0 all_ones) misc) all_ones
bub_crc32-serial_example = bub_crc32-serial 0 misc misc-IsByte

bub_crc32-window_example :
    bub_crc32 0 (misc ++ (1 ∷ 2 ∷ []) ++ misc) ≢ bub_crc32 0 (misc ++ (2 ∷ 1 ∷ []) ++ misc)
bub_crc32-window_example =
    bub_crc32-window 0 misc (1 ∷ 2 ∷ []) (2 ∷ 1 ∷ []) misc (omega arith) refl (omega arith)
      misc-IsByte (omega arith) (omega arith) misc-IsByte (λ e. one_two (ap (λ t. get_or t 0 0) e))
  where
    one_two : ◌≢◌ {A = ℕ} 1 2
    one_two e = omega arith

encoded_size : length (encode_all (0xe9 ∷ 0x20ac ∷ [])) + 4 < 2 ^ 32
unfolding encode_all encode
encoded_size = omega arith

-- U+00E9 and U+20AC in UTF-8, into three units.
utf8_to_ucs2-encode_all_example :
    utf8_to_ucs2
      (encode_all (0xe9 ∷ 0x20ac ∷ []) ++ (0 ∷ []))
      (length (encode_all (0xe9 ∷ 0x20ac ∷ [])) + 1)
      (0 ∷ 0 ∷ 0 ∷ [])
      6
    ≡ converted (0xe9 ∷ 0x20ac ∷ 0 ∷ [])
utf8_to_ucs2-encode_all_example =
    utf8_to_ucs2-encode_all 0xe9 (0x20ac ∷ []) (0 ∷ 0 ∷ 0 ∷ []) 6 (omega arith, (omega arith, tt))
      encoded_size (omega arith)
