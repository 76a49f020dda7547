-- ===== src/AudioTest/MediaPlayback/Fits.antt =====
-- The buffers that LibmediaPlayback fills (libmedia_playback.cpp).
use brillo_device_generic_br.Base.{
  ◌<◌, ◌^◌, true, lt→ltb, not_zero_of_pos, ℕ, ◌*◌, ◌/◌, ◌≡◌, ◌≤◌, ◌⊎◌, inl, inr, refl, ◌∙◌, none,
  some, List, [], length, arith, Bool-cases, ltb, take, length-take,
}
use brillo_device_generic_br.AudioTest.Formats.{
  AudioFormat, pcm_8_bit, pcm_16_bit, pcm_32_bit, invalid, SizeLaws,
}
use brillo_device_generic_br.AudioTest.MediaPlayback.{
  LibmediaPlayback, Player, Filled, filled, is_int, narrow, read_frames, fill_from_file,
  fill_from_sine, fill_buffer,
}

-- A file with so many channels: a read gives the frames that are asked for at most, with two or
-- four bytes for each sample; the conversion to single bytes writes one byte for each sample.
pub record PlayerLaws {S : Type 0} (player : Player S) (channels : ℕ) : Type 0 where
  pub sizes : SizeLaws player.audio_bytes_per_sample
  pub shorts_at_most : (file n : ℕ) (s : S) → (player.sf_readf_short file n s).0.0 ≤ n
  pub shorts_bytes :
      (file n : ℕ) (s : S)
      → let (frames_read, bytes) = (player.sf_readf_short file n s).0 in
        length bytes ≡ frames_read * (2 * channels)
  pub ints_at_most : (file n : ℕ) (s : S) → (player.sf_readf_int file n s).0.0 ≤ n
  pub ints_bytes :
      (file n : ℕ) (s : S)
      → let (frames_read, bytes) = (player.sf_readf_int file n s).0 in
        length bytes ≡ frames_read * (4 * channels)
  pub narrowed :
      (temp : List ℕ) (n : ℕ)
      → 2 * n ≤ length temp
      → length (player.memcpy_to_u8_from_i16 temp n) ≡ n

-- So many bytes were written as are returned, and no more than there is room for.
abbrev pub Fits : ℕ → Filled → Type 0
Fits size r = (n : ℕ) × (bytes : List ℕ) × (r ≡ filled n bytes) × (length bytes ≡ n) × (n ≤ size)

whole : (size frame n : ℕ) → 1 ≤ frame → n ≤ size / frame → frame * n ≤ size
whole size frame n h k = grind arith

product_is_int :
    (size frame n : ℕ) → 1 ≤ frame → n ≤ size / frame → size < 2 ^ 31 → is_int (frame * n) ≡ true
product_is_int size frame n h k below = lt→ltb _ _ (omega (arith, whole size frame n h k))

frame_is_int : (n : ℕ) → n < 2 ^ 31 → is_int n ≡ true
frame_is_int n h = lt→ltb n (2 ^ 31) h

swap : (a b : ℕ) → a * b ≡ b * a
swap a b = grind arith

div_one : (n : ℕ) → n / 1 ≡ n
div_one n = omega arith

double : (n c : ℕ) → 2 * (n * (1 * c)) ≤ n * (2 * c)
double n c = grind arith

module _ {S : Type 0} (player : Player S) where
  read_frames-Fits :
      (size frame_size : ℕ) (r : (ℕ × List ℕ) × S)
      → 1 ≤ frame_size
      → r.0.0 ≤ size / frame_size
      → length r.0.1 ≡ r.0.0 * frame_size
      → size < 2 ^ 31
      → Fits size (read_frames player frame_size r).0
  unfolding read_frames
  read_frames-Fits size frame_size ((frames, bytes), s) h k l below =
      rw (read_frames, product_is_int size frame_size frames h k below)
        (
          frame_size * frames,
          bytes,
          refl,
          l ∙ swap frames frame_size,
          whole size frame_size frames h k,
        )

  narrow-Fits :
      (channels size : ℕ) (r : (ℕ × List ℕ) × S)
      → PlayerLaws player channels
      → 1 ≤ 1 * channels
      → r.0.0 ≤ size / (1 * channels)
      → length r.0.1 ≡ r.0.0 * (2 * channels)
      → size < 2 ^ 31
      → Fits size (narrow player (1 * channels) 1 r).0
  unfolding narrow
  narrow-Fits channels size ((frames, temp), s) laws h k l below =
      rw (narrow, product_is_int size (1 * channels) frames h k below)
        (
          1 * channels * frames,
          _,
          refl,
          laws.narrowed temp (frames * (1 * channels) / 1)
                (rw (div_one (frames * (1 * channels)), l) (double frames channels))
              ∙ div_one (frames * (1 * channels))
              ∙ swap frames (1 * channels),
          whole size (1 * channels) frames h k,
        )

  fill_from_file-Fits :
      (playback : LibmediaPlayback) (file size : ℕ) (s : S)
      → PlayerLaws player playback.num_channels
      → 1 ≤ playback.num_channels
      → playback.num_channels < 2 ^ 29
      → size < 2 ^ 31
      → (format : AudioFormat) → playback.audio_format ≡ format
      → Fits size (fill_from_file player playback file size s).0
  unfolding fill_from_file
  fill_from_file-Fits playback file size s laws h few below pcm_8_bit e =
      rw
        (
          fill_from_file,
          e,
          laws.sizes.size_8_bit,
          frame_is_int (1 * playback.num_channels) (omega arith),
          not_zero_of_pos (1 * playback.num_channels) (omega arith),
        )
        (narrow-Fits playback.num_channels size
          (player.sf_readf_short file (size / (1 * playback.num_channels)) s) laws (omega arith)
          (laws.shorts_at_most file _ s) (laws.shorts_bytes file _ s) below)
  fill_from_file-Fits playback file size s laws h few below pcm_16_bit e =
      rw
        (
          fill_from_file,
          e,
          laws.sizes.size_16_bit,
          frame_is_int (2 * playback.num_channels) (omega arith),
          not_zero_of_pos (2 * playback.num_channels) (omega arith),
        )
        (read_frames-Fits size (2 * playback.num_channels)
          (player.sf_readf_short file (size / (2 * playback.num_channels)) s) (omega arith)
          (laws.shorts_at_most file _ s) (laws.shorts_bytes file _ s) below)
  fill_from_file-Fits playback file size s laws h few below pcm_32_bit e =
      rw
        (
          fill_from_file,
          e,
          laws.sizes.size_32_bit,
          frame_is_int (4 * playback.num_channels) (omega arith),
          not_zero_of_pos (4 * playback.num_channels) (omega arith),
        )
        (read_frames-Fits size (4 * playback.num_channels)
          (player.sf_readf_int file (size / (4 * playback.num_channels)) s) (omega arith)
          (laws.ints_at_most file _ s) (laws.ints_bytes file _ s) below)
  fill_from_file-Fits playback file size s laws h few below invalid e =
      rw
        (
          fill_from_file,
          e,
          laws.sizes.size_invalid,
          frame_is_int (0 * playback.num_channels) (omega arith),
        )
        (0, [], refl, refl, omega arith)

  fill_from_sine-Fits :
      (bytes : List ℕ) (size : ℕ) (s : S) → Fits size (fill_from_sine player (some bytes) size s).0
  unfolding fill_from_sine
  fill_from_sine-Fits bytes size s = elim (Bool-cases (ltb size (length bytes))) [
    | inl less ↦
        rw (fill_from_sine, less)
          (size, take size bytes, refl, length-take size bytes ∙ ground arith, omega arith)
    | inr more ↦
        rw (fill_from_sine, more)
          (
            length bytes,
            take (length bytes) bytes,
            refl,
            length-take (length bytes) bytes ∙ ground arith,
            ground arith,
          )
  ]

  -- A playback that was set up: with a file that was opened, or with a sine buffer.
  abbrev pub IsSetUp : LibmediaPlayback → Type 0
  IsSetUp playback =
      ((file : ℕ) × (playback.in_file ≡ some file))
      ⊎ ((playback.in_file ≡ none) × ((bytes : List ℕ) × (playback.sine_data_buffer ≡ some bytes)))

  -- With a file that was opened, or a sine buffer that was set, at least one and fewer than 2 ^ 29
  -- channels, the documented sizes of the formats, reads that give the frames that are asked for at
  -- most, with two or four bytes for each sample, a conversion that writes a byte for each sample,
  -- and a buffer of fewer than 2 ^ 31 bytes, FillBuffer writes exactly the bytes that it returns,
  -- for each format, and never more than the buffer has room for; no int overflows on the way.
  pub fill_buffer-Fits :
      (playback : LibmediaPlayback)
      → PlayerLaws player playback.num_channels
      → 1 ≤ playback.num_channels
      → playback.num_channels < 2 ^ 29
      → IsSetUp playback
      → (size : ℕ) (s : S) → size < 2 ^ 31
      → Fits size (fill_buffer player playback size s).0
  unfolding fill_buffer
  fill_buffer-Fits playback laws h few (inl (file, e)) size s below =
      rw (fill_buffer, e) (fill_from_file-Fits playback file size s laws h few below _ refl)
  fill_buffer-Fits playback laws h few (inr (e, (bytes, f))) size s below =
      rw (fill_buffer, e, f) (fill_from_sine-Fits bytes size s)
