-- ===== src/AudioTest/MediaRecord/Outcome.antt =====
-- How LibmediaRecord::Record (libmedia_record.cpp) ends, and what it writes.
use brillo_device_generic_br.Base.{
  not_zero_of_pos, ℕ, zero, suc, ◌*◌, ◌/◌, ◌%◌, ◌^◌, ◌≡◌, ◌≢◌, ◌≤◌, ◌<◌, ◌⊎◌, inl, inr, refl, ap,
  ◌∙◌, Option, none, some, List, ◌++◌, length, arith, Bool-cases, ◌==◌, ◌&&◌, ltb,
}
use brillo_device_generic_br.Base.Int.{ℤ, pos, negsuc}
use brillo_device_generic_br.AudioTest.Formats.{
  AudioFormat, pcm_8_bit, pcm_16_bit, pcm_32_bit, invalid, SizeLaws, convert_to_snd_file_format,
}
use brillo_device_generic_br.AudioTest.MediaRecord.{
  RecordEvent, SoundFile, Recorder, RecordEnd, returned, aborted, record_events, bytes_per_frame,
  after_write, write_file, after_file, save_with, save, after_start, after_create, with_buffers,
  after_min, record_audio,
}
use brillo_device_generic_br.AudioTest.MediaRecord.Captured.{captured, record_events-captured}
use brillo_device_generic_br.AudioTest.MediaRecord.Buffers.{count_buffers-IsLeast}

-- The formats that a sound file has, with the size of their samples.
abbrev pub sample_size : AudioFormat → ℕ
sample_size pcm_8_bit = 1
sample_size pcm_16_bit = 2
sample_size pcm_32_bit = 4
sample_size invalid = 0

module _ {S : Type 0} (recorder : Recorder S) where
  -- The write of so many frames in a format.
  abbrev pub written : AudioFormat → ℕ → List ℕ → ℕ → S → ℕ × S
  written pcm_8_bit file audio_data frames s =
      recorder.sf_writef_short file (recorder.memcpy_to_i16_from_u8 audio_data) frames s
  written pcm_16_bit file audio_data frames s = recorder.sf_writef_short file audio_data frames s
  written pcm_32_bit file audio_data frames s = recorder.sf_writef_int file audio_data frames s
  written invalid file audio_data frames s = (frames, s)

  -- The callback was given these events while the recording, which had been started, slept.
  abbrev pub Slept : ℤ → List RecordEvent → S → Type 0
  Slept duration_secs events s =
      (s0 s1 : S) × (recorder.start s0 ≡ (pos 0, s1))
      × (recorder.sleep_and_stop duration_secs s1 ≡ (events, s))

  -- Then the file was opened.
  abbrev pub Heard : List ℕ → ℤ → List RecordEvent → ℕ → S → Type 0
  Heard name duration_secs events file s =
      (t : S) × (info : SoundFile) × Slept duration_secs events t
      × (recorder.sf_open name info t ≡ (some file, s))

  -- The whole frames of the bytes that were captured stand in the file, which is closed.
  abbrev pub IsWritten : List ℕ → ℤ → AudioFormat → ℕ → List ℕ → S → Type 0
  IsWritten name duration_secs format num_channels audio_data s' =
      (file : ℕ) × (events : List RecordEvent) × (s : S) × Heard name duration_secs events file s
      × (let bytes = audio_data ++ captured events in
          let (n, s1) =
            written format file bytes (length bytes / (sample_size format * num_channels)) s in
          (s' ≡ recorder.sf_close file s1)
          × (n % 2 ^ 32 ≡ length bytes / (sample_size format * num_channels)))

  abbrev pub Ended : List ℕ → ℤ → AudioFormat → ℕ → List ℕ → RecordEnd × S → Type 0
  Ended name duration_secs format num_channels audio_data out =
      ((out.0 ≡ returned (pos 0))
        × IsWritten name duration_secs format num_channels audio_data out.1)
      ⊎ ((out.0 ≡ aborted) ⊎ ((status : ℤ) × (out.0 ≡ returned status) × (status ≢ pos 0)))

  nonzero : (n : ℕ) → pos (suc n) ≢ pos 0
  nonzero n h = cc

  negative : (n : ℕ) → negsuc n ≢ pos 0
  negative n h = cc

  after_write-cases :
      (file frames : ℕ) (r : ℕ × S)
      → ((after_write recorder file frames r ≡ (returned (pos 0), recorder.sf_close file r.1))
          × (r.0 % 2 ^ 32 ≡ frames))
        ⊎ ((after_write recorder file frames r).0 ≡ aborted)
  unfolding after_write
  after_write-cases file frames (n, s) =
      elim (Bool-cases (ltb (n % 2 ^ 32) (2 ^ 31) && (n % 2 ^ 32 == frames))) [
        | inl fine ↦ inl (rw (fine, after_write) refl, ground arith)
        | inr bad ↦ inr (rw (bad, after_write) refl)
      ]

  module _ (name : List ℕ) (rate : ℤ) (c : ℕ) (duration : ℤ) where
    written-Ended :
        (format : AudioFormat) (audio_data : List ℕ) (events : List RecordEvent) (file : ℕ) (s : S)
        → Heard name duration events file s
        → let bytes = audio_data ++ captured events in
          let frames = length bytes / (sample_size format * c) in
          Ended name duration format c audio_data
            (after_write recorder file frames (written format file bytes frames s))
    written-Ended format audio_data events file s heard =
        let bytes = audio_data ++ captured events in
        let frames = length bytes / (sample_size format * c) in
        elim (after_write-cases file frames (written format file bytes frames s)) [
          | inl (e, n) ↦ inl (ap (λ o. o.0) e, (file, events, s, heard, (ap (λ o. o.1) e, n)))
          | inr e ↦ inr (inl e)
        ]

    write_file-Ended :
        (format : AudioFormat) (audio_data : List ℕ) (events : List RecordEvent) (file : ℕ) (s : S)
        → Heard name duration events file s
        → 1 ≤ sample_size format
        → Ended name duration format c audio_data (
            write_file recorder format
              (audio_data ++ captured events)
              (length (audio_data ++ captured events) / (sample_size format * c))
              file
              s)
    unfolding write_file
    write_file-Ended pcm_8_bit audio_data events file s heard h =
        written-Ended pcm_8_bit audio_data events file s heard
    write_file-Ended pcm_16_bit audio_data events file s heard h =
        written-Ended pcm_16_bit audio_data events file s heard
    write_file-Ended pcm_32_bit audio_data events file s heard h =
        written-Ended pcm_32_bit audio_data events file s heard
    write_file-Ended invalid audio_data events file s heard h = absurd (omega arith)

    -- A format with samples, and channels of which a frame has at most 2048 bytes.
    module _ (format : AudioFormat) (some_bytes : 1 ≤ sample_size format) (some_channel : 1 ≤ c)
        (fits : sample_size format * c ≤ 2048) (sizes : SizeLaws recorder.audio_bytes_per_sample)
        (refused : recorder.invalid_operation ≢ pos 0) where
      bytes_per_frame-sample_size : bytes_per_frame recorder format (pos c) ≡ sample_size format * c
      unfolding bytes_per_frame
      bytes_per_frame-sample_size =
          ap (λ n. n * c % 2 ^ 64) (documented format) ∙ small (sample_size format * c) fits
        where
          small : (n : ℕ) → n ≤ 2048 → n % 2 ^ 64 ≡ n
          small n h = omega arith

          documented : (f : AudioFormat) → recorder.audio_bytes_per_sample f ≡ sample_size f
          documented pcm_8_bit = sizes.size_8_bit
          documented pcm_16_bit = sizes.size_16_bit
          documented pcm_32_bit = sizes.size_32_bit
          documented invalid = sizes.size_invalid

      after_file-Ended :
          (audio_data : List ℕ) (events : List RecordEvent) (t : S) (info : SoundFile)
          (r : Option ℕ × S)
          → Slept duration events t
          → recorder.sf_open name info t ≡ r
          → Ended name duration format c audio_data
              (after_file recorder name rate (pos c) format (audio_data ++ captured events) r)
      unfolding after_file
      after_file-Ended audio_data events t info (none, s) slept e =
          inr (inr (recorder.invalid_operation, refl, refused))
      after_file-Ended audio_data events t info (some file, s) slept e =
          rw (after_file, bytes_per_frame-sample_size)
            (write_file-Ended format audio_data events file s (t, info, slept, e) some_bytes)

      save_with-Ended :
          (n : ℕ) (audio_data : List ℕ) (events : List RecordEvent) (s : S)
          → Slept duration events s
          → Ended name duration format c audio_data (
              save_with recorder name rate (pos c) format (pos n) (audio_data ++ captured events) s)
      unfolding save_with
      save_with-Ended n audio_data events s slept =
          after_file-Ended audio_data events s _ _ slept refl

      sound_format :
          (f : AudioFormat)
          → 1 ≤ sample_size f
          → (n : ℕ) × (convert_to_snd_file_format recorder.header f ≡ pos n)
      unfolding convert_to_snd_file_format
      sound_format pcm_8_bit h = (_, refl)
      sound_format pcm_16_bit h = (_, refl)
      sound_format pcm_32_bit h = (_, refl)
      sound_format invalid h = absurd (omega arith)

      save-Ended :
          (audio_data : List ℕ) (events : List RecordEvent) (s : S)
          → Slept duration events s
          → Ended name duration format c audio_data
              (save recorder name rate (pos c) format (record_events audio_data events) s)
      unfolding save
      save-Ended audio_data events s slept =
          let (n, e) = sound_format format some_bytes in
          rw (save, e, record_events-captured events audio_data)
            (save_with-Ended n audio_data events s slept)

      after_start-Ended :
          (audio_data : List ℕ) (s0 : S) (r : ℤ × S)
          → recorder.start s0 ≡ r
          → Ended name duration format c audio_data
              (after_start recorder name rate (pos c) format duration audio_data r)
      unfolding after_start
      after_start-Ended audio_data s0 (pos zero, s) e =
          let (events, s') = recorder.sleep_and_stop duration s in
          save-Ended audio_data events s' (s0, s, e, refl)
      after_start-Ended audio_data s0 (pos (suc n), s) e = inr (inr (pos (suc n), refl, nonzero n))
      after_start-Ended audio_data s0 (negsuc n, s) e = inr (inr (negsuc n, refl, negative n))

      after_create-Ended :
          (audio_data : List ℕ) (r : ℤ × S)
          → Ended name duration format c audio_data
              (after_create recorder name rate (pos c) format duration audio_data r)
      unfolding after_create
      after_create-Ended audio_data (pos zero, s) = after_start-Ended audio_data s _ refl
      after_create-Ended audio_data (pos (suc n), s) = inr (inr (pos (suc n), refl, nonzero n))
      after_create-Ended audio_data (negsuc n, s) = inr (inr (negsuc n, refl, negative n))

      some_frames : (n : ℕ) → 1 ≤ n → n ≤ 2048 → (1 ≤ 2048 / n) × (2048 / n ≤ 2048)
      some_frames n h k = (grind arith, grind arith)

      positive : (m n : ℕ) → 1 ≤ m → 1 ≤ n → 1 ≤ m * n
      positive m n h k = grind arith

      after_min-Ended :
          (fuel : ℕ) (audio_data : List ℕ) (r : ℤ × ℕ × S)
          → r.1 < 2 ^ 63
          → r.1 < fuel
          → Ended name duration format c audio_data
              (after_min recorder name rate (pos c) format (suc fuel) duration audio_data r)
      unfolding after_min with_buffers
      after_min-Ended fuel audio_data (pos zero, min, s) h k =
          let bytes = positive (sample_size format) c some_bytes some_channel in
          let (some_frame, few) = some_frames (sample_size format * c) bytes fits in
          let (n, e, least) =
            (count_buffers-IsLeast fuel (2048 / (sample_size format * c)) min h k).0 some_frame
              few in
          rw (after_min, bytes_per_frame-sample_size, not_zero_of_pos _ bytes, e, with_buffers)
            (after_create-Ended audio_data _)
      after_min-Ended fuel audio_data (pos (suc n), min, s) h k =
          inr (inr (pos (suc n), refl, nonzero n))
      after_min-Ended fuel audio_data (negsuc n, min, s) h k =
          inr (inr (negsuc n, refl, negative n))

      -- With the documented sizes, a format of 1, 2 or 4 bytes, at least one channel, frames that fit
      -- the buffer of 2048 bytes, an INVALID_OPERATION other than OK, and fuel for the frames that
      -- the platform requires, fewer than 2 ^ 63, Record ends. It returns an error, or a CHECK fails;
      -- or it returns OK. Then the recording was started and slept for the duration, the file was
      -- opened in the state after that, the whole frames of the bytes that the callback was given
      -- meanwhile, in their order behind the earlier ones, were written to it, and it is closed. Bytes
      -- that do not make a whole frame are not written.
      pub record_audio-Ended :
          (fuel : ℕ) (audio_data : List ℕ) (s : S)
          → let min : ℕ =
              (recorder.get_min_frame_count rate format
                (recorder.audio_channel_in_mask_from_count (pos c))
                s).1 in
            min < 2 ^ 63
            → min < fuel
            → Ended name duration format c audio_data
                (record_audio recorder name rate (pos c) format (suc fuel) duration audio_data s)
      unfolding record_audio
      record_audio-Ended fuel audio_data s h k = after_min-Ended fuel audio_data _ h k
