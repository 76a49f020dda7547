-- ===== src/AudioTest/Stagefright.antt =====
-- pts/audio/brillo-audio-test/stagefright_record.cpp and stagefright_playback.cpp. AudioSource,
-- AudioPlayer, the media sources and the sound file are parameters; messages are left out.
pub mod Loop
use brillo_device_generic_br.Base.{
  ℕ, zero, suc, ◌+◌, ◌-◌, ◌*◌, ◌/◌, ◌%◌, ◌^◌, Bool, true, false, ◌==◌, ltb, Option, none, some,
  List, if◌then◌else◌, length,
}
use brillo_device_generic_br.Base.Int.{ℤ, pos, negsuc}
use brillo_device_generic_br.AudioTest.Formats.{AudioFormat, pcm_16_bit, to_size_t}

-- A size_t as an int, and the order of ints.
abbrev pub to_int : ℕ → ℤ
to_int n = if ltb (n % 2 ^ 32) (2 ^ 31) then pos (n % 2 ^ 32) else negsuc (2 ^ 32 - 1 - n % 2 ^ 32)

abbrev pub int_lt : ℤ → ℤ → Bool
int_lt (pos a) (pos b) = ltb a b
int_lt (pos a) (negsuc b) = false
int_lt (negsuc a) (pos b) = true
int_lt (negsuc a) (negsuc b) = ltb b a

-- A status is OK if it is 0; `none` is a null pointer.
pub record Stagefright (S : Type 0) : Type 0 where
  pub invalid_operation : ℤ
  pub audio_bytes_per_sample : AudioFormat → ℕ
  -- AudioSource: sample rate and channels, the constructor and initCheck
  pub source_create : ℤ → ℤ → S → ℤ × S
  pub source_start : S → ℤ × S
  pub source_read : S → Option (List ℕ) × S
  pub sleep : ℤ → S → S
  -- name, sample rate, channels, for a 16-bit WAV file
  pub sf_open : List ℕ → ℤ → ℤ → S → Option ℕ × S
  pub sf_writef_short : ℕ → List ℕ → ℕ → S → S
  pub sf_close : ℕ → S → S
  -- FileSource of a name and initCheck; its first track, decoded, as the source of a player
  pub file_create : List ℕ → S → ℤ × S
  pub decoded_player : S → S
  -- SineSource as the source of a player
  pub sine_player : ℤ → ℤ → S → S
  pub player_start : S → ℤ × S
  pub player_pause : S → S

-- `ended` has `num_bytes_written` as the bits of an int.
pub data Saved : Type 0 where
  ended : ℕ → Saved
  divided_by_zero unfinished : Saved

pub data StagefrightEnd : Type 0 where
  returned : ℤ → StagefrightEnd
  divided_by_zero out_of_fuel : StagefrightEnd

module _ {S : Type 0} (stagefright : Stagefright S) where
  unfoldable pub after_buffer : (ℕ → S → Saved × S) → ℕ → ℕ → ℕ → Option (List ℕ) × S → Saved × S
  after_buffer next file frame_size num_bytes_written (none, s) = (ended num_bytes_written, s)
  after_buffer next file frame_size num_bytes_written (some buffer, s) =
      if frame_size == 0
      then (divided_by_zero, s)
      else next ((num_bytes_written + length buffer) % 2 ^ 32)
          (stagefright.sf_writef_short file buffer (length buffer / frame_size) s)

  unfoldable pub save_loop : ℕ → ℕ → ℕ → ℤ → ℕ → S → Saved × S
  unfolding after_buffer
  save_loop zero file frame_size num_bytes_to_write num_bytes_written s = (unfinished, s)
  save_loop (suc fuel) file frame_size num_bytes_to_write num_bytes_written s =
      elim (int_lt (to_int num_bytes_written) num_bytes_to_write) [
        | true ↦
            after_buffer (save_loop fuel file frame_size num_bytes_to_write) file frame_size
              num_bytes_written (stagefright.source_read s)
        | false ↦ (ended num_bytes_written, s)
      ]

  unfoldable pub frame_bytes : ℤ → ℕ
  frame_bytes num_channels =
      stagefright.audio_bytes_per_sample pcm_16_bit * to_size_t num_channels % 2 ^ 64

  unfoldable pub bytes_to_write : ℤ → ℤ → ℤ → ℤ
  unfolding frame_bytes
  bytes_to_write sample_rate num_channels duration_secs =
      to_int (frame_bytes num_channels * to_size_t sample_rate * to_size_t duration_secs % 2 ^ 64)

  -- The status is OK here.
  unfoldable pub after_save : ℕ → Saved × S → StagefrightEnd × S
  after_save file (ended n, s) = (returned (pos 0), stagefright.sf_close file s)
  after_save file (divided_by_zero, s) = (divided_by_zero, s)
  after_save file (unfinished, s) = (out_of_fuel, s)

  module _ (filename : List ℕ) (sample_rate num_channels duration_secs : ℤ) where
    unfoldable pub after_open : ℕ → Option ℕ × S → StagefrightEnd × S
    unfolding after_save save_loop
    after_open fuel (none, s) = (returned stagefright.invalid_operation, s)
    after_open fuel (some file, s) = after_save file (
        save_loop fuel file (frame_bytes num_channels)
          (bytes_to_write sample_rate num_channels duration_secs) 0 s)

    unfoldable pub after_source_start : ℕ → ℤ × S → StagefrightEnd × S
    unfolding after_open
    after_source_start fuel (pos zero, s) =
        after_open fuel (
          stagefright.sf_open filename sample_rate num_channels (stagefright.sleep duration_secs s))
    after_source_start fuel (status, s) = (returned status, s)

    unfoldable pub after_source : ℕ → ℤ × S → StagefrightEnd × S
    unfolding after_source_start
    after_source fuel (pos zero, s) = after_source_start fuel (stagefright.source_start s)
    after_source fuel (status, s) = (returned status, s)

    unfoldable pub libstagefright_record_audio : ℕ → S → StagefrightEnd × S
    unfolding after_source
    libstagefright_record_audio fuel s =
        after_source fuel (stagefright.source_create sample_rate num_channels s)

  unfoldable pub file_started : ℤ → ℤ × S → ℤ × S
  file_started duration_secs (pos zero, s) = (pos 0, stagefright.sleep duration_secs s)
  file_started duration_secs (status, s) = (status, s)

  unfoldable pub after_file_source : ℤ → ℤ × S → ℤ × S
  unfolding file_started
  after_file_source duration_secs (pos zero, s) =
      file_started duration_secs (stagefright.player_start (stagefright.decoded_player s))
  after_file_source duration_secs (status, s) = (status, s)

  unfoldable pub play_stagefright_file : List ℕ → ℤ → S → ℤ × S
  unfolding after_file_source
  play_stagefright_file filename duration_secs s =
      after_file_source duration_secs (stagefright.file_create filename s)

  unfoldable pub sine_started : ℤ → ℤ × S → ℤ × S
  sine_started duration_secs (pos zero, s) =
      (pos 0, stagefright.player_pause (stagefright.sleep duration_secs s))
  sine_started duration_secs (status, s) = (status, s)

  unfoldable pub play_stagefright_sine : ℤ → ℤ → ℤ → S → ℤ × S
  unfolding sine_started
  play_stagefright_sine sample_rate num_channels duration_secs s =
      sine_started duration_secs
        (stagefright.player_start (stagefright.sine_player sample_rate num_channels s))
