-- ===== src/AudioTest/MediaRecord.antt =====
-- pts/audio/brillo-audio-test/libmedia_record.cpp: LibmediaRecord. AudioRecord, its thread, the
-- sound file and the conversion of samples are parameters; messages are left out.
pub mod Captured
pub mod Buffers
pub mod Outcome
use brillo_device_generic_br.Base.{
  ℕ, zero, suc, ◌+◌, ◌*◌, ◌/◌, ◌%◌, ◌^◌, Bool, true, false, ◌&&◌, ◌==◌, ltb, Option, none, some,
  List, [], ◌∷◌, ◌++◌, if◌then◌else◌, length,
}
use brillo_device_generic_br.Base.Int.{ℤ, pos, negsuc}
use brillo_device_generic_br.AudioTest.Formats.{
  AudioFormat, pcm_8_bit, pcm_16_bit, pcm_32_bit, invalid, SoundHeader, to_size_t,
  convert_to_snd_file_format,
}

-- EVENT_MORE_DATA with the bytes of the buffer, EVENT_OVERRUN, and any other.
pub data RecordEvent : Type 0 where
  more_data : List ℕ → RecordEvent
  overrun unexpected : RecordEvent

-- The arguments of AudioRecord that vary, but for its callback.
pub record RecordSettings : Type 0 where
  pub sample_rate : ℤ
  pub format : AudioFormat
  pub channel_mask : ℕ
  pub frame_count : ℕ
  pub notification_frames : ℕ

pub record SoundFile : Type 0 where
  pub samplerate : ℤ
  pub channels : ℤ
  pub format : ℤ

-- A status is OK if it is 0; `none` is a null pointer.
pub record Recorder (S : Type 0) : Type 0 where
  pub header : SoundHeader
  pub bad_type : ℤ
  pub invalid_operation : ℤ
  pub audio_bytes_per_sample : AudioFormat → ℕ
  pub audio_channel_in_mask_from_count : ℤ → ℕ
  -- the status and the number
  pub get_min_frame_count : ℤ → AudioFormat → ℕ → S → ℤ × ℕ × S
  -- the constructor and initCheck
  pub create : RecordSettings → S → ℤ × S
  pub start : S → ℤ × S
  -- sleep and stop, with the events that the callback was given meanwhile
  pub sleep_and_stop : ℤ → S → List RecordEvent × S
  pub sf_open : List ℕ → SoundFile → S → Option ℕ × S
  pub memcpy_to_i16_from_u8 : List ℕ → List ℕ
  -- file, bytes of the buffer, number of frames; the number that were written
  pub sf_writef_short : ℕ → List ℕ → ℕ → S → ℕ × S
  pub sf_writef_int : ℕ → List ℕ → ℕ → S → ℕ × S
  pub sf_close : ℕ → S → S

-- RecordCallback: what `audio_data_` is afterwards.
unfoldable pub record_callback : List ℕ → RecordEvent → List ℕ
record_callback audio_data (more_data buffer) = audio_data ++ buffer
record_callback audio_data overrun = audio_data
record_callback audio_data unexpected = audio_data

unfoldable pub record_events : List ℕ → List RecordEvent → List ℕ
unfolding record_callback
record_events audio_data [] = audio_data
record_events audio_data (event ∷ events) = record_events (record_callback audio_data event) events

-- The loop on `buf_count`; `none` when the fuel is used up. A size_t has 64 bits.
unfoldable pub count_buffers : ℕ → ℕ → ℕ → ℕ → Option ℕ
count_buffers zero frame_count min_frame_count buf_count = none
count_buffers (suc fuel) frame_count min_frame_count buf_count =
    elim (ltb (buf_count * frame_count % 2 ^ 64) min_frame_count) [
      | true ↦ count_buffers fuel frame_count min_frame_count ((buf_count + 1) % 2 ^ 64)
      | false ↦ some buf_count
    ]

-- `aborted` is a CHECK that fails.
pub data RecordEnd : Type 0 where
  returned : ℤ → RecordEnd
  aborted divided_by_zero out_of_fuel : RecordEnd

module _ {S : Type 0} (recorder : Recorder S) where
  unfoldable pub bytes_per_frame : AudioFormat → ℤ → ℕ
  bytes_per_frame format num_channels =
      recorder.audio_bytes_per_sample format * to_size_t num_channels % 2 ^ 64

  -- The CHECK of the number as an int, sf_close, and the status, which is OK here.
  unfoldable pub after_write : ℕ → ℕ → ℕ × S → RecordEnd × S
  after_write out_file file_frame_count (frames_written, s) =
      if ltb (frames_written % 2 ^ 32) (2 ^ 31) && (frames_written % 2 ^ 32 == file_frame_count)
      then (returned (pos 0), recorder.sf_close out_file s)
      else (aborted, s)

  unfoldable pub write_file : AudioFormat → List ℕ → ℕ → ℕ → S → RecordEnd × S
  unfolding after_write
  write_file pcm_8_bit audio_data frames file s =
      after_write file frames
        (recorder.sf_writef_short file (recorder.memcpy_to_i16_from_u8 audio_data) frames s)
  write_file pcm_16_bit audio_data frames file s =
      after_write file frames (recorder.sf_writef_short file audio_data frames s)
  write_file pcm_32_bit audio_data frames file s =
      after_write file frames (recorder.sf_writef_int file audio_data frames s)
  write_file invalid audio_data frames file s = (returned (pos 0), recorder.sf_close file s)

  module _ (filename : List ℕ) (sample_rate num_channels : ℤ) (audio_format : AudioFormat) where
    -- The frames have bytes: otherwise the division before has failed.
    unfoldable pub after_file : List ℕ → Option ℕ × S → RecordEnd × S
    unfolding write_file
    after_file audio_data (none, s) = (returned recorder.invalid_operation, s)
    after_file audio_data (some file, s) =
        write_file audio_format audio_data
          (length audio_data / bytes_per_frame audio_format num_channels) file s

    unfoldable pub save_with : ℤ → List ℕ → S → RecordEnd × S
    unfolding after_file
    save_with (negsuc zero) audio_data s = (returned recorder.bad_type, s)
    save_with format audio_data s = after_file audio_data (
        recorder.sf_open filename
          (record { samplerate = sample_rate; channels = num_channels; format = format }) s)

    unfoldable pub save : List ℕ → S → RecordEnd × S
    unfolding save_with
    save audio_data s =
        save_with (convert_to_snd_file_format recorder.header audio_format) audio_data s

    unfoldable pub after_start : ℤ → List ℕ → ℤ × S → RecordEnd × S
    unfolding save record_events
    after_start duration_secs audio_data (pos zero, s) =
        let (events, s') = recorder.sleep_and_stop duration_secs s in
        save (record_events audio_data events) s'
    after_start duration_secs audio_data (status, s) = (returned status, s)

    unfoldable pub after_create : ℤ → List ℕ → ℤ × S → RecordEnd × S
    unfolding after_start
    after_create duration_secs audio_data (pos zero, s) =
        after_start duration_secs audio_data (recorder.start s)
    after_create duration_secs audio_data (status, s) = (returned status, s)

    unfoldable pub with_buffers : ℤ → List ℕ → ℕ → Option ℕ → S → RecordEnd × S
    unfolding after_create
    with_buffers duration_secs audio_data frame_count none s = (out_of_fuel, s)
    with_buffers duration_secs audio_data frame_count (some buf_count) s =
        after_create duration_secs audio_data (
          recorder.create
            (record {
              sample_rate = sample_rate;
              format = audio_format;
              channel_mask = recorder.audio_channel_in_mask_from_count num_channels;
              frame_count = buf_count * frame_count % 2 ^ 64;
              notification_frames = frame_count;
            })
            s)

    -- The buffer is meant to hold 2048 bytes at most.
    unfoldable pub after_min : ℕ → ℤ → List ℕ → ℤ × ℕ × S → RecordEnd × S
    unfolding with_buffers
    after_min fuel duration_secs audio_data (pos zero, min_frame_count, s) =
        let frame_size = bytes_per_frame audio_format num_channels in
        let frame_count = 2048 / frame_size in
        if frame_size == 0
        then (divided_by_zero, s)
        else with_buffers duration_secs audio_data frame_count
            (count_buffers fuel frame_count min_frame_count 2) s
    after_min fuel duration_secs audio_data (status, min_frame_count, s) = (returned status, s)

    -- LibmediaRecord::Record, with what `audio_data_` holds before.
    unfoldable pub record_audio : ℕ → ℤ → List ℕ → S → RecordEnd × S
    unfolding after_min
    record_audio fuel duration_secs audio_data s = after_min fuel duration_secs audio_data (
        recorder.get_min_frame_count sample_rate audio_format
          (recorder.audio_channel_in_mask_from_count num_channels) s)
