-- ===== src/AudioHal/Record/Outcome.antt =====
-- How the recording test (audio_hal_record_test.cpp) ends.
use brillo_device_generic_br.Base.{
  ℕ, ◌-◌, ◌*◌, ◌/◌, ◌≡◌, ◌≤◌, ◌<◌, ◌⊎◌, some, List, ◌++◌, length, ◌^◌, replicate,
}
use brillo_device_generic_br.Base.Int.{pos, negsuc}
use brillo_device_generic_br.AudioHal.Record.{
  RecordHal, AudioHeader, AudioConfig, SoundInfo, k_recorded_data_size, RecordExit, exited, aborted,
  divided_by_zero,
}
use brillo_device_generic_br.AudioHal.Record.Loop.{ReadLaws, Reads, IsEnough}

-- Every stream gives what ReadLaws says, with so many reads without a byte at most, and its buffer
-- has a size.
pub record StreamLaws {S : Type 0} (hal : RecordHal S) (limit : ℕ) : Type 0 where
  pub patience : ℕ → ℕ → S → ℕ
  pub reads : (stream start_time : ℕ) → ReadLaws hal stream start_time (patience stream start_time)
  pub limited : (stream start_time : ℕ) (s : S) → patience stream start_time s ≤ limit
  pub sized :
      (stream : ℕ) (s : S)
      → (1 ≤ (hal.get_buffer_size stream s).0) × ((hal.get_buffer_size stream s).0 < 2 ^ 63)

abbrev pub frame_bytes : AudioHeader → AudioConfig → ℕ
frame_bytes header config =
    header.audio_bytes_per_sample config.format
    * header.audio_channel_count_from_out_mask config.channel_mask

module _ {S : Type 0} (hal : RecordHal S) where
  -- The bytes that a stream gave, from a look at the clock to a state: enough of them by this clock,
  -- see IsEnough. The stream and the device are closed then, and the file is opened.
  abbrev pub Recording : List ℕ → ℕ → S → Type 0
  Recording recorded file opened =
      (device stream : ℕ) × (name : List ℕ) × (info : SoundInfo) × (s s' : S) × Reads hal stream
        (hal.time s).1 recorded s'
      × IsEnough hal stream (hal.time s).0 recorded s'
      × (hal.sf_open name info
            (hal.audio_hw_device_close device (hal.close_input_stream device stream s'))
          ≡ (some file, opened))

  -- The file was written: from a buffer of 100000 bytes as many whole frames as were recorded.
  abbrev pub IsSaved : AudioHeader → S → Type 0
  IsSaved header s' =
      (recorded buffer : List ℕ) × (file : ℕ) × (config : AudioConfig) × (s : S) × Recording
        recorded file s
      × (s'
          ≡ hal.sf_close file
              (hal.sf_writef_short file buffer (length recorded / frame_bytes header config) s))
      × (buffer ≡ recorded ++ replicate (k_recorded_data_size - length recorded) 0)
      × (length buffer ≡ k_recorded_data_size)
      × ((length recorded / frame_bytes header config) * frame_bytes header config
          ≤ length recorded)

  abbrev pub Outcome : AudioHeader → RecordExit × S → Type 0
  Outcome header out =
      ((out.0 ≡ exited (pos 0)) × IsSaved header out.1)
      ⊎ ((out.0 ≡ exited (negsuc 0)) ⊎ ((out.0 ≡ aborted) ⊎ (out.0 ≡ divided_by_zero)))
