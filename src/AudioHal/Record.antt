-- ===== src/AudioHal/Record.antt =====
-- The recording test of the audio HAL, pts/audio/hal-test/audio_hal_record_test.cpp. The HAL, the
-- clock, the sound file and the functions of system/audio.h are parameters; handles are numbers.
-- Messages are left out.
pub mod Loop
pub mod Outcome
use brillo_device_generic_br.Base.{
  ℕ, zero, suc, ◌+◌, ◌-◌, ◌*◌, ◌/◌, ◌%◌, ◌^◌, Bool, true, false, ◌==◌, ltb, Option, none, some,
  List, [], ◌∷◌, ◌++◌, if◌then◌else◌, length, replicate, bit_or, codes,
}
use brillo_device_generic_br.Base.Int.{ℤ, pos, negsuc}

-- audio_config_t
pub record AudioConfig : Type 0 where
  pub sample_rate : ℕ
  pub channel_mask : ℕ
  pub format : ℕ

-- SF_INFO; the field `format` is SF_FORMAT_WAV | SF_FORMAT_PCM_16.
pub record SoundInfo : Type 0 where
  pub samplerate : ℕ
  pub channels : ℕ

-- What the program takes from system/audio.h and from the C library.
pub record AudioHeader : Type 0 where
  pub device_bit_in : ℕ
  pub channel_in_mono : ℕ
  pub format_pcm_16_bit : ℕ
  pub audio_channel_count_from_out_mask : ℕ → ℕ
  pub audio_bytes_per_sample : ℕ → ℕ
  -- text, base
  pub strtol : List ℕ → ℕ → ℤ
  pub atoi : List ℕ → ℤ

-- The calls; `none` is a nonzero result, a negative number of bytes, or a null pointer.
pub record RecordHal (S : Type 0) : Type 0 where
  -- class
  pub hw_get_module_by_class : List ℕ → S → Option ℕ × S
  pub audio_hw_device_open : ℕ → S → Option ℕ × S
  -- device, input device, configuration, which the HAL may change
  pub open_input_stream : ℕ → ℕ → AudioConfig → S → Option ℕ × AudioConfig × S
  pub get_buffer_size : ℕ → S → ℕ × S
  pub set_parameters : ℕ → List ℕ → S → S
  -- stream, number of bytes
  pub read : ℕ → ℕ → S → Option (List ℕ) × S
  -- seconds
  pub time : S → ℕ × S
  pub close_input_stream : ℕ → ℕ → S → S
  pub audio_hw_device_close : ℕ → S → S
  pub sf_open : List ℕ → SoundInfo → S → Option ℕ × S
  -- file, buffer, number of frames
  pub sf_writef_short : ℕ → List ℕ → ℕ → S → S
  pub sf_close : ℕ → S → S

abbrev pub k_recorded_data_size : ℕ
k_recorded_data_size = 100000

abbrev pub k_max_loop_time : ℕ
k_max_loop_time = 30

abbrev pub to_uint32 : ℤ → ℕ
to_uint32 (pos n) = n % 2 ^ 32
to_uint32 (negsuc n) = 2 ^ 32 - 1 - n % 2 ^ 32

-- A size_t has 64 bits.
unfoldable pub bytes_to_copy : ℕ → ℕ → ℕ
bytes_to_copy buffer_size buffer_offset =
    if ltb ((buffer_offset + buffer_size) % 2 ^ 64) k_recorded_data_size
    then buffer_size
    else k_recorded_data_size - buffer_offset

-- What the loop has stored; `buffer_offset` is its length.
pub data Recorded : Type 0 where
  stopped : List ℕ → Recorded
  unfinished : Recorded

-- `aborted` is a CHECK that fails, `divided_by_zero` the division by the size of a frame.
pub data RecordExit : Type 0 where
  exited : ℤ → RecordExit
  aborted divided_by_zero out_of_fuel : RecordExit

module _ {S : Type 0} (hal : RecordHal S) where
  unfoldable pub after_read :
      (List ℕ → S → Recorded × S) → ℕ → List ℕ → Option (List ℕ) × S → Recorded × S
  after_read next start_time recorded (some bytes, s) = next (recorded ++ bytes) s
  after_read next start_time recorded (none, s) =
      let (now, s') = hal.time s in
      elim (ltb (start_time + k_max_loop_time) now) [
        | true ↦ (stopped recorded, s')
        | false ↦ next recorded s'
      ]

  unfoldable pub record_loop : ℕ → ℕ → ℕ → ℕ → List ℕ → S → Recorded × S
  unfolding after_read
  record_loop zero stream buffer_size start_time recorded s = (unfinished, s)
  record_loop (suc fuel) stream buffer_size start_time recorded s =
      elim (ltb (length recorded) k_recorded_data_size) [
        | true ↦
            after_read (record_loop fuel stream buffer_size start_time) start_time recorded
              (hal.read stream (bytes_to_copy buffer_size (length recorded)) s)
        | false ↦ (stopped recorded, s)
      ]

  module _ (header : AudioHeader) (output_filename : List ℕ) (desired_sample_rate : ℕ) where
    -- sf_writef_short is given the whole buffer, of which the end was never recorded.
    unfoldable pub write_frames : ℕ → List ℕ → ℕ → S → RecordExit × S
    write_frames frame_size recorded out_file s =
        if frame_size == 0
        then (divided_by_zero, s)
        else (let buffer = recorded ++ replicate (k_recorded_data_size - length recorded) 0 in
            let s' = hal.sf_writef_short out_file buffer (length recorded / frame_size) s in
            (exited (pos 0), hal.sf_close out_file s'))

    unfoldable pub save : AudioConfig → List ℕ → S → RecordExit × S
    unfolding write_frames
    save config recorded s =
        let num_channels = header.audio_channel_count_from_out_mask config.channel_mask in
        let info : SoundInfo = record {
          samplerate = desired_sample_rate;
          channels = num_channels;
        } in
        let (out_file, s') = hal.sf_open output_filename info s in
        elim out_file [
          | none ↦ (exited (negsuc 0), s')
          | some file ↦
              write_frames (header.audio_bytes_per_sample config.format * num_channels) recorded
                file s'
        ]

    unfoldable pub after_loop : ℕ → ℕ → AudioConfig → Recorded × S → RecordExit × S
    unfolding save
    after_loop device stream config (unfinished, s) = (out_of_fuel, s)
    after_loop device stream config (stopped recorded, s) =
        save config recorded
          (hal.audio_hw_device_close device (hal.close_input_stream device stream s))

    unfoldable pub after_stream : ℕ → ℕ → Option ℕ × AudioConfig × S → RecordExit × S
    unfolding after_loop record_loop
    after_stream fuel device (none, config, s) = (exited (negsuc 0), s)
    after_stream fuel device (some stream, config, s) =
        let (buffer_size, s1) = hal.get_buffer_size stream s in
        let (start_time, s2) = hal.time (hal.set_parameters stream (codes "input_source=1") s1) in
        after_loop device stream config (record_loop fuel stream buffer_size start_time [] s2)

    unfoldable pub after_device : ℕ → ℕ → Option ℕ × S → RecordExit × S
    unfolding after_stream
    after_device fuel input_device (none, s) = (exited (negsuc 0), s)
    after_device fuel input_device (some device, s) = after_stream fuel device (
        hal.open_input_stream device input_device
          (record {
            sample_rate = desired_sample_rate;
            channel_mask = header.channel_in_mono;
            format = header.format_pcm_16_bit;
          })
          s)

    unfoldable pub after_module : ℕ → ℕ → Option ℕ × S → RecordExit × S
    unfolding after_device
    after_module fuel input_device (none, s) = (exited (negsuc 0), s)
    after_module fuel input_device (some hw_module, s) =
        after_device fuel input_device (hal.audio_hw_device_open hw_module s)

    unfoldable pub load_hal : S → Option ℕ × S
    load_hal s =
        let (primary, s1) = hal.hw_get_module_by_class (codes "primary") s in
        elim primary [
          | some hw_module ↦ (some hw_module, s1)
          | none ↦ hal.hw_get_module_by_class (codes "usb") s1
        ]

  -- main, on argv.
  unfoldable pub main : AudioHeader → ℕ → List (List ℕ) → S → RecordExit × S
  unfolding after_module load_hal
  main header fuel (program ∷ device ∷ sample_rate ∷ file ∷ rest) s =
      let desired_input_device = to_uint32 (header.strtol device 16) in
      let desired_sample_rate = to_uint32 (header.atoi sample_rate) in
      if desired_input_device == 0
      then (aborted, s)
      else if desired_sample_rate == 0
      then (aborted, s)
      else after_module header file desired_sample_rate fuel
          (bit_or desired_input_device header.device_bit_in)
          (load_hal header file desired_sample_rate s)
  main header fuel _ s = (exited (negsuc 0), s)
