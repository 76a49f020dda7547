-- ===== src/AudioHal/Player.antt =====
-- main of the playback test of the audio HAL, pts/audio/hal-test/audio_hal_playback_test.cpp. The
-- HAL, the sound file, the sine source and the functions of system/audio.h are parameters; handles
-- are numbers. Messages are left out.
pub mod Handles
use brillo_device_generic_br.Base.{
  ℕ, zero, suc, ◌+◌, ◌%◌, ◌^◌, ◌==◌, Option, none, some, List, [], ◌∷◌, if◌then◌else◌, bit_and,
  codes,
}
use brillo_device_generic_br.Base.Int.{ℤ, pos, negsuc}
use brillo_device_generic_br.AudioHal
use brillo_device_generic_br.AudioHal.{
  SineSource, generate_data, Playback, Played, play_generated, play_file,
}
use brillo_device_generic_br.AudioHal.Record.{AudioConfig, to_uint32}

-- SF_INFO, as sf_open fills it.
pub record FileInfo : Type 0 where
  pub samplerate : ℕ
  pub channels : ℕ
  pub format : ℕ

-- What the program takes from system/audio.h, sndfile.h and the C library.
pub record PlayHeader : Type 0 where
  pub channel_out_stereo : ℕ
  pub format_pcm_16_bit : ℕ
  pub sf_format_pcm_16 : ℕ
  pub audio_channel_out_mask_from_count : ℕ → ℕ
  pub audio_channel_count_from_out_mask : ℕ → ℕ
  -- text, base
  pub strtol : List ℕ → ℕ → ℤ

-- The calls; `none` is a nonzero result or a null pointer.
pub record PlayHal (S : Type 0) : Type 0 where
  -- class
  pub hw_get_module_by_class : List ℕ → S → Option ℕ × S
  pub audio_hw_device_open : ℕ → S → Option ℕ × S
  pub sf_open : List ℕ → S → Option (ℕ × FileInfo) × S
  -- device, output device, configuration, which the HAL may change
  pub open_output_stream : ℕ → ℕ → AudioConfig → S → Option ℕ × AudioConfig × S
  pub set_volume : ℕ → S → S
  -- stream and file, which is 0 when a sine wave is played
  pub playback : ℕ → ℕ → Playback S
  pub close_output_stream : ℕ → ℕ → S → S
  pub audio_hw_device_close : ℕ → S → S

-- `aborted` is a CHECK that fails, `overrun` the write behind the buffer of PlayFile,
-- `divided_by_zero` the division there by a frame of no bytes.
pub data PlayExit : Type 0 where
  exited : ℤ → PlayExit
  aborted overrun divided_by_zero out_of_fuel : PlayExit

module _ {S G : Type 0} (header : PlayHeader) (hal : PlayHal S) (source : SineSource G)
    (fuel : ℕ) where
  -- The result of the playing is not looked at.
  unfoldable pub after_play : ℕ → ℕ → Played × S → PlayExit × S
  after_play device stream (AudioHal.returned rc, s) =
      (exited (pos 0), hal.audio_hw_device_close device (hal.close_output_stream device stream s))
  after_play device stream (AudioHal.overrun, s) = (overrun, s)
  after_play device stream (AudioHal.check_failed, s) = (aborted, s)
  after_play device stream (AudioHal.divided_by_zero, s) = (divided_by_zero, s)
  after_play device stream (AudioHal.out_of_fuel, s) = (out_of_fuel, s)

  -- The file, if there is one, or the sine wave.
  unfoldable pub play : Option ℕ → ℕ → AudioConfig → S → Played × S
  play none stream config s =
      play_generated (hal.playback stream 0)
        (generate_data source config.sample_rate
          (header.audio_channel_count_from_out_mask config.channel_mask)
          ((hal.playback stream 0).get_buffer_size s))
        s
  play (some file) stream config s =
      play_file (hal.playback stream file) fuel
        (header.audio_channel_count_from_out_mask config.channel_mask) s

  unfoldable pub after_stream : Option ℕ → ℕ → Option ℕ × AudioConfig × S → PlayExit × S
  unfolding after_play
  after_stream in_file device (none, config, s) = (exited (negsuc 0), s)
  after_stream in_file device (some stream, config, s) =
      after_play device stream (play in_file stream config (hal.set_volume stream s))

  unfoldable pub open_stream : Option ℕ → ℕ → ℕ → AudioConfig → S → PlayExit × S
  unfolding after_stream
  open_stream in_file device output_device config s =
      after_stream in_file device (hal.open_output_stream device output_device config s)

  -- The bit of SF_FORMAT_PCM_16 is tested, not the format.
  unfoldable pub after_file : ℕ → ℕ → Option (ℕ × FileInfo) × S → PlayExit × S
  unfolding open_stream
  after_file device output_device (none, s) = (aborted, s)
  after_file device output_device (some (file, info), s) =
      if bit_and info.format header.sf_format_pcm_16 == 0
      then (exited (negsuc 0), s)
      else open_stream (some file) device output_device
          (record {
            sample_rate = info.samplerate;
            channel_mask = header.audio_channel_out_mask_from_count info.channels;
            format = header.format_pcm_16_bit;
          })
          s

  -- A second argument that is no number other than 0 is the name of a file.
  unfoldable pub choose_input : List ℕ → ℕ → ℕ → S → PlayExit × S
  unfolding after_file
  choose_input argument output_device device s =
      let desired_sample_rate = to_uint32 (header.strtol argument 10) in
      if desired_sample_rate == 0
      then after_file device output_device (hal.sf_open argument s)
      else open_stream none device output_device
          (record {
            sample_rate = desired_sample_rate;
            channel_mask = header.channel_out_stereo;
            format = header.format_pcm_16_bit;
          })
          s

  unfoldable pub after_device : List ℕ → ℕ → Option ℕ × S → PlayExit × S
  unfolding choose_input
  after_device argument output_device (none, s) = (exited (negsuc 0), s)
  after_device argument output_device (some device, s) =
      choose_input argument output_device device s

  unfoldable pub after_module : List ℕ → ℕ → Option ℕ × S → PlayExit × S
  unfolding after_device
  after_module argument output_device (none, s) = (exited (negsuc 0), s)
  after_module argument output_device (some hw_module, s) =
      after_device argument output_device (hal.audio_hw_device_open hw_module s)

  unfoldable pub find_module : S → Option ℕ × S
  find_module s =
      let (primary, s1) = hal.hw_get_module_by_class (codes "primary") s in
      elim primary [
        | some hw_module ↦ (some hw_module, s1)
        | none ↦ hal.hw_get_module_by_class (codes "usb") s1
      ]

  -- main, on argv.
  unfoldable pub main : List (List ℕ) → S → PlayExit × S
  unfolding after_module find_module
  main (program ∷ device ∷ argument ∷ rest) s =
      after_module argument (to_uint32 (header.strtol device 16)) (find_module s)
  main _ s = (exited (negsuc 0), s)
