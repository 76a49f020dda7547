-- ===== src/Examples/Devices.antt =====
-- The playback of a stereo file by the test of the audio HAL, and a run of this test on a HAL without
-- a stream.
use brillo_device_generic_br.Base.{
  ℕ, ◌-◌, ◌*◌, ◌≡◌, ◌↔◌, ◌≤◌, refl, arith, none, some, replicate, length-replicate, ◌==◌,
  if◌then◌else◌,
}
use brillo_device_generic_br.Base.Int.{pos}
use brillo_device_generic_br.AudioHal.{SineSource, k_buffer_size, Playback, overrun, play_file}
use brillo_device_generic_br.AudioHal.Player.{PlayHal, PlayHeader}
use brillo_device_generic_br.AudioHal.File.{FileLaws, play_file-overrun}

-- The state is the number of free buffers.
abbrev source : SineSource ℕ
source = record {
  start = λ sample_rate num_channels. 1;
  read = λ g. (if g == 0 then none else some (replicate k_buffer_size 0), g - 1);
}

-- A stereo file without an end, on a stream with a buffer of 64 bytes.
abbrev playback : Playback ℕ
playback = record {
  get_buffer_size = λ s. 64;
  write = λ samples s. (pos 0, s);
  sf_readf_short = λ n s. ((n, replicate (n * 2) 5), s);
}

file_laws : FileLaws playback 2 64
file_laws = record {
  buffer_size = λ s. refl;
  at_most = λ n s. omega arith;
  samples = λ n s. length-replicate (n * 2) 5;
}

play_file-overrun_example : ((play_file playback 1 2 0).0 ≡ overrun) ↔ (2 ≤ 2)
play_file-overrun_example =
    play_file-overrun playback 64 0 2 0 file_laws (omega arith) (omega arith) refl

-- A HAL that opens the device and refuses the stream.
abbrev play_hal : PlayHal ℕ
play_hal = record {
  hw_get_module_by_class = λ class s. (some 1, s);
  audio_hw_device_open = λ hw_module s. (some 2, s);
  sf_open = λ name s. (none, s);
  open_output_stream = λ device output_device config s. (none, config, s);
  set_volume = λ stream s. s;
  playback = λ stream file. playback;
  close_output_stream = λ device stream s. s;
  audio_hw_device_close = λ device s. s;
}

abbrev play_header : PlayHeader
play_header = record {
  channel_out_stereo = 3;
  format_pcm_16_bit = 1;
  sf_format_pcm_16 = 2;
  audio_channel_out_mask_from_count = λ count. 3;
  audio_channel_count_from_out_mask = λ mask. 2;
  strtol = λ text base. pos 48000;
}
