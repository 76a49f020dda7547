-- ===== src/Examples/Audio.antt =====
-- The audio programs with a microphone that gives what it is asked for, and files of one channel.
use brillo_device_generic_br.Base.{
  ℕ, ◌+◌, ◌*◌, ◌≡◌, ◌≤◌, ◌<◌, ◌⊎◌, ◌^◌, inl, refl, true, false, List, [], ◌∷◌, none, some, Option,
  arith, replicate, length-replicate, codes, length, subst,
}
use brillo_device_generic_br.Base.Int.{pos, negsuc}
use brillo_device_generic_br.AudioHal.Record
use brillo_device_generic_br.AudioHal.Record.{RecordHal, AudioHeader, k_max_loop_time}
use brillo_device_generic_br.AudioHal.Record.Outcome.{Outcome}
use brillo_device_generic_br.AudioTest.Formats.{pcm_8_bit, pcm_16_bit, SoundHeader, SizeLaws}
use brillo_device_generic_br.AudioTest.MediaRecord
use brillo_device_generic_br.AudioTest.MediaRecord.{
  Recorder, RecordEvent, count_buffers, record_audio,
}
use brillo_device_generic_br.AudioTest.MediaRecord.Buffers.{IsLeast, count_buffers-IsLeast}
use brillo_device_generic_br.AudioTest.MediaRecord.Outcome.{Ended, sample_size, record_audio-Ended}
use brillo_device_generic_br.AudioTest.MediaPlayback.{
  LibmediaPlayback, Player, FileInfo, fill_buffer,
}
use brillo_device_generic_br.AudioTest.MediaPlayback.Fits.{PlayerLaws, Fits, fill_buffer-Fits}
use brillo_device_generic_br.AudioTest.Stagefright.{Stagefright, save_loop, ended}
use brillo_device_generic_br.AudioTest.Stagefright.Loop.{SourceLaws, IsEnough, save_loop-IsEnough}
use brillo_device_generic_br.AudioTest.Program
use brillo_device_generic_br.AudioTest.Program.{Flags, exited}
use brillo_device_generic_br.AudioTest.Program.Choice.{IsRequest, chosen, main-IsRequest}

abbrev microphone : RecordHal ℕ
microphone = record {
  hw_get_module_by_class = λ class s. (some 1, s);
  audio_hw_device_open = λ hw_module s. (some 2, s);
  open_input_stream = λ device input_device config s. (some 3, config, s);
  get_buffer_size = λ stream s. (4096, s);
  set_parameters = λ stream text s. s;
  read = λ stream n s. (some (replicate n 7), s);
  time = λ s. (s, s);
  close_input_stream = λ device stream s. s;
  audio_hw_device_close = λ device s. s;
  sf_open = λ name info s. (some 4, s);
  sf_writef_short = λ file buffer frames s. s + frames;
  sf_close = λ file s. s;
}

abbrev audio_header : AudioHeader
audio_header = record {
  device_bit_in = 0x80000000;
  channel_in_mono = 16;
  format_pcm_16_bit = 1;
  audio_channel_count_from_out_mask = λ mask. 1;
  audio_bytes_per_sample = λ format. 2;
  strtol = λ text base. pos 4;
  atoi = λ text. pos 48000;
}

abbrev record_arguments : List (List ℕ)
record_arguments = codes "test" ∷ codes "4" ∷ codes "48000" ∷ codes "out.wav" ∷ []

count_buffers-IsLeast_example :
    (1 ≤ 512
      → 512 ≤ 2048
      → (n : ℕ) × (count_buffers 4802 512 4800 2 ≡ some n) × IsLeast 512 4800 2 n)
    × (◌≡◌ {A = ℕ} 512 0 → 1 ≤ 4800 → count_buffers 4802 512 4800 2 ≡ none)
count_buffers-IsLeast_example = count_buffers-IsLeast 4801 512 4800 (omega arith) (omega arith)

abbrev sound_header : SoundHeader
sound_header = record {
  sf_format_wav = 0x10000;
  sf_format_pcm_u8 = 5;
  sf_format_pcm_16 = 2;
  sf_format_pcm_32 = 4;
  sf_format_submask = 0xffff;
}

sizes : SizeLaws sample_size
sizes = record { size_8_bit = refl; size_16_bit = refl; size_32_bit = refl; size_invalid = refl }

abbrev recorder : Recorder ℕ
recorder = record {
  header = sound_header;
  bad_type = negsuc 0;
  invalid_operation = negsuc 37;
  audio_bytes_per_sample = sample_size;
  audio_channel_in_mask_from_count = λ count. 16;
  get_min_frame_count = λ rate format mask s. (pos 0, 1920, s);
  create = λ settings s. (pos 0, s);
  start = λ s. (pos 0, s);
  sleep_and_stop =
      λ duration s. (MediaRecord.more_data (1 ∷ 2 ∷ 3 ∷ 4 ∷ []) ∷ MediaRecord.overrun ∷ [], s);
  sf_open = λ name info s. (some 5, s);
  memcpy_to_i16_from_u8 = λ bytes. bytes;
  sf_writef_short = λ file buffer frames s. (frames, s + frames);
  sf_writef_int = λ file buffer frames s. (frames, s + frames);
  sf_close = λ file s. s;
}

record_audio-Ended_example :
    Ended recorder
      (codes "out.wav")
      (pos 10)
      pcm_16_bit
      2
      []
      (record_audio recorder (codes "out.wav") (pos 48000) (pos 2) pcm_16_bit 2001 (pos 10) [] 0)
record_audio-Ended_example =
    record_audio-Ended recorder (codes "out.wav") (pos 48000) 2 (pos 10) pcm_16_bit (omega arith)
      (omega arith) (omega arith) sizes (λ h. cc) 2000 [] 0 (omega arith) (omega arith)

abbrev player : Player ℕ
player = record {
  header = sound_header;
  audio_bytes_per_sample = sample_size;
  sine_read = λ rate channels s. (some (replicate 8192 1), s);
  sf_open = λ name s. (none, s);
  sf_readf_short = λ file n s. ((n, replicate (n * 2) 6), s);
  sf_readf_int = λ file n s. ((n, replicate (n * 4) 6), s);
  memcpy_to_u8_from_i16 = λ buffer n. replicate n 6;
  create = λ playback s. (pos 0, s);
  set_volume = λ s. s;
  start = λ s. (pos 0, s);
  sleep = λ duration s. ([], s);
  take_buffer = λ bytes s. s;
  stop = λ s. s;
  sf_close = λ file s. s;
  release = λ s. s;
}

player_laws : PlayerLaws player 1
player_laws = record {
  sizes = sizes;
  shorts_at_most = λ file n s. omega arith;
  shorts_bytes = λ file n s. length-replicate {A = ℕ} (n * 2) 6;
  ints_at_most = λ file n s. omega arith;
  ints_bytes = λ file n s. length-replicate {A = ℕ} (n * 4) 6;
  narrowed = λ temp n h. length-replicate {A = ℕ} n 6;
}

abbrev playback : LibmediaPlayback
playback = record {
  sine_data_buffer = none;
  in_file = some 5;
  audio_format = pcm_8_bit;
  sample_rate = pos 48000;
  num_channels = 1;
}

fill_buffer-Fits_example : Fits 100 (fill_buffer player playback 100 0).0
fill_buffer-Fits_example =
    fill_buffer-Fits player playback player_laws (omega arith) (omega arith) (inl (5, refl)) 100 0
      (omega arith)

abbrev stagefright : Stagefright ℕ
stagefright = record {
  invalid_operation = negsuc 37;
  audio_bytes_per_sample = sample_size;
  source_create = λ rate channels s. (pos 0, s);
  source_start = λ s. (pos 0, s);
  source_read = λ s. (some (replicate 2048 9), s);
  sleep = λ duration s. s;
  sf_open = λ name rate channels s. (some 5, s);
  sf_writef_short = λ file buffer frames s. s + frames;
  sf_close = λ file s. s;
  file_create = λ name s. (pos 0, s);
  decoded_player = λ s. s;
  sine_player = λ rate channels s. s;
  player_start = λ s. (pos 0, s);
  player_pause = λ s. s;
}

source_laws : SourceLaws stagefright 2048
source_laws = record { some_bytes = λ s {buffer} e. given buffer e }
  where
    given :
        (bytes : List ℕ)
        → ◌≡◌ {A = Option (List ℕ)} (some (replicate 2048 9)) (some bytes)
        → (1 ≤ length bytes) × (length bytes ≤ 2048)
    given bytes e =
        subst (λ b. (1 ≤ length b) × (length b ≤ 2048)) (unwrap e)
          (
            omega (arith, length-replicate {A = ℕ} 2048 9),
            omega (arith, length-replicate {A = ℕ} 2048 9),
          )
      where
        unwrap : {x y : List ℕ} → ◌≡◌ {A = Option (List ℕ)} (some x) (some y) → x ≡ y
        unwrap h = cc

save_loop-IsEnough_example :
    (5000 + 2048 < 2 ^ 31
      → IsEnough stagefright 5 2 2048 5000 0 0 (save_loop stagefright 5001 5 2 (pos 5000) 0 0))
    × ((m : ℕ) → save_loop stagefright 5001 5 2 (negsuc m) 0 0 ≡ (ended 0, 0))
save_loop-IsEnough_example =
    save_loop-IsEnough stagefright 5 2 2048 source_laws (omega arith) (omega arith) 5001 5000 0
      (omega arith)

abbrev unset : FileInfo
unset = record { samplerate = pos 0; channels = 0; format = pos 0 }

abbrev sine_flags : Flags
sine_flags = record {
  libmedia = true;
  stagefright = false;
  playback = true;
  recording = false;
  sine = true;
  filename = [];
  duration_secs = pos 10;
  num_channels = pos 1;
  sample_rate = pos 48000;
  sample_size = pos 2;
}

main-IsRequest_example :
    (IsRequest sine_flags
      × (Program.main recorder player stagefright unset 2001 sine_flags 0
          ≡ chosen recorder player stagefright unset 2001 sine_flags 0))
    ⊎ ((¬ IsRequest sine_flags)
        × (Program.main recorder player stagefright unset 2001 sine_flags 0 ≡ (exited (pos 1), 0)))
main-IsRequest_example = main-IsRequest recorder player stagefright unset 2001 sine_flags 0
