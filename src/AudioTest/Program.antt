-- ===== src/AudioTest/Program.antt =====
-- main of pts/audio/brillo-audio-test/brillo_audio_test.cpp, on the flags that the command line
-- sets.
pub mod Choice
use brillo_device_generic_br.Base.{
  ℕ, zero, suc, Bool, true, false, ◌&&◌, not, List, [], ◌∷◌, if◌then◌else◌,
}
use brillo_device_generic_br.Base.Int.{ℤ, pos, negsuc}
use brillo_device_generic_br.AudioTest.Formats.{AudioFormat, get_format, to_size_t}
use brillo_device_generic_br.AudioTest.MediaRecord
use brillo_device_generic_br.AudioTest.MediaRecord.{Recorder, RecordEnd, record_audio}
use brillo_device_generic_br.AudioTest.MediaPlayback
use brillo_device_generic_br.AudioTest.MediaPlayback.{
  FileInfo, LibmediaPlayback, Player, PlayEnd, init_sine, init_file, play,
}
use brillo_device_generic_br.AudioTest.Stagefright
use brillo_device_generic_br.AudioTest.Stagefright.{
  Stagefright, StagefrightEnd, libstagefright_record_audio, play_stagefright_file,
  play_stagefright_sine,
}

pub record Flags : Type 0 where
  pub libmedia : Bool
  pub stagefright : Bool
  pub playback : Bool
  pub recording : Bool
  pub sine : Bool
  pub filename : List ℕ
  pub duration_secs : ℤ
  pub num_channels : ℤ
  pub sample_rate : ℤ
  pub sample_size : ℤ

-- TestMode; kInvalid is only its first value.
pub data TestMode : Type 0 where
  play_libmedia play_stagefright record_libmedia record_stagefright : TestMode

-- `exited` has the exit code.
pub data TestExit : Type 0 where
  exited : ℤ → TestExit
  aborted divided_by_zero unset_read int_overflow out_of_fuel : TestExit

abbrev pub xor : Bool → Bool → Bool
xor true b = not b
xor false b = b

abbrev pub is_empty : List ℕ → Bool
is_empty [] = true
is_empty (c ∷ cs) = false

-- The checks of the arguments: whether main returns 1 at one of them.
unfoldable pub arguments_refused : Flags → Bool
arguments_refused flags =
    if not (xor flags.libmedia flags.stagefright)
    then true
    else if not (xor flags.playback flags.recording)
    then true
    else if flags.recording && is_empty flags.filename
    then true
    else if flags.playback && not (xor flags.sine (not (is_empty flags.filename)))
    then true
    else false

unfoldable pub test_mode : Flags → TestMode
test_mode flags =
    if flags.libmedia
    then (if flags.playback then play_libmedia else record_libmedia)
    else (if flags.playback then play_stagefright else record_stagefright)

abbrev record_exit : RecordEnd → TestExit
record_exit (MediaRecord.returned status) = exited status
record_exit MediaRecord.aborted = aborted
record_exit MediaRecord.divided_by_zero = divided_by_zero
record_exit MediaRecord.out_of_fuel = out_of_fuel

abbrev play_exit : PlayEnd → TestExit
play_exit (MediaPlayback.returned status) = exited status
play_exit MediaPlayback.divided_by_zero = divided_by_zero
play_exit MediaPlayback.unset_read = unset_read
play_exit MediaPlayback.int_overflow = int_overflow

abbrev stagefright_exit : StagefrightEnd → TestExit
stagefright_exit (Stagefright.returned status) = exited status
stagefright_exit Stagefright.divided_by_zero = divided_by_zero
stagefright_exit Stagefright.out_of_fuel = out_of_fuel

module _ {S : Type 0} (recorder : Recorder S) (player : Player S) (stagefright : Stagefright S)
    (unset : FileInfo) where
  unfoldable pub run_libmedia_playback : Flags → AudioFormat → S → TestExit × S
  run_libmedia_playback flags audio_format s =
      let (l_play, s1) =
        if flags.sine
        then init_sine player audio_format flags.sample_rate (to_size_t flags.num_channels) s
        else init_file player unset flags.filename s in
      let (out, s2) = play player l_play flags.duration_secs s1 in (play_exit out, s2)

  unfoldable pub run_stagefright_playback : Flags → S → TestExit × S
  run_stagefright_playback flags s =
      let (status, s') =
        if flags.sine
        then play_stagefright_sine stagefright flags.sample_rate flags.num_channels
            flags.duration_secs s
        else play_stagefright_file stagefright flags.filename flags.duration_secs s in
      (exited status, s')

  unfoldable pub run_libmedia_record : ℕ → Flags → AudioFormat → S → TestExit × S
  run_libmedia_record fuel flags audio_format s =
      let (out, s') =
        record_audio recorder flags.filename flags.sample_rate flags.num_channels audio_format fuel
          flags.duration_secs [] s in
      (record_exit out, s')

  unfoldable pub run_stagefright_record : ℕ → Flags → S → TestExit × S
  run_stagefright_record fuel flags s =
      let (out, s') =
        libstagefright_record_audio stagefright flags.filename flags.sample_rate flags.num_channels
          flags.duration_secs fuel s in
      (stagefright_exit out, s')

  unfoldable pub run_mode : ℕ → Flags → TestMode → S → TestExit × S
  run_mode fuel flags play_libmedia s = run_libmedia_playback flags (get_format flags.sample_size) s
  run_mode fuel flags play_stagefright s = run_stagefright_playback flags s
  run_mode fuel flags record_libmedia s =
      run_libmedia_record fuel flags (get_format flags.sample_size) s
  run_mode fuel flags record_stagefright s = run_stagefright_record fuel flags s

  unfoldable pub main : ℕ → Flags → S → TestExit × S
  unfolding run_mode
  main fuel flags s =
      if arguments_refused flags
      then (exited (pos 1), s)
      else run_mode fuel flags (test_mode flags) s
