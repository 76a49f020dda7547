-- ===== src/AudioTest/MediaPlayback.antt =====
-- pts/audio/brillo-audio-test/libmedia_playback.cpp: LibmediaPlayback. AudioTrack, its thread, the
-- sound file, the sine source and the conversion of samples are parameters; messages are left out.
-- Memory is a list of bytes.
pub mod Fits
use brillo_device_generic_br.Base.{
  ℕ, zero, suc, ◌+◌, ◌*◌, ◌/◌, ◌%◌, ◌^◌, Bool, true, false, ◌==◌, ltb, not, Option, none, some,
  List, [], ◌∷◌, ◌++◌, if◌then◌else◌, length, take,
}
use brillo_device_generic_br.Base.Int.{ℤ, pos, negsuc}
use brillo_device_generic_br.AudioTest.Formats.{
  AudioFormat, SoundHeader, to_size_t, convert_to_audio_format,
}

-- SF_INFO, as sf_open fills it when it succeeds.
pub record FileInfo : Type 0 where
  pub samplerate : ℤ
  pub channels : ℕ
  pub format : ℤ

-- The members of LibmediaPlayback; `sine_data_buffer` is `none` as long as it is not set.
pub record LibmediaPlayback : Type 0 where
  pub sine_data_buffer : Option (List ℕ)
  pub in_file : Option ℕ
  pub audio_format : AudioFormat
  pub sample_rate : ℤ
  pub num_channels : ℕ

-- A callback with EVENT_MORE_DATA and the size of its buffer, with EVENT_STREAM_END, or another.
pub data TrackEvent : Type 0 where
  more_data : ℕ → TrackEvent
  stream_end unexpected : TrackEvent

-- A status is OK if it is 0.
pub record Player (S : Type 0) : Type 0 where
  pub header : SoundHeader
  pub audio_bytes_per_sample : AudioFormat → ℕ
  -- SineSource: the constructor, start and the first read
  pub sine_read : ℤ → ℕ → S → Option (List ℕ) × S
  pub sf_open : List ℕ → S → Option (ℕ × FileInfo) × S
  -- file, number of frames: how many were read, and the bytes that are written to the buffer
  pub sf_readf_short : ℕ → ℕ → S → (ℕ × List ℕ) × S
  pub sf_readf_int : ℕ → ℕ → S → (ℕ × List ℕ) × S
  -- buffer, number of samples
  pub memcpy_to_u8_from_i16 : List ℕ → ℕ → List ℕ
  -- the constructor of AudioTrack and initCheck
  pub create : LibmediaPlayback → S → ℤ × S
  pub set_volume : S → S
  pub start : S → ℤ × S
  -- sleep, with the callbacks meanwhile
  pub sleep : ℤ → S → List TrackEvent × S
  -- the bytes that a callback leaves in its buffer
  pub take_buffer : List ℕ → S → S
  pub stop : S → S
  pub sf_close : ℕ → S → S
  pub release : S → S

-- What FillBuffer returns, and what it writes to the buffer. `int_overflow` is a number of bytes
-- that an int is to hold and that is 2 ^ 31 or more (so it is also with a negative number of channels,
-- which is a large size_t): the model of the run ends there.
pub data Filled : Type 0 where
  filled : ℕ → List ℕ → Filled
  divided_by_zero no_buffer int_overflow : Filled

-- The test that a product of two ints is one.
abbrev pub is_int : ℕ → Bool
is_int n = ltb n (2 ^ 31)

-- `unset_read` is a use of the sine buffer before it was set.
pub data PlayEnd : Type 0 where
  returned : ℤ → PlayEnd
  divided_by_zero unset_read int_overflow : PlayEnd

module _ {S : Type 0} (player : Player S) where
  unfoldable pub init_sine : AudioFormat → ℤ → ℕ → S → LibmediaPlayback × S
  init_sine audio_format sample_rate num_channels s =
      let (buffer, s') = player.sine_read sample_rate num_channels s in
      (
        record {
          sine_data_buffer = buffer;
          in_file = none;
          audio_format = audio_format;
          sample_rate = sample_rate;
          num_channels = num_channels;
        },
        s',
      )

  -- The fields of `info` that are used when sf_open fails are parameters: they are never set.
  unfoldable pub init_file : FileInfo → List ℕ → S → LibmediaPlayback × S
  init_file unset filename s =
      let (opened, s') = player.sf_open filename s in
      elim opened [
        | none ↦ (
          record {
            sine_data_buffer = none;
            in_file = none;
            audio_format = convert_to_audio_format player.header unset.format;
            sample_rate = unset.samplerate;
            num_channels = unset.channels;
          },
          s',
        )
        | some (file, info) ↦ (
          record {
            sine_data_buffer = none;
            in_file = some file;
            audio_format = convert_to_audio_format player.header info.format;
            sample_rate = info.samplerate;
            num_channels = info.channels;
          },
          s',
        )
      ]

  -- The samples of one byte go through a buffer of their own.
  unfoldable pub narrow : ℕ → ℕ → (ℕ × List ℕ) × S → Filled × S
  narrow frame_size sample_size ((frames_read, temp), s) =
      if is_int (frame_size * frames_read)
      then (
        filled (frame_size * frames_read)
            (player.memcpy_to_u8_from_i16 temp (frames_read * frame_size / sample_size)),
        s,
      )
      else (int_overflow, s)

  unfoldable pub read_frames : ℕ → (ℕ × List ℕ) × S → Filled × S
  read_frames frame_size ((frames_read, bytes), s) =
      if is_int (frame_size * frames_read)
      then (filled (frame_size * frames_read) bytes, s)
      else (int_overflow, s)

  -- With a frame of at least one byte the product is not below the number of frames; so this
  -- number is an int, too, where the product is.
  unfoldable pub fill_from_file : LibmediaPlayback → ℕ → ℕ → S → Filled × S
  unfolding narrow read_frames
  fill_from_file playback file size s =
      let sample_size = player.audio_bytes_per_sample playback.audio_format in
      let frame_size = sample_size * playback.num_channels in
      if not (is_int frame_size)
      then (int_overflow, s)
      else if sample_size == 1
      then if frame_size == 0
        then (divided_by_zero, s)
        else narrow frame_size sample_size (player.sf_readf_short file (size / frame_size) s)
      else if sample_size == 2
      then if frame_size == 0
        then (divided_by_zero, s)
        else read_frames frame_size (player.sf_readf_short file (size / frame_size) s)
      else if sample_size == 4
      then if frame_size == 0
        then (divided_by_zero, s)
        else read_frames frame_size (player.sf_readf_int file (size / frame_size) s)
      else (filled 0 [], s)

  -- With a sine buffer that was never set, memory is read that the object does not own.
  unfoldable pub fill_from_sine : Option (List ℕ) → ℕ → S → Filled × S
  fill_from_sine none size s = (no_buffer, s)
  fill_from_sine (some bytes) size s =
      let n = if ltb size (length bytes) then size else length bytes in (filled n (take n bytes), s)

  unfoldable pub fill_buffer : LibmediaPlayback → ℕ → S → Filled × S
  unfolding fill_from_file fill_from_sine
  fill_buffer playback size s = elim playback.in_file [
    | none ↦ fill_from_sine playback.sine_data_buffer size s
    | some file ↦ fill_from_file playback file size s
  ]

  unfoldable pub after_fill : (S → PlayEnd × S) → Filled × S → PlayEnd × S
  after_fill next (filled size bytes, s) = next (player.take_buffer (take size bytes) s)
  after_fill next (divided_by_zero, s) = (divided_by_zero, s)
  after_fill next (no_buffer, s) = (unset_read, s)
  after_fill next (int_overflow, s) = (int_overflow, s)

  -- AudioCallback, for one event after the other.
  unfoldable pub audio_callbacks :
      LibmediaPlayback → (S → PlayEnd × S) → List TrackEvent → S → PlayEnd × S
  unfolding after_fill fill_buffer
  audio_callbacks playback next [] s = next s
  audio_callbacks playback next (more_data size ∷ events) s =
      after_fill (audio_callbacks playback next events) (fill_buffer playback size s)
  audio_callbacks playback next (stream_end ∷ events) s = audio_callbacks playback next events s
  audio_callbacks playback next (unexpected ∷ events) s = audio_callbacks playback next events s

  -- The status is OK here.
  unfoldable pub finish : LibmediaPlayback → S → PlayEnd × S
  finish playback s = elim playback.in_file [
    | some file ↦ (returned (pos 0), player.sf_close file s)
    | none ↦ elim playback.sine_data_buffer [
      | none ↦ (unset_read, s)
      | some _ ↦ (returned (pos 0), player.release s)
    ]
  ]

  unfoldable pub after_start : LibmediaPlayback → ℤ → ℤ × S → PlayEnd × S
  unfolding audio_callbacks finish
  after_start playback duration_secs (pos zero, s) =
      let (events, s') = player.sleep duration_secs s in
      audio_callbacks playback (λ s''. finish playback (player.stop s'')) events s'
  after_start playback duration_secs (status, s) = (returned status, s)

  unfoldable pub after_create : LibmediaPlayback → ℤ → ℤ × S → PlayEnd × S
  unfolding after_start
  after_create playback duration_secs (pos zero, s) =
      after_start playback duration_secs (player.start (player.set_volume s))
  after_create playback duration_secs (status, s) = (returned status, s)

  unfoldable pub play : LibmediaPlayback → ℤ → S → PlayEnd × S
  unfolding after_create
  play playback duration_secs s = after_create playback duration_secs (player.create playback s)
