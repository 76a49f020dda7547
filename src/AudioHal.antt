-- ===== src/AudioHal.antt =====
-- The playback test of the audio HAL, pts/audio/hal-test/audio_hal_playback_test.cpp. Its source
-- of a sine wave, the sound file and the stream of the HAL are functions that the definitions
-- take.
pub mod Generate
pub mod File
pub mod Keeps
pub mod Record
pub mod Player
use brillo_device_generic_br.Base.{
  ℕ, zero, suc, ◌+◌, ◌-◌, ◌*◌, ◌/◌, ◌%◌, ◌^◌, Bool, true, false, ◌==◌, ltb, leb, Option, none, some,
  List, [], ◌∷◌, ◌++◌, if◌then◌else◌, length, take,
}
use brillo_device_generic_br.Base.Int.{ℤ, pos, negsuc}

-- kBufferSize of SineSource.cpp, the size of the buffers that the source gives.
abbrev pub k_buffer_size : ℕ
k_buffer_size = 8192

-- A SineSource: the state after its constructor (with a sample rate and a number of channels) and
-- start, and read, which gives the bytes of the next buffer, or no buffer with an error.
pub record SineSource (G : Type 0) : Type 0 where
  pub start : ℕ → ℕ → G
  pub read : G → Option (List ℕ) × G

-- `aborted` is a CHECK that fails.
pub data Generated : Type 0 where
  generated : List ℕ → Generated
  aborted no_fuel : Generated

module _ {G : Type 0} (source : SineSource G) where
  -- The loop of GenerateData: `copied` is what was copied, `rest` the bytes that are left to copy.
  unfoldable pub copy_buffer :
      (List ℕ → ℕ → G → Generated) → List ℕ → ℕ → Option (List ℕ) × G → Generated
  copy_buffer next copied rest (none, s) = aborted
  copy_buffer next copied rest (some bytes, s) = elim (leb rest (length bytes)) [
    | true ↦ generated (copied ++ take rest bytes)
    | false ↦ next (copied ++ bytes) (rest - length bytes) s
  ]

  -- No byte is left only if none was wanted; then no buffer was read.
  unfoldable pub generate_loop : ℕ → List ℕ → ℕ → G → Generated
  unfolding copy_buffer
  generate_loop zero copied rest s = no_fuel
  generate_loop (suc fuel) copied zero s = aborted
  generate_loop (suc fuel) copied (suc rest) s =
      copy_buffer (generate_loop fuel) copied (suc rest) (source.read s)

  -- Each round copies a byte at least.
  unfoldable pub generate_data : ℕ → ℕ → ℕ → Generated
  unfolding generate_loop
  generate_data sample_rate num_channels total_bytes_required =
      generate_loop (total_bytes_required + 1) [] total_bytes_required
        (source.start sample_rate num_channels)

-- The stream of the HAL and the sound file. A buffer of shorts is the list of its values, and the
-- stream is given those that it is told to take; sf_readf_short, asked for so many frames, gives
-- the number of frames that it read and writes their samples.
pub record Playback (S : Type 0) : Type 0 where
  pub get_buffer_size : S → ℕ
  pub write : List ℕ → S → ℤ × S
  pub sf_readf_short : ℕ → S → (ℕ × List ℕ) × S

-- `overrun` is a write behind the end of the buffer `data`, `check_failed` a CHECK that fails, and
-- `divided_by_zero` the division by the size of a frame.
pub data Played : Type 0 where
  returned : ℤ → Played
  overrun check_failed divided_by_zero out_of_fuel : Played

module _ {S : Type 0} (playback : Playback S) where
  -- The loop of PlaySineWave, once `rc` is there.
  unfoldable pub write_buffers : ℕ → ℤ → List ℕ → ℕ → S → ℤ × S
  write_buffers zero rc samples buffer_size s = (rc, s)
  write_buffers (suc n) rc samples buffer_size s =
      let bytes_wanted = playback.get_buffer_size s in
      let (rc', s') =
        playback.write
          (take (if leb bytes_wanted buffer_size then bytes_wanted else buffer_size) samples) s in
      elim rc' [
        | negsuc e ↦ (negsuc e, s')
        | pos m ↦ write_buffers n (pos m) samples buffer_size s'
      ]

  -- PlaySineWave, after GenerateData; `samples` are bytes here.
  unfoldable pub play_generated : Generated → S → Played × S
  unfolding write_buffers
  play_generated (generated samples) s =
      let (rc, s') = write_buffers 1000 (pos 0) samples (playback.get_buffer_size s) s in
      (returned rc, s')
  play_generated aborted s = (check_failed, s)
  play_generated no_fuel s = (out_of_fuel, s)

  -- The loop of PlayFile; `capacity` is the number of shorts that `data` has room for.
  unfoldable pub after_write : (ℕ → ℤ → S → Played × S) → ℕ → ℤ × S → Played × S
  after_write next frames_read (negsuc e, s) = (returned (negsuc e), s)
  after_write next frames_read (pos m, s) = next frames_read (pos m) s

  unfoldable pub after_frames : (ℕ → ℤ → S → Played × S) → ℕ → (ℕ × List ℕ) × S → Played × S
  unfolding after_write
  after_frames next capacity ((frames_read, samples), s) = elim (leb (length samples) capacity) [
    | true ↦ after_write next frames_read (playback.write samples s)
    | false ↦ (overrun, s)
  ]

  unfoldable pub play_loop : ℕ → ℕ → ℕ → ℕ → ℤ → S → Played × S
  unfolding after_frames
  play_loop zero k_frame_size capacity frames_read rc s = (out_of_fuel, s)
  play_loop (suc fuel) k_frame_size capacity zero rc s = (returned rc, s)
  play_loop (suc fuel) k_frame_size capacity (suc frames_read) rc s =
      after_frames (play_loop fuel k_frame_size capacity) capacity
        (playback.sf_readf_short (playback.get_buffer_size s / k_frame_size) s)

  -- A sample has two bytes; `data` is allocated with one short for each frame of a buffer.
  unfoldable pub play_file : ℕ → ℕ → S → Played × S
  unfolding play_loop
  play_file fuel num_channels s =
      let k_frame_size = 2 * num_channels in
      let played =
        play_loop fuel k_frame_size (playback.get_buffer_size s / k_frame_size) 1 (pos 0) s in
      if k_frame_size == 0 then (divided_by_zero, s) else played
