-- ===== src/AudioHal/Keeps.antt =====
-- What the loops of PlaySineWave and PlayFile (audio_hal_playback_test.cpp) keep.
use brillo_device_generic_br.Base.{ℕ, zero, suc, inl, inr, List, Bool-cases, leb, length, ◌*◌, ◌==◌}
use brillo_device_generic_br.Base.Int.{ℤ, pos, negsuc}
use brillo_device_generic_br.AudioHal
use brillo_device_generic_br.AudioHal.{
  Generated, generated, no_fuel, Playback, Played, write_buffers, play_generated, after_write,
  after_frames, play_loop, play_file,
}

-- A property that reads of the file and writes to the stream keep is kept by all the playing.
module _ {S : Type 0} (playback : Playback S) (P : S → Type 0)
    (write_keeps : (samples : List ℕ) (s : S) → P s → P (playback.write samples s).1)
    (read_keeps : (n : ℕ) (s : S) → P s → P (playback.sf_readf_short n s).1) where
  after_buffer_keeps :
      (next : ℕ → S → ℤ × S) (r : ℤ × S)
      → ((m : ℕ) (s : S) → P s → P (next m s).1)
      → P r.1
      → let out : ℤ × S = elim r.0 [ negsuc e ↦ (negsuc e, r.1) | pos m ↦ next m r.1 ] in P out.1
  after_buffer_keeps next (negsuc e, s) rest p = p
  after_buffer_keeps next (pos m, s) rest p = rest m s p

  write_buffers_keeps :
      (n : ℕ) (rc : ℤ) (samples : List ℕ) (size : ℕ) (s : S)
      → P s
      → P (write_buffers playback n rc samples size s).1
  unfolding write_buffers
  write_buffers_keeps zero rc samples size s p = p
  write_buffers_keeps (suc n) rc samples size s p =
      after_buffer_keeps (λ m s'. write_buffers playback n (pos m) samples size s') _
        (λ m s' q. write_buffers_keeps n (pos m) samples size s' q) (write_keeps _ s p)

  after_write_keeps :
      (next : ℕ → ℤ → S → Played × S) (n : ℕ) (r : ℤ × S)
      → ((m : ℕ) (rc : ℤ) (s : S) → P s → P (next m rc s).1)
      → P r.1
      → P (after_write playback next n r).1
  unfolding after_write
  after_write_keeps next n (negsuc e, s) rest p = p
  after_write_keeps next n (pos m, s) rest p = rest n (pos m) s p

  after_frames_keeps :
      (next : ℕ → ℤ → S → Played × S) (capacity : ℕ) (r : (ℕ × List ℕ) × S)
      → ((m : ℕ) (rc : ℤ) (s : S) → P s → P (next m rc s).1)
      → P r.1
      → P (after_frames playback next capacity r).1
  unfolding after_frames
  after_frames_keeps next capacity ((n, samples), s) rest p =
      elim (Bool-cases (leb (length samples) capacity)) [
        | inl fits ↦
            rw (after_frames, fits)
              (after_write_keeps next n (playback.write samples s) rest (write_keeps samples s p))
        | inr more ↦ rw (after_frames, more) p
      ]

  play_loop_keeps :
      (fuel frame_size capacity n : ℕ) (rc : ℤ) (s : S)
      → P s
      → P (play_loop playback fuel frame_size capacity n rc s).1
  unfolding play_loop
  play_loop_keeps zero frame_size capacity n rc s p = p
  play_loop_keeps (suc fuel) frame_size capacity zero rc s p = p
  play_loop_keeps (suc fuel) frame_size capacity (suc n) rc s p =
      after_frames_keeps (play_loop playback fuel frame_size capacity) capacity _
        (play_loop_keeps fuel frame_size capacity) (read_keeps _ s p)

  pub play_file_keeps : (fuel channels : ℕ) (s : S) → P s → P (play_file playback fuel channels s).1
  unfolding play_file
  play_file_keeps fuel channels s p = elim (Bool-cases ((2 * channels) == 0)) [
    | inl none_left ↦ rw (play_file, none_left) p
    | inr some_left ↦ rw (play_file, some_left) (play_loop_keeps fuel _ _ 1 (pos 0) s p)
  ]

  pub play_generated_keeps : (g : Generated) (s : S) → P s → P (play_generated playback g s).1
  unfolding play_generated
  play_generated_keeps (generated samples) s p = write_buffers_keeps 1000 (pos 0) samples _ s p
  play_generated_keeps AudioHal.aborted s p = p
  play_generated_keeps no_fuel s p = p
