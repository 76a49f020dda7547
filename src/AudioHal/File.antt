-- ===== src/AudioHal/File.antt =====
-- The buffer of PlayFile (audio_hal_playback_test.cpp).
use brillo_device_generic_br.Base.{
  not_zero_of_pos, ℕ, zero, suc, ◌*◌, ◌/◌, ◌≡◌, ◌≢◌, ◌≤◌, ◌↔◌, ◌<◌, refl, true, false, List, arith,
  length, leb, ◌∙◌, ap, sym, subst,
}
use brillo_device_generic_br.Base.Int.{ℤ, pos, negsuc}
use brillo_device_generic_br.AudioHal.{
  Playback, Played, overrun, after_write, after_frames, play_loop, play_file,
}

-- A stream whose buffer size does not change, and a file of so many channels: a read gives at most
-- the frames that were asked for, with a sample for each channel.
pub record FileLaws {S : Type 0} (playback : Playback S) (num_channels size : ℕ) : Type 0 where
  pub buffer_size : (s : S) → playback.get_buffer_size s ≡ size
  pub at_most : (n : ℕ) (s : S) → (playback.sf_readf_short n s).0.0 ≤ n
  pub samples :
      (n : ℕ) (s : S)
      → let (frames_read, samples) = (playback.sf_readf_short n s).0 in
        length samples ≡ frames_read * num_channels

module _ {S : Type 0} (playback : Playback S) (size : ℕ) where
  after_write_mono :
      (next : ℕ → ℤ → S → Played × S) (n : ℕ) (r : ℤ × S)
      → ((n : ℕ) (rc : ℤ) (s : S) → (next n rc s).0 ≢ overrun)
      → (after_write playback next n r).0 ≢ overrun
  unfolding after_write
  after_write_mono next n (negsuc e, s) rest = λ h. cc
  after_write_mono next n (pos m, s) rest = rest n (pos m) s

  after_frames_mono :
      (next : ℕ → ℤ → S → Played × S) (capacity : ℕ) (r : (ℕ × List ℕ) × S)
      → ((n : ℕ) (rc : ℤ) (s : S) → (next n rc s).0 ≢ overrun)
      → leb (length r.0.1) capacity ≡ true
      → (after_frames playback next capacity r).0 ≢ overrun
  unfolding after_frames
  after_frames_mono next capacity ((n, samples), s) rest fits =
      rw (fits, after_frames) (after_write_mono next n (playback.write samples s) rest)

  room : (n m l : ℕ) → n ≤ m → l ≡ n * 1 → leb l m ≡ true
  room n m l h e = ground arith

  play_loop_mono :
      (laws : FileLaws playback 1 size) (fuel n : ℕ) (rc : ℤ) (s : S)
      → (play_loop playback fuel 2 (size / 2) n rc s).0 ≢ overrun
  unfolding play_loop
  play_loop_mono laws zero n rc s = λ h. cc
  play_loop_mono laws (suc fuel) zero rc s = λ h. cc
  play_loop_mono laws (suc fuel) (suc n) rc s =
      let frames = playback.get_buffer_size s / 2 in
      after_frames_mono (play_loop playback fuel 2 (size / 2)) (size / 2)
        (playback.sf_readf_short frames s) (play_loop_mono laws fuel)
        (room (playback.sf_readf_short frames s).0.0 (size / 2) _
          (subst (λ b. (playback.sf_readf_short frames s).0.0 ≤ b / 2) (laws.buffer_size s)
            (laws.at_most frames s))
          (laws.samples frames s))

  product : (n c : ℕ) → 1 ≤ n → 2 ≤ c → n < n * c
  product n c h k = grind arith

  no_room : (n l c : ℕ) → 1 ≤ n → 2 ≤ c → l ≡ n * c → leb l n ≡ false
  no_room n l c h k e = ground (arith, product n c h k)

  after_frames-overrun :
      (next : ℕ → ℤ → S → Played × S) (capacity : ℕ) (r : (ℕ × List ℕ) × S)
      → leb (length r.0.1) capacity ≡ false
      → (after_frames playback next capacity r).0 ≡ overrun
  unfolding after_frames
  after_frames-overrun next capacity ((n, samples), s) more = rw (more, after_frames) refl

  -- In the first round, where the read gives all the frames.
  first_round :
      (fuel c : ℕ) (s : S)
      → FileLaws playback c size
      → 2 ≤ c
      → 1 ≤ size / (2 * c)
      → (playback.sf_readf_short (size / (2 * c)) s).0.0 ≡ size / (2 * c)
      → (play_file playback (suc fuel) c s).0 ≡ overrun
  unfolding play_file play_loop
  first_round fuel c s laws two some_frame full =
      let frames = size / (2 * c) in
      rw (play_file, not_zero_of_pos (2 * c) (omega arith))
        (subst
          (λ b.
            (after_frames playback (play_loop playback fuel (2 * c) (b / (2 * c))) (b / (2 * c))
              (playback.sf_readf_short (b / (2 * c)) s)).0
            ≡ overrun)
          (sym (laws.buffer_size s))
          (after_frames-overrun (play_loop playback fuel (2 * c) frames) frames
            (playback.sf_readf_short frames s)
            (no_room frames _ c some_frame two (laws.samples frames s ∙ ap (λ n. n * c) full))))

  mono : (fuel : ℕ) (s : S) → FileLaws playback 1 size → (play_file playback fuel 1 s).0 ≢ overrun
  unfolding play_file
  mono fuel s laws =
      subst (λ b. (play_loop playback fuel 2 (b / 2) 1 (pos 0) s).0 ≢ overrun)
        (sym (laws.buffer_size s)) (play_loop_mono laws fuel 1 (pos 0) s)

-- On a stream whose buffer size does not change, of at least one frame, and a file of which a read
-- gives at most the frames that are asked for, with a sample for each channel, and the first one all
-- of them, PlayFile on a file of at least one channel writes behind its
-- buffer exactly when the file has two channels or more: the buffer has room for one sample of each
-- frame.
pub play_file-overrun :
    {S : Type 0} (playback : Playback S) (size fuel num_channels : ℕ) (s : S)
    → FileLaws playback num_channels size
    → 1 ≤ num_channels
    → 1 ≤ size / (2 * num_channels)
    → (playback.sf_readf_short (size / (2 * num_channels)) s).0.0 ≡ size / (2 * num_channels)
    → ((play_file playback (suc fuel) num_channels s).0 ≡ overrun) ↔ (2 ≤ num_channels)
play_file-overrun playback size fuel c s laws some_channel some_frame full = (
  λ e. several c laws some_channel e,
  λ two. first_round playback size fuel c s laws two some_frame full,
)
  where
    several :
        (c : ℕ)
        → FileLaws playback c size
        → 1 ≤ c
        → (play_file playback (suc fuel) c s).0 ≡ overrun
        → 2 ≤ c
    several zero laws h e = absurd (omega arith)
    several (suc zero) laws h e = absurd (mono playback size (suc fuel) s laws e)
    several (suc (suc n)) laws h e = omega arith
