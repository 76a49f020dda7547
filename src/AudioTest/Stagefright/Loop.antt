-- ===== src/AudioTest/Stagefright/Loop.antt =====
-- The loop of LibstagefrightRecordAudio (stagefright_record.cpp).
use brillo_device_generic_br.Base.{
  not_zero_of_pos, ℕ, zero, suc, ◌+◌, ◌-◌, ◌%◌, ◌^◌, ◌≡◌, ◌≤◌, ◌<◌, ◌⊎◌, inl, inr, refl, Option,
  none, some, List, length, arith, Bool-cases, ltb, lt→ltb, ltb→lt, ap, ◌∙◌, ◌/◌,
}
use brillo_device_generic_br.Base.Int.{pos, negsuc}
use brillo_device_generic_br.AudioTest.Stagefright.{
  Stagefright, to_int, int_lt, Saved, ended, after_buffer, save_loop,
}

-- Buffers have at least one byte and at most `most` bytes.
pub record SourceLaws {S : Type 0} (stagefright : Stagefright S) (most : ℕ) : Type 0 where
  pub some_bytes :
      (s : S) {buffer : List ℕ}
      → (stagefright.source_read s).0 ≡ some buffer
      → (1 ≤ length buffer) × (length buffer ≤ most)

int_lt-ltb : (w n : ℕ) → w < 2 ^ 31 → int_lt (to_int w) (pos n) ≡ ltb w n
int_lt-ltb w n h = rw (small w (omega arith), lt→ltb w (2 ^ 31) h) refl
  where
    small : (w : ℕ) → w < 2 ^ 32 → w % 2 ^ 32 ≡ w
    small w h = omega arith

-- From one state to another so many bytes were read, buffer by buffer, and the whole frames of each
-- buffer were written to the file before the next one was read.
pub data Saves {S : Type 0} (stagefright : Stagefright S) (file frame_size : ℕ)
    : S → ℕ → S → Type 0 where
  no_buffer : {s : S} → Saves stagefright file frame_size s 0 s
  saved :
      {s s1 s2 : S} {buffer : List ℕ} {more : ℕ}
      → stagefright.source_read s ≡ (some buffer, s1)
      → Saves stagefright file frame_size
          (stagefright.sf_writef_short file buffer (length buffer / frame_size) s1)
          more
          s2
      → Saves stagefright file frame_size s (length buffer + more) s2

module _ {S : Type 0} (stagefright : Stagefright S) (file frame_size : ℕ) where
  -- After `w` bytes, the loop has saved more from the state on and has ended with the sum: enough,
  -- and less than one buffer more than that; or with less, and then the source gave none in the
  -- state after the last write.
  abbrev pub IsEnough : ℕ → ℕ → ℕ → S → Saved × S → Type 0
  IsEnough most n w s out =
      (more : ℕ) × (t : S) × Saves stagefright file frame_size s more t
      × (out.0 ≡ ended (w + more))
      × (w + more < n + most)
      × (((n ≤ w + more) × (out.1 ≡ t))
          ⊎ ((w + more < n) × (stagefright.source_read t ≡ (none, out.1))))

  after_buffer-IsEnough :
      (next : ℕ → S → Saved × S) (most n w : ℕ) (s : S) (r : Option (List ℕ) × S)
      → stagefright.source_read s ≡ r
      → 1 ≤ frame_size
      → w < n
      → 1 ≤ most
      → ((buffer : List ℕ)
          → r.0 ≡ some buffer
          → (small : (w + length buffer) % 2 ^ 32 ≡ w + length buffer) × IsEnough most n
              (w + length buffer)
              (stagefright.sf_writef_short file buffer (length buffer / frame_size) r.1)
              (next
                (w + length buffer)
                (stagefright.sf_writef_short file buffer (length buffer / frame_size) r.1)))
      → IsEnough most n w s (after_buffer stagefright next file frame_size w r)
  unfolding after_buffer
  after_buffer-IsEnough next most n w s (none, s1) e h k m go =
      (0, s, no_buffer, ap ended (add_zero w), omega arith, inr (omega arith, e))
    where
      add_zero : (w : ℕ) → w ≡ w + 0
      add_zero w = omega arith
  after_buffer-IsEnough next most n w s (some buffer, s1) e h k m go =
      let (small, (more, t, saves, done, below, end)) = go buffer refl in
      let same = add_assoc w (length buffer) more in
      rw (after_buffer, not_zero_of_pos frame_size h, small)
        (
          length buffer + more,
          t,
          saved e saves,
          done ∙ ap ended same,
          omega (arith, same, below),
          elim end [
            | inl (enough, last) ↦ inl (omega (arith, same, enough), last)
            | inr (less, last) ↦ inr (omega (arith, same, less), last)
          ],
        )
    where
      add_assoc : (a b c : ℕ) → a + b + c ≡ a + (b + c)
      add_assoc a b c = omega arith

  save_from :
      (most n : ℕ)
      → SourceLaws stagefright most
      → 1 ≤ frame_size
      → 1 ≤ most
      → n + most < 2 ^ 31
      → (fuel w : ℕ) (s : S) → w < n + most
      → n - w < fuel
      → IsEnough most n w s (save_loop stagefright fuel file frame_size (pos n) w s)
  unfolding save_loop
  save_from most n laws h m room zero w s below enough = absurd (omega arith)
  save_from most n laws h m room (suc fuel) w s below enough = elim (Bool-cases (ltb w n)) [
    | inl more ↦
        rw (save_loop, int_lt-ltb w n (omega arith), more)
          (after_buffer-IsEnough (save_loop stagefright fuel file frame_size (pos n)) most n w s
            (stagefright.source_read s) refl h (ltb→lt w n more) m
            (λ buffer e.
              let (some_given, few) = laws.some_bytes s e in
              let below' : w < n = ltb→lt w n more in
              (
                small (w + length buffer) (omega arith),
                save_from most n laws h m room fuel (w + length buffer) _ (omega arith)
                    (omega arith),
              )))
    | inr done ↦
        rw (save_loop, int_lt-ltb w n (omega arith), done)
          (0, s, no_buffer, ap ended (add_zero w), omega arith, inl (ground arith, refl))
  ]
    where
      small : (w : ℕ) → w < 2 ^ 32 → w % 2 ^ 32 ≡ w
      small w h = omega arith

      add_zero : (w : ℕ) → w ≡ w + 0
      add_zero w = omega arith

  -- With buffers of at least one byte and at most a bound, frames that have bytes, and a number of
  -- bytes to write of which an int holds the sum with this bound, the loop ends within one round
  -- for each byte and one more. The whole frames of each buffer that it has read were written to the
  -- file before the next one was read; it ends with the bytes of these buffers as its count. These
  -- are the bytes that were wanted, and less than one buffer more; or they are fewer, and then the
  -- source gave no buffer when it was read once more. A negative number of bytes ends the loop at
  -- once, and nothing is read or written.
  pub save_loop-IsEnough :
      (most : ℕ)
      → SourceLaws stagefright most
      → 1 ≤ frame_size
      → 1 ≤ most
      → (fuel n : ℕ) (s : S) → n < fuel
      → (n + most < 2 ^ 31
          → IsEnough most n 0 s (save_loop stagefright fuel file frame_size (pos n) 0 s))
        × ((m : ℕ) → save_loop stagefright fuel file frame_size (negsuc m) 0 s ≡ (ended 0, s))
  unfolding save_loop
  save_loop-IsEnough most laws h m zero n s enough = absurd (omega arith)
  save_loop-IsEnough most laws h m (suc fuel) n s enough =
      (λ room. save_from most n laws h m room (suc fuel) 0 s (omega arith) (omega arith), λ k. refl)
