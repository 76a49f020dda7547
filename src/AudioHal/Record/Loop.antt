-- ===== src/AudioHal/Record/Loop.antt =====
-- The loop of the recording test (audio_hal_record_test.cpp) ends, inside its buffer.
use brillo_device_generic_br.Base.{
  [], ap, sym, subst, ◌∙◌, ℕ, zero, suc, ◌+◌, ◌-◌, ◌^◌, ◌≡◌, ◌≤◌, ◌<◌, ◌⊎◌, inl, inr, refl, Bool,
  true, false, Option, none, some, List, ◌++◌, length, length-append, ltb, arith, Bool-cases,
  ltb→lt, lt→ltb,
}
use mathlib.Core.List.{append_assoc, append-nil}
use brillo_device_generic_br.AudioHal.Record.{
  RecordHal, k_recorded_data_size, k_max_loop_time, bytes_to_copy, Recorded, stopped, after_read,
  record_loop,
}

-- The test never asks for bytes behind its buffer, and always for some.
pub bytes_to_copy-le :
    (buffer_size offset : ℕ)
    → 1 ≤ buffer_size
    → buffer_size < 2 ^ 63
    → offset < k_recorded_data_size
    → (1 ≤ bytes_to_copy buffer_size offset)
      × (offset + bytes_to_copy buffer_size offset ≤ k_recorded_data_size)
unfolding bytes_to_copy
bytes_to_copy-le buffer_size offset h k l = (ground arith, ground arith)

-- A stream that gives at most the bytes that are asked for, and a clock: `patience` bounds the reads
-- that give no byte, and those that fail before more than 30 seconds have passed.
pub record ReadLaws {S : Type 0} (hal : RecordHal S) (stream start_time : ℕ) (patience : S → ℕ)
    : Type 0 where
  pub gives :
      (n : ℕ) (s : S) {bytes : List ℕ}
      → 1 ≤ n
      → (hal.read stream n s).0 ≡ some bytes
      → let left = patience (hal.read stream n s).1 in
        (length bytes ≤ n) × (left ≤ patience s) × (left < patience s + length bytes)
  pub fails :
      (n : ℕ) (s : S)
      → (hal.read stream n s).0 ≡ none
      → let (now, s') = hal.time (hal.read stream n s).1 in
        (start_time + k_max_loop_time < now) ⊎ (patience s' < patience s)

-- The bytes that the successful reads of a stream gave, in their order, from one state to another;
-- after a read that fails the clock is looked at.
pub data Reads {S : Type 0} (hal : RecordHal S) (stream : ℕ) : S → List ℕ → S → Type 0 where
  no_read : {s : S} → Reads hal stream s [] s
  gave :
      {s s1 s2 : S} {bytes more : List ℕ} (n : ℕ)
      → hal.read stream n s ≡ (some bytes, s1)
      → Reads hal stream s1 more s2
      → Reads hal stream s (bytes ++ more) s2
  failed :
      {s s1 s2 : S} {more : List ℕ} (n : ℕ)
      → hal.read stream n s ≡ (none, s1)
      → Reads hal stream (hal.time s1).1 more s2
      → Reads hal stream s more s2

module _ {S : Type 0} (hal : RecordHal S) (stream start_time : ℕ) where
  -- The bytes fit the buffer; they fill it, or the last that was done was a read that failed and a
  -- look at the clock, which was past the limit.
  abbrev pub IsEnough : List ℕ → S → Type 0
  IsEnough recorded last =
      (length recorded ≤ k_recorded_data_size)
      × ((length recorded ≡ k_recorded_data_size)
          ⊎ ((n : ℕ) × (s s1 : S) × (hal.read stream n s ≡ (none, s1))
              × (start_time + k_max_loop_time < (hal.time s1).0)
              × (last ≡ (hal.time s1).1)))

  -- The loop has stopped with the bytes that the stream gave from a state on behind the earlier ones.
  abbrev pub IsStopped : S → List ℕ → Recorded × S → Type 0
  IsStopped s recorded out =
      (bytes : List ℕ) × (out.0 ≡ stopped (recorded ++ bytes))
      × Reads hal stream s bytes out.1
      × IsEnough (recorded ++ bytes) out.1

  after_read-IsStopped :
      (next : List ℕ → S → Recorded × S) (recorded : List ℕ) (n : ℕ) (s : S)
      (r : Option (List ℕ) × S)
      → hal.read stream n s ≡ r
      → length recorded < k_recorded_data_size
      → ((bytes : List ℕ)
          → r.0 ≡ some bytes
          → IsStopped r.1 (recorded ++ bytes) (next (recorded ++ bytes) r.1))
      → (r.0 ≡ none
          → (start_time + k_max_loop_time < (hal.time r.1).0)
            ⊎ IsStopped (hal.time r.1).1 recorded (next recorded (hal.time r.1).1))
      → IsStopped s recorded (after_read hal next start_time recorded r)
  unfolding after_read
  after_read-IsStopped next recorded n s (some bytes, s1) e h given missed =
      let (more, done, reads, enough) = given bytes refl in
      let same = append_assoc recorded bytes more in
      (
        bytes ++ more,
        done ∙ ap stopped same,
        gave n e reads,
        subst (λ b. IsEnough b (next (recorded ++ bytes) s1).1) same enough,
      )
  after_read-IsStopped next recorded n s (none, s1) e h given missed =
      elim (Bool-cases (ltb (start_time + k_max_loop_time) (hal.time s1).0)) [
        | inl late ↦
            rw (late, after_read)
              (
                [],
                ap stopped (sym (append-nil recorded)),
                failed n e no_read,
                subst (λ b. IsEnough b (hal.time s1).1) (sym (append-nil recorded))
                    (omega arith, inr (n, s, s1, e, ltb→lt _ _ late, refl)),
              )
        | inr early ↦
            rw (early, after_read)
              (elim (missed refl) [
                | inl late ↦ absurd (contrary (lt→ltb _ _ late) early)
                | inr (bytes, done, reads, enough) ↦ (bytes, done, failed n e reads, enough)
              ])
      ]
    where
      contrary : {b : Bool} → b ≡ true → b ≡ false → ⊥
      contrary p q = cc

  -- With a stream and a clock as ReadLaws describes them and a buffer size below 2 ^ 63, the loop
  -- ends, within as many rounds as there are bytes left and reads without a byte to come. It has then stored
  -- the bytes that the stream gave, in their order, which fit the buffer, and fill it unless the clock
  -- was past the limit after the last read, which failed.
  pub record_loop-IsStopped :
      (buffer_size : ℕ) (patience : S → ℕ)
      → ReadLaws hal stream start_time patience
      → 1 ≤ buffer_size
      → buffer_size < 2 ^ 63
      → (fuel : ℕ) (recorded : List ℕ) (s : S) → length recorded ≤ k_recorded_data_size
      → (k_recorded_data_size - length recorded) + patience s < fuel
      → IsStopped s recorded (record_loop hal fuel stream buffer_size start_time recorded s)
  unfolding record_loop
  record_loop-IsStopped buffer_size patience laws h k zero recorded s fits enough =
      absurd (omega arith)
  record_loop-IsStopped buffer_size patience laws h k (suc fuel) recorded s fits enough =
      elim (Bool-cases (ltb (length recorded) k_recorded_data_size)) [
        | inl more ↦
            let below : length recorded < k_recorded_data_size = ltb→lt _ _ more in
            let n = bytes_to_copy buffer_size (length recorded) in
            let (some_asked, inside) = bytes_to_copy-le buffer_size (length recorded) h k below in
            rw (more, record_loop)
              (after_read-IsStopped (record_loop hal fuel stream buffer_size start_time) recorded n
                s (hal.read stream n s) refl below
                (λ bytes e.
                  let (at_most, kept, less) = laws.gives n s some_asked e in
                  record_loop-IsStopped buffer_size patience laws h k fuel (recorded ++ bytes) _
                    (omega (arith, length-append recorded bytes))
                    (omega (arith, length-append recorded bytes)))
                (λ e. elim (laws.fails n s e) [
                  | inl late ↦ inl late
                  | inr less ↦ inr (
                      record_loop-IsStopped buffer_size patience laws h k fuel recorded _ fits
                        (omega arith))
                ]))
        | inr full ↦
            rw (full, record_loop)
              (
                [],
                ap stopped (sym (append-nil recorded)),
                no_read,
                subst (λ b. IsEnough b s) (sym (append-nil recorded)) (fits, inl (ground arith)),
              )
      ]
