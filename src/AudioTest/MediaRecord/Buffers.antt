-- ===== src/AudioTest/MediaRecord/Buffers.antt =====
-- The number of buffers that Record of libmedia_record.cpp asks for.
use brillo_device_generic_br.Base.{
  ℕ, zero, suc, ◌+◌, ◌-◌, ◌*◌, ◌%◌, ◌^◌, ◌≡◌, ◌≤◌, ◌<◌, ◌⊎◌, inl, inr, refl, false, none, some, ltb,
  arith, lt→ltb, subst, ◌∙◌,
}
use brillo_device_generic_br.AudioTest.MediaRecord.{count_buffers}

-- The least number from `b` on whose buffers hold so many frames.
abbrev pub IsLeast : ℕ → ℕ → ℕ → ℕ → Type 0
IsLeast frame_count min b n =
    (b ≤ n) × (min ≤ n * frame_count) × ((n ≡ b) ⊎ ((n - 1) * frame_count < min))

one_step :
    (frame_count b fuel min : ℕ)
    → 1 ≤ frame_count
    → b * frame_count < min
    → min < suc fuel + b * frame_count
    → min < fuel + (b + 1) * frame_count
one_step frame_count b fuel min h k l = grind arith

bounded : (frame_count b min : ℕ) → 1 ≤ frame_count → b * frame_count < min → b < min
bounded frame_count b min h k = grind arith

product_bound :
    (frame_count b min : ℕ) → b * frame_count < min → (b + 1) * frame_count < min + frame_count
product_bound frame_count b min h = grind arith

no_wrap : (n : ℕ) → n < 2 ^ 63 + 2048 → n % 2 ^ 64 ≡ n
no_wrap n h = omega arith

count_buffers_more :
    (fuel frame_count min b : ℕ)
    → b * frame_count < 2 ^ 63 + 2048
    → b < 2 ^ 63
    → b * frame_count < min
    → count_buffers (suc fuel) frame_count min b ≡ count_buffers fuel frame_count min (b + 1)
unfolding count_buffers
count_buffers_more fuel frame_count min b room small more =
    rw
      (
        count_buffers,
        no_wrap (b * frame_count) room,
        lt→ltb _ _ more,
        no_wrap (b + 1) (omega arith),
      )
      refl

count_buffers_done :
    (fuel frame_count min b : ℕ)
    → b * frame_count < 2 ^ 63 + 2048
    → min ≤ b * frame_count
    → count_buffers (suc fuel) frame_count min b ≡ some b
unfolding count_buffers
count_buffers_done fuel frame_count min b room done =
    rw (count_buffers, no_wrap (b * frame_count) room, ltb_false (b * frame_count) min done) refl
  where
    ltb_false : (m n : ℕ) → n ≤ m → ltb m n ≡ false
    ltb_false m n h = ground arith

lt-or-le : (m n : ℕ) → (m < n) ⊎ (n ≤ m)
lt-or-le m n = ground arith

count_from :
    (fuel frame_count min b : ℕ)
    → 1 ≤ frame_count
    → frame_count ≤ 2048
    → min < 2 ^ 63
    → b * frame_count < 2 ^ 63 + 2048
    → min < fuel + b * frame_count
    → (n : ℕ) × (count_buffers (suc fuel) frame_count min b ≡ some n) × IsLeast frame_count min b n
count_from zero frame_count min b h k l room enough = (
  b,
  count_buffers_done zero frame_count min b room (omega arith),
  (omega arith, omega arith, inl refl),
)
count_from (suc fuel) frame_count min b h k l room enough = elim (lt-or-le (b * frame_count) min) [
  | inl more ↦
      let small = bounded frame_count b min h more in
      let next = product_bound frame_count b min more in
      let (n, e, (least, holds, last)) =
        count_from fuel frame_count min (b + 1) h k l (omega arith)
          (one_step frame_count b fuel min h more enough) in
      (
        n,
        count_buffers_more (suc fuel) frame_count min b room (omega arith) more ∙ e,
        (
          omega arith,
          holds,
          inr (elim last [
            | inl first ↦ subst (λ m. m * frame_count < min) (before n first) more
            | inr smaller ↦ smaller
          ]),
        ),
      )
  | inr done ↦
      (b, count_buffers_done (suc fuel) frame_count min b room done, (omega arith, done, inl refl))
]
  where
    before : (n : ℕ) → n ≡ b + 1 → b ≡ n - 1
    before n first = omega arith

-- A loop on frames that have no room in a buffer never ends.
count_buffers_stalled : (fuel min b : ℕ) → 1 ≤ min → count_buffers fuel 0 min b ≡ none
unfolding count_buffers
count_buffers_stalled zero min b h = refl
count_buffers_stalled (suc fuel) min b h =
    rw (count_buffers, no_frames b, lt→ltb 0 min (omega arith))
      (count_buffers_stalled fuel min ((b + 1) % 2 ^ 64) h)
  where
    no_frames : (b : ℕ) → b * 0 % 2 ^ 64 ≡ 0
    no_frames b = omega arith

-- For at least one frame in a buffer, at most 2048, and a required number of frames below 2 ^ 63,
-- the loop ends within so many rounds and two more, with the least number of buffers, two at
-- least, that hold the required frames. When a frame is larger than the buffer, and some are
-- required, the loop never ends.
pub count_buffers-IsLeast :
    (fuel frame_count min : ℕ)
    → min < 2 ^ 63
    → min < fuel
    → (1 ≤ frame_count
        → frame_count ≤ 2048
        → (n : ℕ) × (count_buffers (suc fuel) frame_count min 2 ≡ some n)
          × IsLeast frame_count min 2 n)
      × (frame_count ≡ 0 → 1 ≤ min → count_buffers (suc fuel) frame_count min 2 ≡ none)
count_buffers-IsLeast fuel frame_count min l enough = (
  λ h k. count_from fuel frame_count min 2 h k l (omega arith) (omega arith),
  λ no_frame some_needed. rw no_frame (count_buffers_stalled (suc fuel) min 2 some_needed),
)
