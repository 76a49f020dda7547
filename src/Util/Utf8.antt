-- ===== src/Util/Utf8.antt =====
-- The loop of `utf8_to_ucs2` in bub_util.c: it ends, and it decodes what an encoder writes.
use brillo_device_generic_br.Base.{
  ℕ, zero, suc, ◌+◌, ◌%◌, ◌^◌, ◌≤◌, ◌<◌, ◌≡◌, ◌≢◌, refl, true, false, List, arith, ltb, get_elem?,
  set, length, Option-cases, Bool-cases, inl, inr, ◌⊎◌, lt_of_get_elem?,
}
use brillo_device_generic_br.Util.{
  Char16, outside, refused, unit, char_of_lead, char_at, converted, invalid, fault, out_of_fuel,
  utf8_loop, utf8_to_ucs2, more_bytes,
}

lead_length : (d : List ℕ) (i a : ℕ) {c k : ℕ} → char_of_lead d i a ≡ unit c k → (1 ≤ k) × (k ≤ 3)
unfolding char_of_lead
lead_length d i a h = ground arith

-- A character takes 1, 2 or 3 bytes and starts inside the text.
unit_length :
    (d : List ℕ) (i : ℕ) {c k : ℕ} → char_at d i ≡ unit c k → (i < length d) × (1 ≤ k) × (k ≤ 3)
unfolding char_at
unit_length d i h = elim (Option-cases (get_elem? d i)) [
  | inl e ↦ absurd (cc (rw e at h))
  | inr (a, e) ↦
      let (low, high) = lead_length d i a (rw e at h) in (lt_of_get_elem? d i e, low, high)
]

Char16-cases : (r : Char16) → (r ≡ outside) ⊎ (r ≡ refused) ⊎ ((c : ℕ) × (k : ℕ) × (r ≡ unit c k))
Char16-cases outside = inl refl
Char16-cases refused = inr (inl refl)
Char16-cases (unit c k) = inr (inr (c, k, refl))

module _ (fuel : ℕ) (d : List ℕ) (n : ℕ) (dst : List ℕ) (i8 i2 : ℕ) where
  loop_outside : char_at d i8 ≡ outside → utf8_loop (suc fuel) d n dst i8 i2 ≡ fault
  unfolding utf8_loop
  loop_outside e = rw (e, utf8_loop)

  loop_refused : char_at d i8 ≡ refused → utf8_loop (suc fuel) d n dst i8 i2 ≡ invalid dst
  unfolding utf8_loop
  loop_refused e = rw (e, utf8_loop)

  module _ (c k : ℕ) (e : char_at d i8 ≡ unit c k) where
    loop_full : ltb i2 (length dst) ≡ false → utf8_loop (suc fuel) d n dst i8 i2 ≡ fault
    unfolding utf8_loop
    loop_full full = rw (e, utf8_loop, full)

    pub loop_last :
        ltb i2 (length dst) ≡ true
        → more_bytes ((i8 + k) % 2 ^ 32) n ≡ false
        → utf8_loop (suc fuel) d n dst i8 i2 ≡ converted (set dst i2 c)
    unfolding utf8_loop
    loop_last room last = rw (e, utf8_loop, room, last)

    pub loop_more :
        ltb i2 (length dst) ≡ true
        → more_bytes ((i8 + k) % 2 ^ 32) n ≡ true
        → utf8_loop (suc fuel) d n dst i8 i2
          ≡ utf8_loop fuel d n (set dst i2 c) ((i8 + k) % 2 ^ 32) ((i2 + 1) % 2 ^ 32)
    unfolding utf8_loop
    loop_more room more = rw (e, utf8_loop, room, more)

loop_ends :
    (fuel : ℕ) (d : List ℕ) (n : ℕ) (dst : List ℕ) (i8 i2 : ℕ)
    → length d + 3 < 2 ^ 32
    → 0 < fuel
    → length d + 1 ≤ fuel + i8
    → utf8_loop fuel d n dst i8 i2 ≢ out_of_fuel
loop_ends zero d n dst i8 i2 small some_fuel enough = absurd (omega arith)
loop_ends (suc fuel) d n dst i8 i2 small some_fuel enough = elim (Char16-cases (char_at d i8)) [
  | inl e ↦ rw (loop_outside fuel d n dst i8 i2 e) (λ h. cc)
  | inr (inl e) ↦ rw (loop_refused fuel d n dst i8 i2 e) (λ h. cc)
  | inr (inr (c, k, e)) ↦
      let (inside, low, high) = unit_length d i8 e in
      elim (Bool-cases (ltb i2 (length dst))) [
        | inr full ↦ rw (loop_full fuel d n dst i8 i2 c k e full) (λ h. cc)
        | inl room ↦ elim (Bool-cases (more_bytes ((i8 + k) % 2 ^ 32) n)) [
          | inr last ↦ rw (loop_last fuel d n dst i8 i2 c k e room last) (λ h. cc)
          | inl more ↦ rw (loop_more fuel d n dst i8 i2 c k e room more) (
              loop_ends fuel d n (set dst i2 c) ((i8 + k) % 2 ^ 32) ((i2 + 1) % 2 ^ 32) small
                (omega arith) (omega arith))
        ]
      ]
]

-- The fuel of a conversion is enough: on every text of less than 4 GiB it ends in the model, where
-- the first read or write outside a buffer is an end, too.
utf8_to_ucs2_ends :
    (d : List ℕ) (n : ℕ) (dst : List ℕ) (capacity : ℕ)
    → length d + 3 < 2 ^ 32
    → utf8_to_ucs2 d n dst capacity ≢ out_of_fuel
unfolding utf8_to_ucs2
utf8_to_ucs2_ends d n dst capacity small =
    loop_ends (length d + 1) d n dst 0 0 small (omega arith) (omega arith)
