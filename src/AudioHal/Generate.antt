-- ===== src/AudioHal/Generate.antt =====
-- The bytes of GenerateData (audio_hal_playback_test.cpp).
use brillo_device_generic_br.Base.{
  ℕ, zero, suc, ◌+◌, ◌*◌, ◌≡◌, ◌≤◌, ◌<◌, inl, inr, Bool-cases, refl, List, [], ◌++◌, arith, some,
  length, length-append, length-take, leb, take, true, false, ◌-◌, subst, sym,
}
use brillo_device_generic_br.AudioHal.{
  SineSource, k_buffer_size, Generated, generated, copy_buffer, generate_loop, generate_data,
}

-- A source with so many free buffers, which it fills.
pub record BufferLaws {G : Type 0} (source : SineSource G) (free : G → ℕ) : Type 0 where
  pub filled :
      (g : G)
      → 1 ≤ free g
      → (bytes : List ℕ) × ((source.read g).0 ≡ some bytes)
        × (length bytes ≡ k_buffer_size)
        × (free (source.read g).1 + 1 ≡ free g)

abbrev pub IsGenerated : ℕ → Generated → Type 0
IsGenerated n r = (bytes : List ℕ) × (r ≡ generated bytes) × (length bytes ≡ n)

leb_cases : (m n : ℕ) → (leb m n ≡ true → m ≤ n) × (leb m n ≡ false → n < m)
leb_cases m n = (λ h. ground arith, λ h. ground arith)

module _ {G : Type 0} (source : SineSource G) where
  -- A round copies what is left, or the whole buffer if the next rounds give the rest.
  copy_buffer-IsGenerated :
      (next : List ℕ → ℕ → G → Generated) (copied : List ℕ) (rest : ℕ) (s : G) (buffer : List ℕ)
      → (length buffer < rest
          → IsGenerated
              (length (copied ++ buffer) + (rest - length buffer))
              (next (copied ++ buffer) (rest - length buffer) s))
      → IsGenerated (length copied + rest) (copy_buffer source next copied rest (some buffer, s))
  unfolding copy_buffer
  copy_buffer-IsGenerated next copied rest s buffer go =
      elim (Bool-cases (leb rest (length buffer))) [
        | inl last ↦
            rw (last, copy_buffer)
              (
                copied ++ take rest buffer,
                refl,
                omega (
                  arith,
                  length-append copied (take rest buffer),
                  length-take rest buffer,
                  (leb_cases rest (length buffer)).0 last,
                ),
              )
        | inr more ↦
            rw (more, copy_buffer)
              (subst (λ n. IsGenerated n (next (copied ++ buffer) (rest - length buffer) s))
                (counted more) (go ((leb_cases rest (length buffer)).1 more)))
      ]
    where
      counted :
          leb rest (length buffer) ≡ false
          → length (copied ++ buffer) + (rest - length buffer) ≡ length copied + rest
      counted more =
          omega (arith, length-append copied buffer, (leb_cases rest (length buffer)).1 more)

  module _ (free : G → ℕ) (laws : BufferLaws source free) where
    generate_loop-IsGenerated :
        (fuel : ℕ) (copied : List ℕ) (rest : ℕ) (g : G)
        → 1 ≤ rest
        → rest < fuel
        → rest ≤ k_buffer_size * free g
        → IsGenerated (length copied + rest) (generate_loop source fuel copied rest g)
    unfolding generate_loop
    generate_loop-IsGenerated zero copied rest g some_left enough room = absurd (omega arith)
    generate_loop-IsGenerated (suc fuel) copied zero g some_left enough room = absurd (omega arith)
    generate_loop-IsGenerated (suc fuel) copied (suc rest) g some_left enough room =
        let (buffer, e, l, less) = laws.filled g (omega arith) in
        let g' = (source.read g).1 in
        subst
          (λ o.
            IsGenerated (length copied + suc rest)
              (copy_buffer source (generate_loop source fuel) copied (suc rest) (o, g')))
          (sym e)
          (copy_buffer-IsGenerated (generate_loop source fuel) copied (suc rest) g' buffer (λ below.
            generate_loop-IsGenerated fuel (copied ++ buffer) (suc rest - length buffer) g'
              (omega arith) (omega arith) (omega arith)))

    -- With a source that has enough free buffers of 8192 bytes, GenerateData of at least one byte
    -- ends, and gives exactly so many bytes.
    pub generate_data-IsGenerated :
        (sample_rate num_channels total : ℕ)
        → 1 ≤ total
        → total ≤ k_buffer_size * free (source.start sample_rate num_channels)
        → IsGenerated total (generate_data source sample_rate num_channels total)
    unfolding generate_data
    generate_data-IsGenerated sample_rate num_channels total some_left room =
        subst
          (λ n.
            IsGenerated n
              (generate_loop source (total + 1) [] total (source.start sample_rate num_channels)))
          zero_first
          (generate_loop-IsGenerated (total + 1) [] total (source.start sample_rate num_channels)
            some_left (omega arith) room)
      where
        zero_first : 0 + total ≡ total
        zero_first = omega arith
