-- ===== src/Sysdeps/Print.antt =====
-- bub_print and the wrappers of the pool: what they leave allocated, and what is printed.
use brillo_device_generic_br.Base.{
  ℕ, ◌+◌, ◌*◌, ◌<◌, ◌^◌, ◌≡◌, refl, Bool, true, false, Option, none, some, List, [], ◌∷◌, ◌++◌,
  ◌==◌, if◌then◌else◌, length, replicate, arith, drop, All, codes, length-replicate, ap,
  Option-cases, inl, inr, ==_iff,
}
use brillo_device_generic_br.Util.{converted, utf8_to_ucs2}
use brillo_device_generic_br.Util.Forms.{encode_all}
use brillo_device_generic_br.Util.Encode.{IsChar16, utf8_to_ucs2-encode_all, length-encode_all}
use brillo_device_generic_br.Sysdeps.{
  PoolServices, PoolLaws, bub_free, bub_print, print_converted, print_into, zeroed,
}

module _ {S : Type 0} (services : PoolServices S) (live : S → ℕ → Bool)
    (laws : PoolLaws services live) where
  -- A live address is freed, and nothing else.
  pub bub_free-live :
      (p : ℕ) (s : S) (q : ℕ)
      → live s p ≡ true
      → live (bub_free services (some p) s) q ≡ (if q == p then false else live s q)
  unfolding bub_free
  bub_free-live p s q h = ground (arith, laws.freed p s q, laws.freed_done p s)

  -- Freeing NULL only prints a warning.
  pub bub_free-null : (s : S) (q : ℕ) → live (bub_free services none s) q ≡ live s q
  unfolding bub_free
  bub_free-null s q = ground (
    arith,
    laws.freed_null s q,
    laws.waits 3000000
        (services.print (codes "Warning: Bad bub_free: %r\n") (services.free_pool none s).1) q,
    laws.prints (codes "Warning: Bad bub_free: %r\n") (services.free_pool none s).1 q,
  )

-- What stands in the buffer that is printed: the text and the zeros behind it.
abbrev pub printed_buffer : List ℕ → List ℕ
printed_buffer chars = chars ++ drop (length chars) (replicate (length (encode_all chars) + 1) 0)

module _ {S : Type 0} (services : PoolServices S) (c : ℕ) (cs : List ℕ) where
  abbrev text : List ℕ
  text = encode_all (c ∷ cs)

  abbrev after_calloc : S → S
  after_calloc s = (services.allocate_pool ((length text + 1) * 2) s).1

  conversion :
      All IsChar16 (c ∷ cs)
      → length text + 4 < 2 ^ 32
      → utf8_to_ucs2
          (text ++ (0 ∷ []))
          (length text + 1)
          (replicate (length text + 1) 0)
          ((length text + 1) * 2)
        ≡ converted (printed_buffer (c ∷ cs))
  conversion ok small =
      utf8_to_ucs2-encode_all c cs (replicate (length text + 1) 0) ((length text + 1) * 2) ok small
        (omega
          (arith, length-encode_all (c ∷ cs), length-replicate {0} {A = ℕ} (length text + 1) 0))

  -- What bub_print does with the answer of the pool.
  abbrev pub printed : Option (ℕ × List ℕ) → S → S
  printed none s = s
  printed (some (p, bytes)) s =
      bub_free services (some p) (services.print (printed_buffer (c ∷ cs)) s)

  printed_lem :
      (o : Option (ℕ × List ℕ)) (s : S)
      → All IsChar16 (c ∷ cs)
      → length text + 4 < 2 ^ 32
      → print_into services text (zeroed services ((length text + 1) * 2) (o, s))
        ≡ some (printed o s)
  unfolding print_into print_converted
  printed_lem none s ok small = refl
  printed_lem (some (p, bytes)) s ok small =
      ap (λ r. print_converted services p r s) (conversion ok small)

module _ {S : Type 0} (services : PoolServices S) (live : S → ℕ → Bool)
    (laws : PoolLaws services live) (c : ℕ) (cs : List ℕ) where
  printed_keeps :
      (size : ℕ) (s : S) (q : ℕ)
      → live
          (printed services c cs
            (services.allocate_pool size s).0
            (services.allocate_pool size s).1)
          q
        ≡ live s q
  printed_keeps size s q = elim (Option-cases (services.allocate_pool size s).0) [
    | inl e ↦ rw (e, printed) (laws.exhausted size s q e)
    | inr ((p, bytes), e) ↦ rw (e, printed) (freed p bytes e)
  ]
    where
      s1 : S
      s1 = (services.allocate_pool size s).1

      buffer : List ℕ
      buffer = printed_buffer (c ∷ cs)

      freed :
          (p : ℕ) (bytes : List ℕ)
          → (services.allocate_pool size s).0 ≡ some (p, bytes)
          → live (bub_free services (some p) (services.print buffer s1)) q ≡ live s q
      freed p bytes e = ground (
        arith,
        bub_free-live services live laws p (services.print buffer s1) q,
        laws.prints buffer s1 q,
        laws.prints buffer s1 p,
        laws.fresh size s p bytes e,
        laws.allocated size s p bytes q e,
        laws.allocated size s p bytes p e,
        ==_iff q p,
      )

  -- bub_print of a text of at least one value below 2 ^ 16, in UTF-8, prints just these values and
  -- the zeros behind them, or nothing if there is no memory; afterwards the same addresses are
  -- allocated as before.
  pub bub_print-encode_all :
      (s : S)
      → All IsChar16 (c ∷ cs)
      → length (encode_all (c ∷ cs)) + 4 < 2 ^ 32
      → let (x, s') = services.allocate_pool ((length (encode_all (c ∷ cs)) + 1) * 2) s in
        (bub_print services (encode_all (c ∷ cs)) s ≡ some (printed services c cs x s'))
        × ((q : ℕ) → live (printed services c cs x s') q ≡ live s q)
  unfolding bub_print
  bub_print-encode_all s ok small = (printed_lem services c cs _ _ ok small, printed_keeps _ s)
