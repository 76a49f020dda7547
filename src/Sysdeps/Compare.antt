-- ===== src/Sysdeps/Compare.antt =====
-- bub_safe_memcmp of bub_sysdeps_uefi.c against equality of the buffers.
use brillo_device_generic_br.Base.{
  ℕ, zero, suc, ◌≤◌, ◌≡◌, ◌↔◌, refl, ap, ap₂, ◌∙◌, some, List, [], ◌∷◌, arith, length, take, drop,
  ◌==◌, bit_or, bit_xor, get_or, ==_iff, Bool-cases, inl, inr, false,
}
use brillo_device_generic_br.Base.Bits.{zero_of_bit_or, eq_of_bit_xor, bit_xor_self}
use brillo_device_generic_br.Sysdeps.{safe_loop, not_zero, bub_safe_memcmp}

head_tail : (a b : ℕ) (xs ys : List ℕ) → a ≡ b → xs ≡ ys → a ∷ xs ≡ b ∷ ys
head_tail a b xs ys p q = ap₂ (λ x l. x ∷ l) p q

safe_loop-take :
    (n result : ℕ) (s1 s2 : List ℕ)
    → n ≤ length s1
    → n ≤ length s2
    → (r : ℕ) × (safe_loop n result s1 s2 ≡ some r)
      × ((r ≡ 0) ↔ ((result ≡ 0) × (take n s1 ≡ take n s2)))
unfolding safe_loop
safe_loop-take zero result s1 s2 p q = (result, refl, (λ h. (h, refl), λ (h, _). h))
safe_loop-take (suc n) result [] s2 p q = absurd (omega arith)
safe_loop-take (suc n) result (a ∷ s1) [] p q = absurd (omega arith)
safe_loop-take (suc n) result (a ∷ s1) (b ∷ s2) p q =
    let (r, e, (there, back)) =
      safe_loop-take n (bit_or result (bit_xor a b)) s1 s2 (omega arith) (omega arith) in
    (
      r,
      e,
      (
        λ h.
            let (acc, same) = there h in
            let (old, new) = zero_of_bit_or result (bit_xor a b) acc in
            (old, head_tail a b (take n s1) (take n s2) (eq_of_bit_xor a b new) same),
        λ (old, same).
            let equal : a ≡ b = ap (λ l. get_or l 0 0) same in
            back (ap₂ bit_or old (ap (λ x. bit_xor x b) equal ∙ bit_xor_self b), ap (drop 1) same),
      ),
    )

suc_test : (n : ℕ) → (suc n == 0) ≡ false
suc_test n = ground arith

opened :
    (s1 s2 : List ℕ) (n : ℕ) → bub_safe_memcmp s1 s2 (suc n) ≡ not_zero (safe_loop (suc n) 0 s1 s2)
unfolding bub_safe_memcmp
opened s1 s2 n = rw (suc_test n, bub_safe_memcmp)

-- Two buffers of at least `n` bytes are compared without a read outside them, and the result is 0
-- exactly when their first `n` bytes are the same.
pub bub_safe_memcmp-take :
    (s1 s2 : List ℕ) (n : ℕ)
    → n ≤ length s1
    → n ≤ length s2
    → (r : ℕ) × (bub_safe_memcmp s1 s2 n ≡ some r) × ((r ≡ 0) ↔ (take n s1 ≡ take n s2))
unfolding bub_safe_memcmp
bub_safe_memcmp-take s1 s2 zero p q = (0, refl, (λ h. refl, λ h. refl))
bub_safe_memcmp-take s1 s2 (suc n) p q =
    let (r, e, (there, back)) = safe_loop-take (suc n) 0 s1 s2 p q in
    elim (Bool-cases (r == 0)) [
      | inl z ↦ (
        0,
        opened s1 s2 n ∙ ap not_zero e ∙ ap some (rw z refl),
        (λ h. (there ((==_iff r 0).0 z)).1, λ h. refl),
      )
      | inr z ↦ (
        1,
        opened s1 s2 n ∙ ap not_zero e ∙ ap some (rw z refl),
        (λ h. absurd (omega arith), λ same. absurd (nonzero r z (back (refl, same)))),
      )
    ]
  where
    nonzero : (r : ℕ) → (r == 0) ≡ false → r ≡ 0 → ⊥
    nonzero r z h = ground arith
