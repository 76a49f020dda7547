-- ===== src/BootKernel/CommandLine.antt =====
-- The copy of the command line in LoadParameters of bub_boot_kernel.c.
use brillo_device_generic_br.Base.{
  ℕ, zero, suc, ◌≤◌, ◌<◌, ◌≡◌, refl, false, none, some, List, [], ◌∷◌, ◌++◌, arith, length, All,
  ◌==◌,
}
use brillo_device_generic_br.BootKernel.{widen}

abbrev pub IsNonzero : ℕ → Type 0
IsNonzero c = 0 < c

nonzero_test : (c : ℕ) → IsNonzero c → (c == 0) ≡ false
nonzero_test c h = ground arith

-- A command line whose NUL comes before the end of the buffer is copied as it is, and what stands
-- behind the NUL does not matter; one that has nonzero bytes for the whole buffer runs over it.
pub widen-cases :
    (room : ℕ) (text rest : List ℕ)
    → All IsNonzero text
    → (length text < room → widen room (text ++ (0 ∷ rest)) ≡ some text)
      × (room ≤ length text → widen room (text ++ rest) ≡ none)
unfolding widen
widen-cases zero text rest h = (λ l. absurd (omega arith), λ l. refl)
widen-cases (suc room) [] rest h = (λ l. refl, λ l. absurd (omega arith))
widen-cases (suc room) (c ∷ text) rest h =
    let (fits, over) = widen-cases room text rest h.1 in
    (
      λ l. rw (nonzero_test c h.0, fits (omega arith)) refl,
      λ l. rw (nonzero_test c h.0, over (omega arith)) refl,
    )
