-- ===== src/Sysdeps.antt =====
-- brillo_uefi_x86_64/boot_loader/bub_sysdeps_uefi.c, and bub_calloc of bub_util.c: the wrappers of
-- the firmware's memory pool and of printing, and the comparison in constant time. Memory is a
-- list of bytes, an address is a number, and NULL is `none`. The calls of the firmware are
-- functions that the definitions take; the wrappers of CompareMem, CopyMem, SetMem, strcmpa and
-- strlena are the comparison, the copy and the length of lists. PoolLaws is what the firmware
-- promises of its pool.
pub mod Compare
pub mod Print
use brillo_device_generic_br.Base.{
  ℕ, zero, suc, ◌+◌, ◌*◌, ◌≡◌, Bool, true, false, Option, none, some, List, [], ◌∷◌, ◌++◌, ◌==◌,
  if◌then◌else◌, bit_or, bit_xor, length, replicate, codes,
}
use brillo_device_generic_br.Util.{Ucs2, converted, invalid, fault, out_of_fuel, utf8_to_ucs2}

-- The loop with its accumulator `result`; `none` is a read outside a buffer.
unfoldable pub safe_loop : ℕ → ℕ → List ℕ → List ℕ → Option ℕ
safe_loop zero result us1 us2 = some result
safe_loop (suc n) result [] us2 = none
safe_loop (suc n) result (a ∷ us1) [] = none
safe_loop (suc n) result (a ∷ us1) (b ∷ us2) = safe_loop n (bit_or result (bit_xor a b)) us1 us2

-- `result != 0`
abbrev pub not_zero : Option ℕ → Option ℕ
not_zero none = none
not_zero (some result) = some (if result == 0 then 0 else 1)

unfoldable pub bub_safe_memcmp : List ℕ → List ℕ → ℕ → Option ℕ
bub_safe_memcmp s1 s2 n = if n == 0 then some 0 else not_zero (safe_loop n 0 s1 s2)

-- AllocatePool gives an address and the bytes that stand there, or `none` for an EFI error;
-- FreePool tells whether there was no error; Stall takes microseconds, Print a buffer of CHAR16
-- values.
pub record PoolServices (S : Type 0) : Type 0 where
  pub allocate_pool : ℕ → S → Option (ℕ × List ℕ) × S
  pub free_pool : Option ℕ → S → Bool × S
  pub stall : ℕ → S → S
  pub print : List ℕ → S → S
  -- BS->Exit with EFI_NOT_FOUND
  pub exit : S → S

module _ {S : Type 0} (services : PoolServices S) where
  unfoldable pub bub_malloc_ : ℕ → S → Option (ℕ × List ℕ) × S
  bub_malloc_ size s = services.allocate_pool size s

  -- The warning, without its argument, and the wait after it.
  unfoldable pub bad_free : S → S
  bad_free s = services.stall 3000000 (services.print (codes "Warning: Bad bub_free: %r\n") s)

  unfoldable pub bub_free : Option ℕ → S → S
  unfolding bad_free
  bub_free ptr s = let (done, s') = services.free_pool ptr s in if done then s' else bad_free s'

  -- The bytes are set to zero.
  abbrev pub zeroed : ℕ → Option (ℕ × List ℕ) × S → Option (ℕ × List ℕ) × S
  zeroed size (none, s) = (none, s)
  zeroed size (some (address, bytes), s) = (some (address, replicate size 0), s)

  unfoldable pub bub_calloc : ℕ → S → Option (ℕ × List ℕ) × S
  unfolding bub_malloc_
  bub_calloc size s = zeroed size (bub_malloc_ size s)

  -- `none` is a read or a write outside a buffer. The buffer of `2 * utf8_bytes` zero bytes is
  -- `utf8_bytes` CHAR16 values.
  unfoldable pub print_converted : ℕ → Ucs2 → S → Option S
  print_converted address (converted format_ucs2) s =
      some (bub_free (some address) (services.print format_ucs2 s))
  print_converted address (invalid format_ucs2) s = some (bub_free (some address) s)
  print_converted address fault s = none
  print_converted address out_of_fuel s = none

  unfoldable pub print_into : List ℕ → Option (ℕ × List ℕ) × S → Option S
  unfolding print_converted
  print_into format (none, s) = some s
  print_into format (some (address, bytes), s) =
      let utf8_bytes = length format + 1 in
      print_converted address
        (utf8_to_ucs2 (format ++ (0 ∷ [])) utf8_bytes (replicate utf8_bytes 0) (utf8_bytes * 2)) s

  unfoldable pub bub_print : List ℕ → S → Option S
  unfolding print_into bub_calloc bub_free
  bub_print format s = print_into format (bub_calloc ((length format + 1) * 2) s)

  unfoldable pub bub_abort : S → Option S
  unfolding bub_print
  bub_abort s = elim (bub_print (codes "\nABORTING...\n") s) [
    | none ↦ none
    | some s' ↦ some (services.exit (services.stall 5000000 s'))
  ]

-- What the firmware promises of its pool: `live s p` tells whether `p` is the address of a pool
-- that was allocated and not freed. An allocation gives an address that is not in use, only a live
-- one can be freed, and printing and waiting leave the pool as it is.
pub record PoolLaws {S : Type 0} (services : PoolServices S) (live : S → ℕ → Bool) : Type 0 where
  pub fresh :
      (size : ℕ) (s : S) (p : ℕ) (bytes : List ℕ)
      → (services.allocate_pool size s).0 ≡ some (p, bytes)
      → live s p ≡ false
  pub allocated :
      (size : ℕ) (s : S) (p : ℕ) (bytes : List ℕ) (q : ℕ)
      → (services.allocate_pool size s).0 ≡ some (p, bytes)
      → live (services.allocate_pool size s).1 q ≡ (if q == p then true else live s q)
  pub exhausted :
      (size : ℕ) (s : S) (q : ℕ)
      → (services.allocate_pool size s).0 ≡ none
      → live (services.allocate_pool size s).1 q ≡ live s q
  pub freed :
      (p : ℕ) (s : S) (q : ℕ)
      → live s p ≡ true
      → live (services.free_pool (some p) s).1 q ≡ (if q == p then false else live s q)
  pub freed_done : (p : ℕ) (s : S) → live s p ≡ true → (services.free_pool (some p) s).0 ≡ true
  pub freed_null : (s : S) (q : ℕ) → live (services.free_pool none s).1 q ≡ live s q
  pub waits : (us : ℕ) (s : S) (q : ℕ) → live (services.stall us s) q ≡ live s q
  pub prints : (chars : List ℕ) (s : S) (q : ℕ) → live (services.print chars s) q ≡ live s q
