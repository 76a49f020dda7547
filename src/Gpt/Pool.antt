-- ===== src/Gpt/Pool.antt =====
-- The memory that bub_partition_entry_by_name of bub_boot_kernel.c allocates and frees.
use brillo_device_generic_br.Base.{
  ℕ, ◌≡◌, refl, ap, sym, ◌∙◌, Bool, true, false, ◌||◌, List, Option, none, some, inl, inr, ◌==◌,
  ==_iff, if◌then◌else◌, arith, Option-cases,
}
use brillo_device_generic_br.Sysdeps.{
  PoolServices, PoolLaws, bub_malloc_, bub_free, bub_calloc, zeroed,
}
use brillo_device_generic_br.Sysdeps.Print.{bub_free-live, bub_free-null}
use brillo_device_generic_br.Gpt.{
  BlockIo, LookupResult, success, not_found, fault, out_of_fuel, address,
}

-- Reads of blocks leave the pool as it is.
abbrev pub ReadsKeepPool : {S : Type 0} → BlockIo S → (S → ℕ → Bool) → Type 0
ReadsKeepPool {S} block_io live =
    (lba num_bytes : ℕ) (s : S) (q : ℕ) → live (block_io.read_blocks lba num_bytes s).1 q ≡ live s q

-- Success leaves one more address allocated, that of the entry; a failure none.
abbrev pub Balanced : {S : Type 0} → (S → ℕ → Bool) → (ℕ → Bool) → LookupResult × S → Type 0
Balanced live before (success p bytes, s) =
    (before p ≡ false) × ((q : ℕ) → live s q ≡ ((q == p) || before q))
Balanced live before (not_found, s) = (q : ℕ) → live s q ≡ before q
Balanced live before (fault, s) = Unit
Balanced live before (out_of_fuel, s) = Unit

abbrev pub is_at : Option ℕ → ℕ → Bool
is_at none q = false
is_at (some p) q = q == p

if_or : (a b : Bool) → (if a then true else b) ≡ (a || b)
if_or a b = ground arith

-- The addresses that are allocated on the way: the header's, the entry's and the name's.
pub record Held {S : Type 0} (live : S → ℕ → Bool) (before : ℕ → Bool) (h : ℕ) (e n : Option ℕ)
    (s : S) : Type 0 where
  pub owned : (q : ℕ) → live s q ≡ (is_at n q || (is_at e q || ((q == h) || before q)))
  pub fresh_header : (q : ℕ) → (q == h) ≡ true → before q ≡ false
  pub fresh_entry : (q : ℕ) → is_at e q ≡ true → ((q == h) || before q) ≡ false
  pub fresh_name : (q : ℕ) → is_at n q ≡ true → (is_at e q || ((q == h) || before q)) ≡ false

module _ {S : Type 0} (services : PoolServices S) (live : S → ℕ → Bool)
    (laws : PoolLaws services live) where
  freed :
      (o : Option ℕ) (s : S)
      → ((q : ℕ) → is_at o q ≡ true → live s q ≡ true)
      → (q : ℕ) → live (bub_free services o s) q ≡ (if is_at o q then false else live s q)
  freed none s h q = bub_free-null services live laws s q
  freed (some p) s h q = bub_free-live services live laws p s q (h p ((==_iff p p).1 refl))

  -- An address is freed that is not among the rest.
  freed_one :
      (o : Option ℕ) (rest : ℕ → Bool) (s : S)
      → ((q : ℕ) → live s q ≡ (is_at o q || rest q))
      → ((q : ℕ) → is_at o q ≡ true → rest q ≡ false)
      → (q : ℕ) → live (bub_free services o s) q ≡ rest q
  freed_one o rest s owned apart q =
      ground (arith, freed o s (λ p at. owned p ∙ or_left p at) q, owned q, apart q)
    where
      or_left : (p : ℕ) → is_at o p ≡ true → (is_at o p || rest p) ≡ true
      or_left p at = ground arith

  module _ (before : ℕ → Bool) (h : ℕ) (e n : Option ℕ) (s : S)
      (held : Held live before h e n s) where
    -- The header, then the name.
    freed_header :
        (q : ℕ) → live (bub_free services (some h) s) q ≡ (is_at n q || (is_at e q || before q))
    freed_header =
        freed_one (some h) (λ q. is_at n q || (is_at e q || before q)) s
          (λ q. ground (arith, held.owned q))
          (λ q at. ground (arith, held.fresh_header q, held.fresh_entry q, held.fresh_name q))

    freed_header_name :
        (q : ℕ)
        → live (bub_free services n (bub_free services (some h) s)) q ≡ (is_at e q || before q)
    freed_header_name =
        freed_one n (λ q. is_at e q || before q) _ freed_header
          (λ q at. ground (arith, held.fresh_name q))

    -- The name, then the header.
    freed_name : (q : ℕ) → live (bub_free services n s) q ≡ ((q == h) || (is_at e q || before q))
    freed_name =
        freed_one n (λ q. (q == h) || (is_at e q || before q)) s (λ q. ground (arith, held.owned q))
          (λ q at. ground (arith, held.fresh_name q))

    pub freed_name_header :
        (q : ℕ)
        → live (bub_free services (some h) (bub_free services n s)) q ≡ (is_at e q || before q)
    freed_name_header =
        freed_one (some h) (λ q. is_at e q || before q) _ freed_name
          (λ q at. ground (arith, held.fresh_header q, held.fresh_entry q))

    fresh_entry : (q : ℕ) → is_at e q ≡ true → before q ≡ false
    fresh_entry q at = ground (arith, held.fresh_entry q)

    pub freed_header_name_entry :
        (q : ℕ)
        → live (bub_free services e (bub_free services n (bub_free services (some h) s))) q
          ≡ before q
    freed_header_name_entry = freed_one e before _ freed_header_name fresh_entry

    pub freed_name_header_entry :
        (q : ℕ)
        → live (bub_free services e (bub_free services (some h) (bub_free services n s))) q
          ≡ before q
    freed_name_header_entry = freed_one e before _ freed_name_header fresh_entry

  module _ (before : ℕ → Bool) (h : ℕ) (e : Option ℕ) (s : S)
      (held : Held live before h e none s) where
    pub freed_header_entry :
        (q : ℕ) → live (bub_free services e (bub_free services (some h) s)) q ≡ before q
    freed_header_entry =
        freed_one e before _ (freed_header before h e none s held)
          (fresh_entry before h e none s held)

  -- An allocation adds its address, which was not in use.
  pub malloc_owned :
      (size : ℕ) (s : S) (q : ℕ)
      → live (bub_malloc_ services size s).1 q
        ≡ (is_at (address (bub_malloc_ services size s).0) q || live s q)
  unfolding bub_malloc_
  malloc_owned size s q = elim (Option-cases (services.allocate_pool size s).0) [
    | inl e ↦ rw e (laws.exhausted size s q e)
    | inr ((p, bytes), e) ↦ rw e (laws.allocated size s p bytes q e ∙ if_or (q == p) (live s q))
  ]

  pub malloc_fresh :
      (size : ℕ) (s : S) (q : ℕ)
      → is_at (address (bub_malloc_ services size s).0) q ≡ true
      → live s q ≡ false
  unfolding bub_malloc_
  malloc_fresh size s q = elim (Option-cases (services.allocate_pool size s).0) [
    | inl e ↦ rw e (λ at. absurd (cc))
    | inr ((p, bytes), e) ↦
        rw e (λ at. ap (live s) ((==_iff q p).0 at) ∙ laws.fresh size s p bytes e)
  ]

  zeroed_state : (size : ℕ) (r : Option (ℕ × List ℕ) × S) → (zeroed services size r).1 ≡ r.1
  zeroed_state size (none, s) = refl
  zeroed_state size (some (p, bytes), s) = refl

  address-zeroed :
      (size : ℕ) (r : Option (ℕ × List ℕ) × S) → address (zeroed services size r).0 ≡ address r.0
  address-zeroed size (none, s) = refl
  address-zeroed size (some (p, bytes), s) = refl

  pub calloc_owned :
      (size : ℕ) (s : S) (q : ℕ)
      → live (bub_calloc services size s).1 q
        ≡ (is_at (address (bub_calloc services size s).0) q || live s q)
  unfolding bub_calloc
  calloc_owned size s q =
      rw
        (
          zeroed_state size (services.allocate_pool size s),
          address-zeroed size (services.allocate_pool size s),
        )
        (malloc_owned size s q)

  pub calloc_fresh :
      (size : ℕ) (s : S) (q : ℕ)
      → is_at (address (bub_calloc services size s).0) q ≡ true
      → live s q ≡ false
  unfolding bub_calloc
  calloc_fresh size s q at =
      malloc_fresh size s q
        (ap (λ o. is_at o q) (sym (address-zeroed size (services.allocate_pool size s))) ∙ at)

  pub Held-same :
      (before : ℕ → Bool) (h : ℕ) (e n : Option ℕ) (s s' : S)
      → ((q : ℕ) → live s' q ≡ live s q)
      → Held live before h e n s
      → Held live before h e n s'
  Held-same before h e n s s' same held = record {
    owned = λ q. same q ∙ held.owned q;
    fresh_header = held.fresh_header;
    fresh_entry = held.fresh_entry;
    fresh_name = held.fresh_name;
  }
