-- ===== src/Gpt/Balance.antt =====
-- bub_partition_entry_by_name of bub_boot_kernel.c frees what it allocates, on every way out.
use brillo_device_generic_br.Base.{
  ℕ, ◌+◌, ◌*◌, ◌/◌, ◌%◌, ◌^◌, ◌≡◌, refl, Bool, true, false, ◌||◌, List, ◌++◌, Option, none, some,
  inl, inr, ◌==◌, ==_iff, arith, Bool-cases, length, ltb, drop,
}
use brillo_device_generic_br.Util.{Ucs2, converted, invalid}
use brillo_device_generic_br.Util
use brillo_device_generic_br.Sysdeps.{PoolServices, PoolLaws, bub_malloc_, bub_calloc}
use brillo_device_generic_br.Gpt.{
  EfiLib, BlockIo, SearchResult, match_at, absent, outside, no_fuel, give_up, after_search,
  after_entries, read_entries, convert_name, after_header, after_entry_buf, after_header_buf,
  address, bub_partition_entry_by_name, gpt_entry_bytes, max_gpt_entries, entries_per_block,
  char_bytes, gpt_header_bytes,
}
use brillo_device_generic_br.Gpt.Pool.{
  ReadsKeepPool, Balanced, Held, is_at, freed_header_name_entry, freed_name_header_entry,
  freed_name_header, freed_header_entry, malloc_owned, malloc_fresh, calloc_owned, calloc_fresh,
  Held-same,
}

module _ {S : Type 0} (services : PoolServices S) (live : S → ℕ → Bool)
    (laws : PoolLaws services live) (lib : EfiLib) (block_io : BlockIo S)
    (keeps : ReadsKeepPool block_io live) (stale partition_name : List ℕ) (before : ℕ → Bool) where
  give_up_named :
      (h p : ℕ) (e : Option ℕ) (s : S)
      → Held live before h e (some p) s
      → Balanced live before (give_up services lib block_io stale partition_name h e (some p) s)
  unfolding give_up
  give_up_named h p e s held = freed_header_name_entry services live laws before h e (some p) s held

  give_up_unnamed :
      (h : ℕ) (e : Option ℕ) (s : S)
      → Held live before h e none s
      → Balanced live before (give_up services lib block_io stale partition_name h e none s)
  unfolding give_up
  give_up_unnamed h e s held = freed_header_entry services live laws before h e s held

  after_search-Balanced :
      (h : ℕ) (e : Option ℕ) (p : ℕ) (all : List ℕ) (r : SearchResult) (s : S)
      → Held live before h e (some p) s
      → Balanced live before (after_search services lib block_io stale partition_name h e p all r s)
  unfolding after_search
  after_search-Balanced h e p all absent s held =
      freed_name_header_entry services live laws before h e (some p) s held
  after_search-Balanced h (some a) p all (match_at i) s held = (
    ground (arith, held.fresh_entry a ((==_iff a a).1 refl)),
    freed_name_header services live laws before h (some a) (some p) s held,
  )
  after_search-Balanced h none p all (match_at i) s held = tt
  after_search-Balanced h none p all outside s held = tt
  after_search-Balanced h (some a) p all outside s held = tt
  after_search-Balanced h none p all no_fuel s held = tt
  after_search-Balanced h (some a) p all no_fuel s held = tt

  after_entries-Balanced :
      (gpt_header : List ℕ) (h : ℕ) (e : Option ℕ) (p : ℕ) (ucs2 : List ℕ) (o : Option (List ℕ))
      (s : S)
      → Held live before h e (some p) s
      → Balanced live before
          (after_entries services lib block_io stale partition_name gpt_header h e p ucs2 (o, s))
  unfolding after_entries
  after_entries-Balanced gpt_header h e p ucs2 none s held = give_up_named h p e s held
  after_entries-Balanced gpt_header h e p ucs2 (some bytes) s held =
      elim (Bool-cases (ltb (gpt_entry_bytes * max_gpt_entries) (length bytes))) [
        | inl big ↦ rw big tt
        | inr fits ↦
            rw fits (after_search-Balanced h e p (bytes ++ drop (length bytes) stale) _ s held)
      ]

  read_entries-Balanced :
      (gpt_header : List ℕ) (h : ℕ) (e : Option ℕ) (p : ℕ) (r : Ucs2) (s : S)
      → Held live before h e (some p) s
      → Balanced live before
          (read_entries services lib block_io stale partition_name gpt_header h e p r s)
  unfolding read_entries
  read_entries-Balanced gpt_header h e p (converted chars) s held =
      let size = block_io.block_size * (max_gpt_entries / entries_per_block) % 2 ^ 32 in
      let read = block_io.read_blocks 2 size s in
      after_entries-Balanced gpt_header h e p (char_bytes chars) read.0 read.1
        (Held-same services live laws before h e (some p) s read.1 (keeps 2 size s) held)
  read_entries-Balanced gpt_header h e p (invalid chars) s held = give_up_named h p e s held
  read_entries-Balanced gpt_header h e p Util.fault s held = tt
  read_entries-Balanced gpt_header h e p Util.out_of_fuel s held = tt

  convert_name-Balanced :
      (gpt_header : List ℕ) (h : ℕ) (e : Option ℕ) (x : Option (ℕ × List ℕ)) (s : S)
      → Held live before h e (address x) s
      → Balanced live before
          (convert_name services lib block_io stale partition_name gpt_header h e (x, s))
  unfolding convert_name
  convert_name-Balanced gpt_header h e none s held = give_up_unnamed h e s held
  convert_name-Balanced gpt_header h e (some (p, zeros)) s held =
      read_entries-Balanced gpt_header h e p _ s held

  Held-calloc :
      (h : ℕ) (e : Option ℕ) (size : ℕ) (s : S)
      → Held live before h e none s
      → Held live before h e (address (bub_calloc services size s).0) (bub_calloc services size s).1
  Held-calloc h e size s held = record {
    owned = λ q. ground (arith, calloc_owned services live laws size s q, held.owned q);
    fresh_header = held.fresh_header;
    fresh_entry = held.fresh_entry;
    fresh_name = λ q at. ground (arith, calloc_fresh services live laws size s q at, held.owned q);
  }

  after_header-Balanced :
      (h : ℕ) (e : Option ℕ) (o : Option (List ℕ)) (s : S)
      → Held live before h e none s
      → Balanced live before (after_header services lib block_io stale partition_name h e (o, s))
  unfolding after_header
  after_header-Balanced h e none s held = give_up_unnamed h e s held
  after_header-Balanced h e (some gpt_header) s held =
      let size = 2 * (length partition_name + 1) in
      let x = bub_calloc services size s in
      convert_name-Balanced gpt_header h e x.0 x.1 (Held-calloc h e size s held)

  after_entry_buf-Balanced :
      (h : ℕ) (x : Option (ℕ × List ℕ)) (s : S)
      → Held live before h (address x) none s
      → Balanced live before (after_entry_buf services lib block_io stale partition_name h (x, s))
  unfolding after_entry_buf
  after_entry_buf-Balanced h x s held =
      let read = block_io.read_blocks 1 gpt_header_bytes s in
      after_header-Balanced h (address x) read.0 read.1 (
        Held-same services live laws before h (address x) none s read.1 (keeps 1 gpt_header_bytes s)
          held)

module _ {S : Type 0} (services : PoolServices S) (live : S → ℕ → Bool)
    (laws : PoolLaws services live) (lib : EfiLib) (block_io : BlockIo S)
    (keeps : ReadsKeepPool block_io live) (stale partition_name : List ℕ) where
  Held-header :
      (s0 s : S) (h : ℕ) (size : ℕ)
      → ((q : ℕ) → live s q ≡ ((q == h) || live s0 q))
      → ((q : ℕ) → (q == h) ≡ true → live s0 q ≡ false)
      → Held live
          (live s0)
          h
          (address (bub_malloc_ services size s).0)
          none
          (bub_malloc_ services size s).1
  Held-header s0 s h size owned fresh = record {
    owned = λ q. ground (arith, malloc_owned services live laws size s q, owned q);
    fresh_header = fresh;
    fresh_entry = λ q at. ground (arith, malloc_fresh services live laws size s q at, owned q);
    fresh_name = λ q at. absurd (cc);
  }

  after_header_buf-Balanced :
      (s0 : S) (x : Option (ℕ × List ℕ)) (s : S)
      → ((q : ℕ) → live s q ≡ (is_at (address x) q || live s0 q))
      → ((q : ℕ) → is_at (address x) q ≡ true → live s0 q ≡ false)
      → Balanced live (live s0) (after_header_buf services lib block_io stale partition_name (x, s))
  unfolding after_header_buf
  after_header_buf-Balanced s0 none s owned fresh = owned
  after_header_buf-Balanced s0 (some (h, bytes)) s owned fresh =
      let size = gpt_entry_bytes * entries_per_block in
      let x = bub_malloc_ services size s in
      after_entry_buf-Balanced services live laws lib block_io keeps stale partition_name (live s0)
        h x.0 x.1 (Held-header s0 s h size owned fresh)

  -- When bub_partition_entry_by_name returns, for an error or a failed allocation, too, it has freed
  -- what it allocated, but for the entry that it gives to its caller when it succeeds: the address of
  -- that was not in use before. Nothing is said of a run that accesses memory outside its buffers (such
  -- as a match after the allocation of the entry failed, blocks for which the table is read behind
  -- its array, a name without an end) or that goes on searching without an end.
  pub bub_partition_entry_by_name-Balanced :
      (s : S)
      → Balanced live
          (live s)
          (bub_partition_entry_by_name services lib block_io stale partition_name s)
  unfolding bub_partition_entry_by_name
  bub_partition_entry_by_name-Balanced s =
      let x = bub_malloc_ services gpt_header_bytes s in
      after_header_buf-Balanced s x.0 x.1 (malloc_owned services live laws gpt_header_bytes s)
        (malloc_fresh services live laws gpt_header_bytes s)
