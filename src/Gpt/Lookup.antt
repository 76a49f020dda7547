-- ===== src/Gpt/Lookup.antt =====
-- The answer of bub_partition_entry_by_name of bub_boot_kernel.c on a device that holds a table.
use brillo_device_generic_br.Base.{
  ℕ, zero, suc, ◌+◌, ◌*◌, ◌/◌, ◌%◌, ◌^◌, ◌≤◌, ◌<◌, ◌≡◌, refl, ap, ap₂, sym, ◌∙◌, subst, drop_all,
  Bool-cases, inl, inr, bytes_eq, List, [], ◌∷◌, ◌++◌, some, arith, All, length, take, drop,
  replicate, length-replicate, lt→ltb,
}
use mathlib.Core.List.{append-nil}
use brillo_device_generic_br.Util.{converted, utf8_to_ucs2}
use brillo_device_generic_br.Util.Forms.{encode, encode_all}
use brillo_device_generic_br.Util.Encode.{IsChar16, utf8_to_ucs2-encode_all}
use brillo_device_generic_br.Sysdeps.{PoolServices, bub_malloc_, bub_calloc, zeroed}
use brillo_device_generic_br.Gpt.{
  EfiLib, BlockIo, SearchResult, match_at, absent, outside, no_fuel, LookupResult, success,
  not_found, search_entries, after_search, after_entries, read_entries, convert_name, after_header,
  after_entry_buf, after_header_buf, bub_partition_entry_by_name, gpt_header_bytes, gpt_entry_bytes,
  max_gpt_entries, entries_per_block, entry_count, entry_at, char_bytes,
}
use brillo_device_generic_br.Gpt.Names.{
  NamedEntry, IsNameChar, IsNamed, table_bytes, CountsChars, length-table_bytes,
}
use brillo_device_generic_br.Gpt.Search.{first_named, search_entries-first_named}

-- A device of 512-byte blocks with a header in block 1 and a table of 128 entries from block 2 on,
-- which are read without errors, and a pool with room.
pub record TableDevice {S : Type 0} (services : PoolServices S) (block_io : BlockIo S)
    (gpt_header : List ℕ) (es : List NamedEntry) : Type 0 where
  pub block_size : block_io.block_size ≡ 512
  pub read_header : (s : S) → (block_io.read_blocks 1 gpt_header_bytes s).0 ≡ some gpt_header
  pub read_table :
      (s : S)
      → (block_io.read_blocks 2 (gpt_entry_bytes * max_gpt_entries) s).0 ≡ some (table_bytes es)
  pub supplied :
      (size : ℕ) (s : S)
      → (p : ℕ) × (bytes : List ℕ) × ((services.allocate_pool size s).0 ≡ some (p, bytes))
  pub named : All IsNamed es
  pub entries : length es ≡ max_gpt_entries
  pub counted : entry_count gpt_header ≤ max_gpt_entries

abbrev pub IsAscii : ℕ → Type 0
IsAscii c = (1 ≤ c) × (c < 128)

-- What the lookup answers when the search in the table ends so.
abbrev pub Answers : List NamedEntry → SearchResult → LookupResult → Type 0
Answers es (match_at i) r = (p : ℕ) × (r ≡ success p (entry_at (table_bytes es) i))
Answers es absent r = r ≡ not_found
Answers es outside r = ⊥
Answers es no_fuel r = ⊥

All-IsChar16 : (cs : List ℕ) → All IsAscii cs → All IsChar16 cs
All-IsChar16 [] h = tt
All-IsChar16 (c ∷ cs) h = (omega arith, All-IsChar16 cs h.1)

All-IsNameChar : (cs : List ℕ) → All IsAscii cs → All IsNameChar cs
All-IsNameChar [] h = tt
All-IsNameChar (c ∷ cs) h = ((h.0.0, omega arith), All-IsNameChar cs h.1)

encode-ascii : (c : ℕ) → IsAscii c → encode c ≡ c ∷ []
unfolding encode
encode-ascii c h = rw (lt→ltb c 128 h.1)

encode_all-ascii : (cs : List ℕ) → All IsAscii cs → encode_all cs ≡ cs
unfolding encode_all
encode_all-ascii [] h = refl
encode_all-ascii (c ∷ cs) h = ap₂ ◌++◌ (encode-ascii c h.0) (encode_all-ascii cs h.1)

drop-zeros : (n : ℕ) → drop n (replicate {A = ℕ} (suc n) 0) ≡ 0 ∷ []
drop-zeros zero = refl
drop-zeros (suc n) = drop-zeros n

char_bytes-append : (cs ds : List ℕ) → char_bytes (cs ++ ds) ≡ char_bytes cs ++ char_bytes ds
unfolding char_bytes
char_bytes-append [] ds = refl
char_bytes-append (c ∷ cs) ds = ap (λ t. (c % 256) ∷ (c / 256) ∷ t) (char_bytes-append cs ds)

nul_bytes : char_bytes (0 ∷ []) ≡ 0 ∷ 0 ∷ []
unfolding char_bytes
nul_bytes = refl

-- The name in UCS-2, in a buffer of zeros that has room for its NUL.
converted_name :
    (c : ℕ) (cs : List ℕ)
    → All IsAscii (c ∷ cs)
    → length (c ∷ cs) + 4 < 2 ^ 32
    → utf8_to_ucs2
        (c ∷ cs ++ (0 ∷ []))
        (length (c ∷ cs) + 1)
        (replicate (length (c ∷ cs) + 1) 0)
        (2 * (length (c ∷ cs) + 1))
      ≡ converted (c ∷ cs ++ (0 ∷ []))
converted_name c cs ascii small =
    subst
      (λ t.
        utf8_to_ucs2 (t ++ (0 ∷ [])) (length t + 1) zeros (2 * (length (c ∷ cs) + 1))
        ≡ converted (c ∷ cs ++ (0 ∷ [])))
      (encode_all-ascii (c ∷ cs) ascii)
      (utf8_to_ucs2-encode_all c cs zeros (2 * (length (c ∷ cs) + 1)) (All-IsChar16 (c ∷ cs) ascii)
          (subst (λ t. length t + 4 < 2 ^ 32) (sym (encode_all-ascii (c ∷ cs) ascii)) small)
          (omega (arith, length-replicate {0} {A = ℕ} (length (c ∷ cs) + 1) 0))
        ∙ ap (λ t. converted (c ∷ cs ++ t)) one_zero)
  where
    one_more : length (c ∷ cs) + 1 ≡ suc (length (c ∷ cs))
    one_more = omega arith

    zeros : List ℕ
    zeros = replicate (length (c ∷ cs) + 1) 0

    one_zero : drop (length (c ∷ cs)) zeros ≡ 0 ∷ []
    one_zero =
        ap (λ n. drop (length (c ∷ cs)) (replicate {A = ℕ} n 0)) one_more
        ∙ drop-zeros (length (c ∷ cs))

-- An answer of the search, not an access outside the table.
abbrev IsAnswer : SearchResult → Type 0
IsAnswer (match_at i) = Unit
IsAnswer absent = Unit
IsAnswer outside = ⊥
IsAnswer no_fuel = ⊥

first_named-IsAnswer :
    (name : List ℕ) (es : List NamedEntry) (i : ℕ) → IsAnswer (first_named name es i)
unfolding first_named
first_named-IsAnswer name [] i = tt
first_named-IsAnswer name (e ∷ es) i = elim (Bool-cases (bytes_eq e.chars name)) [
  | inl h ↦ rw h tt
  | inr h ↦ rw h (first_named-IsAnswer name es (i + 1))
]

module _ {S : Type 0} (services : PoolServices S) (lib : EfiLib) (block_io : BlockIo S)
    (gpt_header : List ℕ) (es : List NamedEntry)
    (laws : TableDevice services block_io gpt_header es) (stale : List ℕ)
    (clean : length stale ≡ gpt_entry_bytes * max_gpt_entries) (counts : CountsChars lib) (c : ℕ)
    (cs : List ℕ) (ascii : All IsAscii (c ∷ cs)) (small : length (c ∷ cs) + 4 < 2 ^ 32) where
  abbrev name : List ℕ
  name = c ∷ cs

  abbrev answer : SearchResult
  answer = first_named name (take (entry_count gpt_header) es) 0

  after_search-Answers :
      (h a n : ℕ) (r : SearchResult) (s : S)
      → IsAnswer r
      → Answers es r
          (after_search services lib block_io stale name h (some a) n (table_bytes es) r s).0
  unfolding after_search
  after_search-Answers h a n (match_at i) s ok = (a, refl)
  after_search-Answers h a n absent s ok = refl
  after_search-Answers h a n outside s ok = absurd ok
  after_search-Answers h a n no_fuel s ok = absurd ok

  answer_via {ℓ} :
      {A : Type ℓ} (step : A → LookupResult × S) {x y : A}
      → x ≡ y
      → Answers es answer (step y).0
      → Answers es answer (step x).0
  answer_via step e = subst (λ x. Answers es answer (step x).0) (sym e)

  searched :
      search_entries lib
        (max_gpt_entries + 1)
        (length name)
        (char_bytes (name ++ (0 ∷ [])))
        (table_bytes es)
        (entry_count gpt_header)
        0
      ≡ answer
  searched =
      ap
        (λ t.
          search_entries lib (max_gpt_entries + 1) (length name) t (table_bytes es)
            (entry_count gpt_header) 0)
        (char_bytes-append name (0 ∷ []) ∙ ap (λ t. char_bytes name ++ t) nul_bytes)
      ∙ search_entries-first_named lib name [] es (entry_count gpt_header) counts
          (All-IsNameChar name ascii) laws.named laws.entries laws.counted

  table_length : length (table_bytes es) ≡ gpt_entry_bytes * max_gpt_entries
  table_length = omega (arith, length-table_bytes es laws.named, laws.entries)

  whole : table_bytes es ++ drop (length (table_bytes es)) stale ≡ table_bytes es
  whole =
      ap (λ t. table_bytes es ++ t)
        (drop_all (length (table_bytes es)) stale (omega (arith, table_length)))
      ∙ append-nil (table_bytes es)

  entries_answer :
      (h a n : ℕ) (s : S)
      → Answers es answer
          (after_entries services lib block_io stale name gpt_header h
            (some a)
            n
            (char_bytes (name ++ (0 ∷ [])))
            (some (table_bytes es), s)).0
  unfolding after_entries
  entries_answer h a n s =
      rw (whole, searched, table_length)
        (after_search-Answers h a n answer s
          (first_named-IsAnswer name (take (entry_count gpt_header) es) 0))

  table_size :
      block_io.block_size * (max_gpt_entries / entries_per_block) % 2 ^ 32
      ≡ gpt_entry_bytes * max_gpt_entries
  table_size = rw laws.block_size

  converted_answer :
      (h a n : ℕ) (s : S)
      → Answers es answer
          (read_entries services lib block_io stale name gpt_header h
            (some a)
            n
            (converted (name ++ (0 ∷ [])))
            s).0
  unfolding read_entries
  converted_answer h a n s = rw (table_size, laws.read_table s) (entries_answer h a n _)

  convert_name-Answers :
      (h a n : ℕ) (zeros : List ℕ) (s : S)
      → Answers es answer
          (convert_name services lib block_io stale name gpt_header h
            (some a)
            (some (n, zeros), s)).0
  unfolding convert_name
  convert_name-Answers h a n zeros s =
      answer_via (λ r. read_entries services lib block_io stale name gpt_header h (some a) n r s)
        (converted_name c cs ascii small) (converted_answer h a n s)

  header_answer :
      (h a : ℕ) (s : S)
      → Answers es answer
          (after_header services lib block_io stale name h (some a) (some gpt_header, s)).0
  unfolding after_header bub_calloc
  header_answer h a s =
      let size = 2 * (length name + 1) in
      let (p, bytes, e) = laws.supplied size s in
      let s' = (services.allocate_pool size s).1 in
      answer_via
        (λ o.
          convert_name services lib block_io stale name gpt_header h (some a)
            (zeroed services size (o, s')))
        e (convert_name-Answers h a p (replicate size 0) s')

  entry_buf_answer :
      (h a : ℕ) (bytes : List ℕ) (s : S)
      → Answers es answer
          (after_entry_buf services lib block_io stale name h (some (a, bytes), s)).0
  unfolding after_entry_buf
  entry_buf_answer h a bytes s =
      let s' = (block_io.read_blocks 1 gpt_header_bytes s).1 in
      answer_via (λ o. after_header services lib block_io stale name h (some a) (o, s'))
        (laws.read_header s) (header_answer h a s')

  header_buf_answer :
      (h : ℕ) (bytes : List ℕ) (s : S)
      → Answers es answer (after_header_buf services lib block_io stale name (some (h, bytes), s)).0
  unfolding after_header_buf bub_malloc_
  header_buf_answer h bytes s =
      let size = gpt_entry_bytes * entries_per_block in
      let (p, entry, e) = laws.supplied size s in
      rw e (entry_buf_answer h p entry (services.allocate_pool size s).1)

  -- On a device of 512-byte blocks that reads without errors and holds a header and a table of 128
  -- readable entries, and with enough memory, the lookup of a name of ASCII characters gives the
  -- bytes of the first entry in use with that name, or reports that there is none.
  pub bub_partition_entry_by_name-first_named :
      (s : S)
      → Answers es
          (first_named (c ∷ cs) (take (entry_count gpt_header) es) 0)
          (bub_partition_entry_by_name services lib block_io stale (c ∷ cs) s).0
  unfolding bub_partition_entry_by_name bub_malloc_
  bub_partition_entry_by_name-first_named s =
      let (p, bytes, e) = laws.supplied gpt_header_bytes s in
      let s' = (services.allocate_pool gpt_header_bytes s).1 in
      answer_via (λ o. after_header_buf services lib block_io stale (c ∷ cs) (o, s')) e
        (header_buf_answer p bytes s')
