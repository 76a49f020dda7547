-- ===== src/Gpt/Partition.antt =====
-- The lookup in the partition table in the place that bub_ops_uefi.c has for it: a read of a
-- partition by its name, from the table to the bytes of the disk.
use brillo_device_generic_br.Base.{
  ℕ, ◌+◌, ◌*◌, ◌-◌, ◌^◌, ◌<◌, ◌≡◌, ap, subst, min, List, ◌∷◌, Option, none, some, All, length, take,
  Bool,
}
use brillo_device_generic_br.Base.Int.{ℤ}
use brillo_device_generic_br.OpsUefi.{GptEntry, Device, read_answer, bub_read_from_partition}
use brillo_device_generic_br.OpsUefi.Range.{
  IsPlaced, IsOffset, start, size, bub_read_from_partition-read_disk,
}
use brillo_device_generic_br.Sysdeps.{PoolServices}
use brillo_device_generic_br.Gpt.{
  EfiLib, BlockIo, match_at, LookupResult, success, not_found, fault, out_of_fuel, entry_at,
  gpt_entry, entry_count, gpt_entry_bytes, max_gpt_entries, bub_partition_entry_by_name,
}
use brillo_device_generic_br.Gpt.Names.{NamedEntry, table_bytes, CountsChars}
use brillo_device_generic_br.Gpt.Search.{first_named}
use brillo_device_generic_br.Gpt.Lookup.{
  TableDevice, IsAscii, Answers, bub_partition_entry_by_name-first_named,
}

-- What the callers see of the result: the entry, or an error. `on_fault` is what follows when the
-- lookup accesses memory outside its buffers or never ends: it may answer anything.
unfoldable pub entry_of :
    {S : Type 0} → (S → Option GptEntry × S) → LookupResult × S → Option GptEntry × S
entry_of on_fault (success p bytes, s) = (some (gpt_entry bytes), s)
entry_of on_fault (not_found, s) = (none, s)
entry_of on_fault (fault, s) = on_fault s
entry_of on_fault (out_of_fuel, s) = on_fault s

module _ {S : Type 0} (services : PoolServices S) (lib : EfiLib) (block_io : BlockIo S)
    (on_fault : S → Option GptEntry × S) (stale : List ℕ)
    (read_disk : ℕ → ℕ → S → Option (List ℕ) × S) (write_disk : ℕ → List ℕ → S → Bool × S) where
  -- The device of the partition I/O, with the lookup of the source.
  abbrev pub table_device : Device S
  table_device = record {
    block_size = block_io.block_size;
    read_disk = read_disk;
    write_disk = write_disk;
    partition_entry_by_name = λ name s.
        entry_of on_fault (bub_partition_entry_by_name services lib block_io stale name s);
  }

  module _ (gpt_header : List ℕ) (es : List NamedEntry)
      (laws : TableDevice services block_io gpt_header es)
      (clean : length stale ≡ gpt_entry_bytes * max_gpt_entries) (counts : CountsChars lib) (c : ℕ)
      (cs : List ℕ) (ascii : All IsAscii (c ∷ cs)) (small : length (c ∷ cs) + 4 < 2 ^ 32) where
    found_entry :
        (i : ℕ) (s : S)
        → first_named (c ∷ cs) (take (entry_count gpt_header) es) 0 ≡ match_at i
        → entry_of on_fault (bub_partition_entry_by_name services lib block_io stale (c ∷ cs) s) ≡ (
          some (gpt_entry (entry_at (table_bytes es) i)),
          (bub_partition_entry_by_name services lib block_io stale (c ∷ cs) s).1,
        )
    unfolding entry_of
    found_entry i s matched =
        let (p, e) =
          subst (λ a. Answers es a r) matched
            (bub_partition_entry_by_name-first_named services lib block_io gpt_header es laws stale
              clean counts c cs ascii small s) in
        ap
          (λ a.
            entry_of on_fault
              (a, (bub_partition_entry_by_name services lib block_io stale (c ∷ cs) s).1))
          e
      where
        r : LookupResult
        r = (bub_partition_entry_by_name services lib block_io stale (c ∷ cs) s).0

    -- On a device with a partition table, where the first entry in use with the name is number `i`
    -- and its bytes end below position 2 ^ 63, a read of the partition by its name, at an offset
    -- inside it, is one read of the disk at the position that the entry gives, of the bytes that
    -- are asked for or of those up to the partition's end.
    pub bub_read_from_partition-first_named :
        (i : ℕ) (s : S) (z : ℤ) (p n : ℕ)
        → first_named (c ∷ cs) (take (entry_count gpt_header) es) 0 ≡ match_at i
        → IsPlaced block_io.block_size (gpt_entry (entry_at (table_bytes es) i))
        → IsOffset (size block_io.block_size (gpt_entry (entry_at (table_bytes es) i))) z p
        → let e = gpt_entry (entry_at (table_bytes es) i) in
          let num_read = min n (size block_io.block_size e - p) in
          let s1 = (bub_partition_entry_by_name services lib block_io stale (c ∷ cs) s).1 in
          let (bytes, s2) = read_disk (start block_io.block_size e + p) num_read s1 in
          bub_read_from_partition table_device (c ∷ cs) z n s ≡ (read_answer num_read bytes, s2)
    bub_read_from_partition-first_named i s z p n matched placed inside =
        let s1 = (bub_partition_entry_by_name services lib block_io stale (c ∷ cs) s).1 in
        bub_read_from_partition-read_disk table_device (c ∷ cs)
          (gpt_entry (entry_at (table_bytes es) i)) s s1 placed (found_entry i s matched) z p n
          inside
