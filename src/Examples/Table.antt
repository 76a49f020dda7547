-- ===== src/Examples/Table.antt =====
-- A device of 512-byte blocks with a header and a table of 128 entries with the same name.
use brillo_device_generic_br.Base.{
  ℕ, ◌+◌, ◌*◌, ◌/◌, ◌%◌, ◌^◌, ◌≤◌, ◌≡◌, ◌↔◌, refl, ap, Bool, true, false, ◌&&◌, List, [], ◌∷◌, ◌++◌,
  Option, none, some, arith, length, take, replicate, length-replicate, All, All-replicate, ◌==◌,
  if◌then◌else◌, codes,
}
use brillo_device_generic_br.Util.{host_value}
use brillo_device_generic_br.Gpt.{
  EfiLib, efi_success, BlockIo, bub_partition_entry_by_name, validate_gpt, gpt_magic, entry_count,
  max_gpt_entries, gpt_entry_bytes, char_bytes,
}
use brillo_device_generic_br.Gpt.Header.{IsGptHeader, validate_gpt-IsGptHeader}
use brillo_device_generic_br.Base.{◌-◌, min, bytes_eq}
use brillo_device_generic_br.Base.Int.{pos}
use brillo_device_generic_br.OpsUefi.{GptEntry, read_answer, bub_read_from_partition}
use brillo_device_generic_br.OpsUefi.Range.{IsPlaced, IsOffset, start, size}
use brillo_device_generic_br.Gpt.{match_at, entry_at, gpt_entry}
use brillo_device_generic_br.Gpt.Names.{entry_bytes}
use brillo_device_generic_br.Gpt.Partition.{table_device, bub_read_from_partition-first_named}
use brillo_device_generic_br.Gpt.Names.{NamedEntry, IsNamed, IsNameChar, table_bytes}
use brillo_device_generic_br.Gpt.Search.{first_named}
use brillo_device_generic_br.Gpt.Pool.{Balanced}
use brillo_device_generic_br.Gpt.Balance.{bub_partition_entry_by_name-Balanced}
use brillo_device_generic_br.Gpt.Lookup.{
  TableDevice, Answers, bub_partition_entry_by_name-first_named,
}
use brillo_device_generic_br.Examples.Memory.{Pool, in_use, pool, pool_laws, unused}

abbrev at_nul : ℕ → ℕ → Bool
at_nul x y = x == 0 && y == 0

abbrev next_count : Bool → Option ℕ → Option ℕ
next_count true rest = some 0
next_count false none = none
next_count false (some n) = some (1 + n)

abbrev str_len : List ℕ → Option ℕ
str_len [] = none
str_len (x ∷ []) = none
str_len (x ∷ y ∷ bytes) = next_count (at_nul x y) (str_len bytes)

-- The checksum of this library is the number of bytes.
abbrev pub lib : EfiLib
lib = record { str_len = str_len; calculate_crc = λ bytes. length bytes % 2 ^ 32 }

not_nul : (c : ℕ) → IsNameChar c → at_nul (c % 256) (c / 256) ≡ false
not_nul c h = ground arith

str_len-char_bytes :
    (chars rest : List ℕ)
    → All IsNameChar chars
    → str_len (char_bytes chars ++ (0 ∷ 0 ∷ rest)) ≡ some (length chars)
unfolding char_bytes
str_len-char_bytes [] rest h = refl
str_len-char_bytes (c ∷ cs) rest h =
    rw (not_nul c h.0, str_len-char_bytes cs rest h.1) (ap (λ n. some n) one_first)
  where
    one_first : 1 + length cs ≡ length (c ∷ cs)
    one_first = omega arith

-- A header of 92 bytes in its block, with the count of entries at 80.
abbrev pub header : List ℕ
header =
    gpt_magic
    ++ (0 ∷ 0 ∷ 1 ∷ 0 ∷ 92 ∷ 0 ∷ 0 ∷ 0 ∷ 92 ∷ 0 ∷ 0 ∷ 0 ∷ replicate 60 0)
    ++ (128 ∷ 0 ∷ 0 ∷ 0 ∷ replicate 428 0)

abbrev entry : NamedEntry
entry = record {
  attributes = replicate 32 1 ++ (34 ∷ replicate 7 0) ++ (50 ∷ replicate 7 0) ++ replicate 8 0;
  chars = codes "misc";
  padding = replicate 62 0;
}

entry-IsNamed : IsNamed entry
entry-IsNamed = record { attributes_length = refl; name_chars = omega arith; name_length = refl }

abbrev entries : List NamedEntry
entries = replicate 128 entry

abbrev device : BlockIo Pool
device = record {
  block_size = 512;
  read_blocks = λ lba num_bytes s. (some (if lba == 1 then header else table_bytes entries), s);
}

header_entries : entry_count header ≤ max_gpt_entries
unfolding entry_count host_value
header_entries = omega arith

device_laws : TableDevice pool device header entries
device_laws = record {
  block_size = refl;
  read_header = λ s. refl;
  read_table = λ s. refl;
  supplied = λ size s. (s.0, replicate size 0, refl);
  named = All-replicate IsNamed 128 entry entry-IsNamed;
  entries = length-replicate 128 entry;
  counted = header_entries;
}

abbrev stale : List ℕ
stale = replicate (gpt_entry_bytes * max_gpt_entries) 0

length-stale : length stale ≡ gpt_entry_bytes * max_gpt_entries
length-stale = length-replicate {A = ℕ} (gpt_entry_bytes * max_gpt_entries) 0

bub_partition_entry_by_name-first_named_example :
    Answers entries
      (first_named (codes "misc") (take (entry_count header) entries) 0)
      (bub_partition_entry_by_name pool lib device stale (codes "misc") unused).0
bub_partition_entry_by_name-first_named_example =
    bub_partition_entry_by_name-first_named pool lib device header entries device_laws stale
      length-stale str_len-char_bytes 109 (105 ∷ 115 ∷ 99 ∷ []) (omega arith) (omega arith) unused

bub_partition_entry_by_name-Balanced_example :
    Balanced in_use
      (in_use unused)
      (bub_partition_entry_by_name pool lib device stale (codes "misc") unused)
bub_partition_entry_by_name-Balanced_example =
    bub_partition_entry_by_name-Balanced pool in_use pool_laws lib device
      (λ lba num_bytes s q. refl) stale (codes "misc") unused

validate_gpt-IsGptHeader_example : (validate_gpt lib header ≡ efi_success) ↔ IsGptHeader lib header
validate_gpt-IsGptHeader_example = validate_gpt-IsGptHeader lib header refl

-- The entry from block 34 to block 50.
misc_partition : IsPlaced 512 (gpt_entry (entry_at (table_bytes entries) 0))
unfolding gpt_entry entry_at table_bytes entry_bytes char_bytes host_value
misc_partition = omega arith

first_match : first_named (codes "misc") (take (entry_count header) entries) 0 ≡ match_at 0
unfolding first_named bytes_eq entry_count host_value
first_match = refl

inside_misc : IsOffset (size 512 (gpt_entry (entry_at (table_bytes entries) 0))) (pos 16) 16
unfolding gpt_entry entry_at table_bytes entry_bytes char_bytes host_value
inside_misc = (refl, omega arith)

abbrev read_sevens : ℕ → ℕ → Pool → Option (List ℕ) × Pool
read_sevens position num_bytes s = (some (replicate num_bytes 7), s)

-- What a lookup that goes wrong is followed by.
abbrev pub no_partition : Pool → Option GptEntry × Pool
no_partition s = (none, s)

abbrev write_nothing : ℕ → List ℕ → Pool → Bool × Pool
write_nothing position buf s = (false, s)

bub_read_from_partition-first_named_example :
    let e = gpt_entry (entry_at (table_bytes entries) 0) in
    let num_read = min 64 (size 512 e - 16) in
    let s1 = (bub_partition_entry_by_name pool lib device stale (codes "misc") unused).1 in
    let (bytes, s2) = read_sevens (start 512 e + 16) num_read s1 in
    bub_read_from_partition
      (table_device pool lib device no_partition stale read_sevens write_nothing)
      (codes "misc")
      (pos 16)
      64
      unused
    ≡ (read_answer num_read bytes, s2)
bub_read_from_partition-first_named_example =
    bub_read_from_partition-first_named pool lib device no_partition stale read_sevens write_nothing
      header entries device_laws length-stale str_len-char_bytes 109 (105 ∷ 115 ∷ 99 ∷ [])
      (omega arith) (omega arith) 0 unused (pos 16) 16 64 first_match misc_partition inside_misc
