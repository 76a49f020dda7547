-- ===== src/Gpt.antt =====
-- The partition table (GPT) in brillo_uefi_x86_64/boot_loader/bub_boot_kernel.c and .h:
-- validate_gpt, and bub_partition_entry_by_name, which reads the table of a device and looks a
-- name up in it. The device's ReadBlocks, the pool, and StrLen and CalculateCrc of the UEFI
-- library are functions that the definitions take. The header and the array of entries are lists
-- of bytes; fields are read at their offsets, the lowest byte first.
pub mod Header
pub mod Names
pub mod Search
pub mod Pool
pub mod Balance
pub mod Lookup
pub mod Partition
use brillo_device_generic_br.Base.{
  ℕ, zero, suc, ◌+◌, ◌*◌, ◌/◌, ◌%◌, ◌^◌, Bool, true, false, not, ◌||◌, Option, none, some, List, [],
  ◌∷◌, ◌++◌, ◌==◌, ltb, if◌then◌else◌, bytes_eq, take, drop, length, codes, replicate,
}
use brillo_device_generic_br.Util.{host_value, Ucs2, converted, invalid, utf8_to_ucs2}
use brillo_device_generic_br.Util
use brillo_device_generic_br.Sysdeps.{PoolServices, bub_malloc_, bub_free, bub_calloc}
use brillo_device_generic_br.OpsUefi.{GptEntry}

-- EFI_SUCCESS and EFI_NOT_FOUND, the two statuses that validate_gpt gives.
pub data EfiStatus : Type 0 where
  efi_success efi_not_found : EfiStatus

-- GPT_MAGIC
abbrev pub gpt_magic : List ℕ
gpt_magic = codes "EFI PART"

-- sizeof(GPTHeader), sizeof(GPTEntry), and the offset of the name in an entry.
abbrev pub gpt_header_bytes : ℕ
gpt_header_bytes = 512

abbrev pub gpt_entry_bytes : ℕ
gpt_entry_bytes = 128

abbrev pub name_offset : ℕ
name_offset = 56

abbrev pub max_gpt_entries : ℕ
max_gpt_entries = 128

abbrev pub entries_per_block : ℕ
entries_per_block = 4

-- Fields of the header.
unfoldable pub signature : List ℕ → List ℕ
signature gpth = take 8 gpth

unfoldable pub revision : List ℕ → ℕ
revision gpth = host_value (take 4 (drop 8 gpth))

unfoldable pub header_size : List ℕ → ℕ
header_size gpth = host_value (take 4 (drop 12 gpth))

unfoldable pub header_crc32 : List ℕ → ℕ
header_crc32 gpth = host_value (take 4 (drop 16 gpth))

unfoldable pub entry_count : List ℕ → ℕ
entry_count gpth = host_value (take 4 (drop 80 gpth))

-- `gpth_tmp.header_crc32 = 0`
unfoldable pub without_crc : List ℕ → List ℕ
without_crc gpth = take 16 gpth ++ (0 ∷ 0 ∷ 0 ∷ 0 ∷ drop 20 gpth)

-- What the UEFI library computes: the number of CHAR16 values before the NUL (`none` if the memory
-- ends before it), and a checksum of bytes.
pub record EfiLib : Type 0 where
  pub str_len : List ℕ → Option ℕ
  pub calculate_crc : List ℕ → ℕ

unfoldable pub validate_gpt : EfiLib → List ℕ → EfiStatus
unfolding signature revision header_size header_crc32 without_crc
validate_gpt lib gpth =
    if not (bytes_eq (signature gpth) gpt_magic)
    then efi_not_found
    else if ltb (header_size gpth) 92
    then efi_not_found
    else if ltb 512 (header_size gpth)
    then efi_not_found
    else if not (
        header_crc32 gpth
        == lib.calculate_crc (take (header_size (without_crc gpth)) (without_crc gpth)))
    then efi_not_found
    else if not (revision gpth == 0x00010000)
    then efi_not_found
    else efi_success

-- The block size of the medium and ReadBlocks (block, number of bytes; `none` is an EFI error).
pub record BlockIo (S : Type 0) : Type 0 where
  pub block_size : ℕ
  pub read_blocks : ℕ → ℕ → S → Option (List ℕ) × S

-- The bytes of CHAR16 values.
unfoldable pub char_bytes : List ℕ → List ℕ
char_bytes [] = []
char_bytes (c ∷ cs) = c % 256 ∷ c / 256 ∷ char_bytes cs

-- bub_memcmp(xs, ys, n) == 0; `none` is a read outside one of them.
unfoldable pub mem_equal : ℕ → List ℕ → List ℕ → Option Bool
mem_equal n xs ys =
    if ltb (length xs) n || ltb (length ys) n then none else some (bytes_eq (take n xs) (take n ys))

-- The memory of the array from the name of entry `i` on, and the bytes of the entry.
unfoldable pub name_at : List ℕ → ℕ → List ℕ
name_at all_gpt_entries i = drop (gpt_entry_bytes * i + name_offset) all_gpt_entries

unfoldable pub entry_at : List ℕ → ℕ → List ℕ
entry_at all_gpt_entries i = take gpt_entry_bytes (drop (gpt_entry_bytes * i) all_gpt_entries)

-- The fields that the callers look at.
unfoldable pub gpt_entry : List ℕ → GptEntry
gpt_entry bytes = record {
  first_lba = host_value (take 8 (drop 32 bytes));
  last_lba = host_value (take 8 (drop 40 bytes));
}

-- The test of the loop; `name_bytes` is bub_strlen(partition_name).
unfoldable pub compare_names : ℕ → List ℕ → List ℕ → Option ℕ → Option ℕ → Option Bool
unfolding mem_equal
compare_names name_bytes name_ucs2 name (some m) (some n) =
    if m == n then mem_equal (2 * name_bytes) name name_ucs2 else some false
compare_names name_bytes name_ucs2 name _ _ = none

unfoldable pub same_name : EfiLib → ℕ → List ℕ → List ℕ → Option Bool
unfolding compare_names
same_name lib name_bytes name_ucs2 name =
    compare_names name_bytes name_ucs2 name (lib.str_len name_ucs2) (lib.str_len name)

-- `outside` is a read outside the array, or of a name that does not end in it.
pub data SearchResult : Type 0 where
  match_at : ℕ → SearchResult
  absent outside no_fuel : SearchResult

-- The loop over the entries; `i` is a UINT8. What reads behind the 128 entries is outside.
unfoldable pub search_entries : EfiLib → ℕ → ℕ → List ℕ → List ℕ → ℕ → ℕ → SearchResult
unfolding same_name name_at
search_entries lib zero name_bytes name_ucs2 all_gpt_entries count i = no_fuel
search_entries lib (suc fuel) name_bytes name_ucs2 all_gpt_entries count i = elim (ltb i count) [
  | false ↦ absent
  | true ↦ elim (ltb i max_gpt_entries) [
    | false ↦ outside
    | true ↦ elim (same_name lib name_bytes name_ucs2 (name_at all_gpt_entries i)) [
      | none ↦ outside
      | some true ↦ match_at i
      | some false ↦
          search_entries lib fuel name_bytes name_ucs2 all_gpt_entries count ((i + 1) % 2 ^ 8)
    ]
  ]
]

-- The pointer that the allocation gives.
abbrev pub address : Option (ℕ × List ℕ) → Option ℕ
address none = none
address (some (p, bytes)) = some p

-- bub_partition_entry_by_name. Success leaves the address of the entry in `*entry_buf` with its
-- bytes; `not_found` leaves NULL there, or, when there is no memory for the header, what stood
-- there. `fault` is an access outside memory. The search and the conversion of the name need no
-- more fuel than they are given (see Gpt/Search).
pub data LookupResult : Type 0 where
  success : ℕ → List ℕ → LookupResult
  not_found fault out_of_fuel : LookupResult

module _ {S : Type 0} (services : PoolServices S) (lib : EfiLib) (block_io : BlockIo S)
    (stale : List ℕ) (partition_name : List ℕ) where
  -- `entry_buf` is NULL when its allocation failed, which is not noticed.
  unfoldable pub after_search : ℕ → Option ℕ → ℕ → List ℕ → SearchResult → S → LookupResult × S
  after_search header entry_buf name all_gpt_entries absent s = (
    not_found,
    bub_free services entry_buf (bub_free services (some header) (bub_free services (some name) s)),
  )
  after_search header (some address) name all_gpt_entries (match_at i) s = (
    success address (entry_at all_gpt_entries i),
    bub_free services (some header) (bub_free services (some name) s),
  )
  -- bub_memcpy to NULL
  after_search header none name all_gpt_entries (match_at i) s = (fault, s)
  after_search header entry_buf name all_gpt_entries outside s = (fault, s)
  after_search header entry_buf name all_gpt_entries no_fuel s = (out_of_fuel, s)

  -- The error paths before the search: the name's buffer, once it is there, is freed second.
  unfoldable pub give_up : ℕ → Option ℕ → Option ℕ → S → LookupResult × S
  give_up header entry_buf none s =
      (not_found, bub_free services entry_buf (bub_free services (some header) s))
  give_up header entry_buf (some name) s = (
    not_found,
    bub_free services entry_buf (bub_free services (some name) (bub_free services (some header) s)),
  )

  -- The array of 128 entries on the stack holds `stale` before. The size of the read is computed in
  -- 32 bits; more bytes than the array has are written behind it.
  unfoldable pub after_entries :
      List ℕ → ℕ → Option ℕ → ℕ → List ℕ → Option (List ℕ) × S → LookupResult × S
  unfolding give_up after_search
  after_entries gpt_header header entry_buf name name_ucs2 (none, s) =
      give_up header entry_buf (some name) s
  after_entries gpt_header header entry_buf name name_ucs2 (some bytes, s) =
      if ltb (gpt_entry_bytes * max_gpt_entries) (length bytes)
      then (fault, s)
      else (let all_gpt_entries = bytes ++ drop (length bytes) stale in
          after_search header entry_buf name all_gpt_entries
            (search_entries lib (max_gpt_entries + 1) (length partition_name) name_ucs2
              all_gpt_entries (entry_count gpt_header) 0)
            s)

  unfoldable pub read_entries : List ℕ → ℕ → Option ℕ → ℕ → Ucs2 → S → LookupResult × S
  unfolding after_entries give_up
  read_entries gpt_header header entry_buf name (converted chars) s =
      after_entries gpt_header header entry_buf name (char_bytes chars) (
        block_io.read_blocks 2
          (block_io.block_size * (max_gpt_entries / entries_per_block) % 2 ^ 32) s)
  read_entries gpt_header header entry_buf name (invalid chars) s =
      give_up header entry_buf (some name) s
  read_entries gpt_header header entry_buf name Util.fault s = (fault, s)
  read_entries gpt_header header entry_buf name Util.out_of_fuel s = (out_of_fuel, s)

  unfoldable pub convert_name : List ℕ → ℕ → Option ℕ → Option (ℕ × List ℕ) × S → LookupResult × S
  unfolding read_entries give_up
  convert_name gpt_header header entry_buf (none, s) = give_up header entry_buf none s
  convert_name gpt_header header entry_buf (some (name, zeros), s) =
      let partition_name_bytes = length partition_name + 1 in
      read_entries gpt_header header entry_buf name
        (utf8_to_ucs2 (partition_name ++ (0 ∷ [])) partition_name_bytes
          (replicate partition_name_bytes 0) (2 * partition_name_bytes))
        s

  unfoldable pub after_header : ℕ → Option ℕ → Option (List ℕ) × S → LookupResult × S
  unfolding convert_name give_up
  after_header header entry_buf (none, s) = give_up header entry_buf none s
  after_header header entry_buf (some gpt_header, s) =
      convert_name gpt_header header entry_buf
        (bub_calloc services (2 * (length partition_name + 1)) s)

  unfoldable pub after_entry_buf : ℕ → Option (ℕ × List ℕ) × S → LookupResult × S
  unfolding after_header
  after_entry_buf header (entry_buf, s) =
      after_header header (address entry_buf) (block_io.read_blocks 1 gpt_header_bytes s)

  unfoldable pub after_header_buf : Option (ℕ × List ℕ) × S → LookupResult × S
  unfolding after_entry_buf
  after_header_buf (none, s) = (not_found, s)
  after_header_buf (some (header, bytes), s) =
      after_entry_buf header (bub_malloc_ services (gpt_entry_bytes * entries_per_block) s)

  unfoldable pub bub_partition_entry_by_name : S → LookupResult × S
  unfolding after_header_buf
  bub_partition_entry_by_name s = after_header_buf (bub_malloc_ services gpt_header_bytes s)
