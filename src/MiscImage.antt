-- ===== src/MiscImage.antt =====
-- The host side of the boot loader: MyOps of brillo_uefi_x86_64/boot_loader/bub_image_util.cc, a
-- platform whose partitions are files, and the tool make_misc_image (make_misc_image.cc and
-- main.cc of brillo_uefi_x86_64/make_misc_image), which writes an image of the metadata. File
-- access, paths, the command line and the conversion of a text to a number are functions that the
-- definitions take. Printing is left out; EXPECT_EQ gives a Boolean.
pub mod Arguments
pub mod Image
pub mod Compare
use brillo_device_generic_br.Base.{
  ℕ, zero, suc, ◌+◌, ◌-◌, Bool, true, false, not, ◌&&◌, Option, none, some, List, [], ◌∷◌, ◌==◌,
  ltb, leb, if◌then◌else◌, bytes_eq, take, length, codes,
}
use brillo_device_generic_br.Base.Int.{ℤ, pos, negsuc}
use brillo_device_generic_br.Ops
use brillo_device_generic_br.Ops.{BubOps, BubIoResult, ReadResult, misc_name, ab_data_size}
use brillo_device_generic_br.OpsUefi.{read_error}
use brillo_device_generic_br.AbData.{
  BubSlotData, BubAbData, boot_ctrl_magic, major_version_1, minor_version_0, to_bytes, of_bytes,
  zero_data,
}
use brillo_device_generic_br.AbFlow.{sealed, io_ok}

-- Calls of POSIX and of the base library, `none` for an error. Paths are numbers of bytes: Append
-- and AddExtension of FilePath make the path of a partition; lseek gives the new position.
pub record Posix (S : Type 0) : Type 0 where
  pub partition_path : List ℕ → List ℕ
  pub image_path : List ℕ → List ℕ
  pub get_file_size : List ℕ → S → Option ℕ
  pub open_read : List ℕ → S → Option ℕ × S
  pub open_write : List ℕ → S → Option ℕ × S
  pub lseek : ℕ → ℤ → S → ℤ × S
  pub read_fd : ℕ → ℕ → S → Option (List ℕ) × S
  pub write_fd : ℕ → List ℕ → S → Option ℕ × S
  pub close_fd : ℕ → S → S
  -- the number of bytes that were written
  pub write_file : List ℕ → List ℕ → S → Option ℕ × S

-- `offset != lseek(...)`
unfoldable pub same_offset : ℤ → ℤ → Bool
same_offset (pos m) (pos n) = m == n
same_offset (negsuc m) (negsuc n) = m == n
same_offset _ _ = false

-- `file_size - (-offset)` for the offset -(n + 1).
unfoldable pub from_end : ℕ → ℕ → ℤ
from_end file_size n =
    if leb (n + 1) file_size then pos (file_size - (n + 1)) else negsuc (n - file_size)

module _ {S : Type 0} (posix : Posix S) where
  unfoldable pub file_offset : List ℕ → ℤ → S → Option ℤ
  unfolding from_end
  file_offset path (pos n) s = some (pos n)
  file_offset path (negsuc n) s = elim (posix.get_file_size path s) [
    | none ↦ none
    | some file_size ↦ some (from_end file_size n)
  ]

  -- The rest of a read once the file is open: it is closed on every way out.
  unfoldable pub finish_read : ℕ → Option (List ℕ) × S → ReadResult × S
  finish_read fd (none, s) = (read_error Ops.error_io, posix.close_fd fd s)
  finish_read fd (some buf, s) =
      (record { result = Ops.ok; buf = buf; num_read = length buf }, posix.close_fd fd s)

  unfoldable pub seek_read : ℕ → ℕ → Bool → S → ReadResult × S
  unfolding finish_read
  seek_read fd num_bytes true s = finish_read fd (posix.read_fd fd num_bytes s)
  seek_read fd num_bytes false s = (read_error Ops.error_io, posix.close_fd fd s)

  unfoldable pub open_and_read : ℤ → ℕ → Option ℕ × S → ReadResult × S
  unfolding seek_read same_offset
  open_and_read offset num_bytes (none, s) = (read_error Ops.error_io, s)
  open_and_read offset num_bytes (some fd, s) =
      let (position, s') = posix.lseek fd offset s in
      seek_read fd num_bytes (same_offset position offset) s'

  unfoldable pub read_from_offset : List ℕ → ℕ → Option ℤ → S → ReadResult × S
  unfolding open_and_read
  read_from_offset path num_bytes none s = (read_error Ops.error_io, s)
  read_from_offset path num_bytes (some offset) s =
      open_and_read offset num_bytes (posix.open_read path s)

  unfoldable pub read_from_partition : List ℕ → ℤ → ℕ → S → ReadResult × S
  unfolding read_from_offset file_offset
  read_from_partition partition offset num_bytes s =
      let path = posix.partition_path partition in
      read_from_offset path num_bytes (file_offset path offset s) s

  -- A short write is not noticed.
  unfoldable pub finish_write : ℕ → Option ℕ × S → BubIoResult × S
  finish_write fd (none, s) = (Ops.error_io, posix.close_fd fd s)
  finish_write fd (some num_written, s) = (Ops.ok, posix.close_fd fd s)

  unfoldable pub seek_write : ℕ → List ℕ → Bool → S → BubIoResult × S
  unfolding finish_write
  seek_write fd buf true s = finish_write fd (posix.write_fd fd buf s)
  seek_write fd buf false s = (Ops.error_io, posix.close_fd fd s)

  unfoldable pub open_and_write : ℤ → List ℕ → Option ℕ × S → BubIoResult × S
  unfolding seek_write same_offset
  open_and_write offset buf (none, s) = (Ops.error_io, s)
  open_and_write offset buf (some fd, s) =
      let (position, s') = posix.lseek fd offset s in
      seek_write fd buf (same_offset position offset) s'

  unfoldable pub write_to_offset : List ℕ → List ℕ → Option ℤ → S → BubIoResult × S
  unfolding open_and_write
  write_to_offset path buf none s = (Ops.error_io, s)
  write_to_offset path buf (some offset) s = open_and_write offset buf (posix.open_write path s)

  unfoldable pub write_to_partition : List ℕ → List ℕ → ℤ → S → BubIoResult × S
  unfolding write_to_offset file_offset
  write_to_partition partition buf offset s =
      let path = posix.partition_path partition in
      write_to_offset path buf (file_offset path offset s) s

  -- What the constructor MyOps::MyOps stores.
  abbrev pub file_ops : BubOps S
  file_ops = record {
    read_from_partition = read_from_partition;
    write_to_partition = write_to_partition;
  }

-- MyOps::write_ab_metadata. The values come from bit fields of the same widths, so nothing is cut.
unfoldable pub write_ab_metadata : List ℕ → BubSlotData → BubSlotData → BubAbData
write_ab_metadata magic a b = record zero_data {
  magic = take 4 magic;
  major_version = major_version_1;
  minor_version = minor_version_0;
  slot0 = record zero_data.slot0 {
    priority = a.priority;
    tries_remaining = a.tries_remaining;
    successful_boot = a.successful_boot;
  };
  slot1 = record zero_data.slot1 {
    priority = b.priority;
    tries_remaining = b.tries_remaining;
    successful_boot = b.successful_boot;
  };
}

-- The bytes of the image.
unfoldable pub metadata_image : BubAbData → List ℕ
metadata_image ab_metadata = to_bytes (sealed ab_metadata)

abbrev pub is_size : Option ℕ → Bool
is_size none = false
is_size (some n) = n == ab_data_size

module _ {S : Type 0} (posix : Posix S) where
  -- Whether the expectation holds, and the state.
  unfoldable pub make_metadata_image : BubAbData → List ℕ → S → Bool × S
  unfolding metadata_image
  make_metadata_image ab_metadata name s =
      let (written, s') = posix.write_file (posix.image_path name) (metadata_image ab_metadata) s in
      (is_size written, s')

  -- The return value 1 is left out: there is no other.
  unfoldable pub make_misc_image : BubSlotData → BubSlotData → List ℕ → S → S
  unfolding write_ab_metadata make_metadata_image
  make_misc_image a b fname s =
      (make_metadata_image (write_ab_metadata boot_ctrl_magic a b) fname s).1

-- The slots' fields that are compared one by one.
unfoldable pub slots_match : BubSlotData → BubSlotData → Bool
slots_match e a =
    e.priority == a.priority
    && (e.tries_remaining == a.tries_remaining
        && (e.successful_boot == a.successful_boot && bytes_eq e.reserved a.reserved))

-- The expectations of CompareMiscImage: the first eight bytes, the slots, the reserved bytes and
-- the checksum.
unfoldable pub image_matches : BubAbData → List ℕ → Bool
unfolding slots_match
image_matches ab_expected_be bytes =
    let ab_actual = of_bytes bytes in
    bytes_eq (take 8 (to_bytes ab_expected_be)) (take 8 bytes)
    && (slots_match ab_expected_be.slot0 ab_actual.slot0
        && (slots_match ab_expected_be.slot1 ab_actual.slot1
            && (bytes_eq ab_actual.reserved2 ab_expected_be.reserved2
                && ab_expected_be.crc32 == ab_actual.crc32)))

-- AbTest::CompareMiscImage: the return value and whether every expectation holds.
unfoldable pub compare_read : BubAbData → ReadResult → ℕ × Bool
unfolding image_matches
compare_read ab_expected r =
    if not (io_ok r.result)
    then (1, true)
    else if not (r.num_read == ab_data_size)
    then (1, true)
    else (0, image_matches (sealed ab_expected) r.buf)

unfoldable pub compare_misc_image : {S : Type 0} → BubOps S → BubAbData → S → (ℕ × Bool) × S
unfolding compare_read
compare_misc_image ops ab_expected s =
    let (r, s') = ops.read_from_partition misc_name (pos 0) ab_data_size s in
    (compare_read ab_expected r, s')

-- The command line: a switch's value, its pieces between commas, and the number that a text stands
-- for, `none` if it stands for none.
pub record CommandLine : Type 0 where
  pub switch_value : List ℕ → List ℕ
  pub tokens : List ℕ → List (List ℕ)
  pub string_to_int : List ℕ → Option ℤ

infixl 5 ◌>>=◌
abbrev pub ◌>>=◌ {ℓ κ} : {A : Type ℓ} {B : Type κ} → Option A → (A → Option B) → Option B
none >>= k = none
some a >>= k = k a

module _ (command_line : CommandLine) where
  unfoldable pub in_range : ℕ → List (List ℕ) → Option ℤ → Option (ℕ × List (List ℕ))
  in_range limit st none = none
  in_range limit st (some (negsuc n)) = none
  in_range limit st (some (pos attribute_value)) =
      if ltb limit attribute_value then none else some (attribute_value, st)

  -- One attribute: its token, the conversion, and its range.
  unfoldable pub attribute : ℕ → List (List ℕ) → Option (ℕ × List (List ℕ))
  unfolding in_range
  attribute limit [] = none
  attribute limit (token ∷ st) = in_range limit st (command_line.string_to_int token)

  -- One round of the loop.
  unfoldable pub set_slot : BubSlotData → List (List ℕ) → Option (BubSlotData × List (List ℕ))
  unfolding attribute
  set_slot slot st = do
    (a_priority, st1) ← attribute 15 st
    (a_tries_remaining, st2) ← attribute 7 st1
    (a_successful_boot, st3) ← attribute 1 st2
    some (
      record slot {
        priority = a_priority;
        tries_remaining = a_tries_remaining;
        successful_boot = a_successful_boot;
      },
      st3,
    )

  -- `none` is the return of 0, after which no caller looks at the slots.
  unfoldable pub set_slots_from_tokens :
      List (List ℕ) → BubSlotData → BubSlotData → Option (BubSlotData × BubSlotData)
  unfolding set_slot
  set_slots_from_tokens st a b = do
    (a', st1) ← set_slot a st
    (b', st2) ← set_slot b st1
    some (a', b')

  unfoldable pub after_slots :
      Option (BubSlotData × BubSlotData) → Option (BubSlotData × BubSlotData × List ℕ)
  after_slots none = none
  after_slots (some (a, b)) =
      let fname = command_line.switch_value (codes "output") in
      if length fname == 0 then none else some (a, b, fname)

  unfoldable pub parse_command_line_args :
      BubSlotData → BubSlotData → Option (BubSlotData × BubSlotData × List ℕ)
  unfolding set_slots_from_tokens after_slots
  parse_command_line_args a b = after_slots (
      set_slots_from_tokens (command_line.tokens (command_line.switch_value (codes "ab_metadata")))
        a b)

  -- main of make_misc_image: its exit code, 0 after the usage is printed and 1 otherwise. The slots
  -- hold before what stands on the stack.
  unfoldable pub run_main :
      {S : Type 0} → Posix S → Option (BubSlotData × BubSlotData × List ℕ) → S → ℕ × S
  unfolding make_misc_image
  run_main posix none s = (0, s)
  run_main posix (some (a, b, misc_name)) s = (1, make_misc_image posix a b misc_name s)

  unfoldable pub main : {S : Type 0} → Posix S → BubSlotData → BubSlotData → S → ℕ × S
  unfolding run_main parse_command_line_args
  main posix a b s = run_main posix (parse_command_line_args a b) s
