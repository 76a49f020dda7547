-- ===== src/Ops.antt =====
-- brillo_uefi_x86_64/boot_loader/bub_ops.h: the operations that the A/B logic takes from its
-- platform, as an interface over a state `S` (the disk and whatever else the platform keeps), and
-- what the comments of that header promise of them for the start of the "misc" partition. The
-- other pointers of `BubOps` (keys, rollback indices, lock state, GUIDs) are never set or called.
use brillo_device_generic_br.Base.{ℕ, ◌≡◌, ◌≢◌, List, [], ◌∷◌, length, All, IsByte}
use brillo_device_generic_br.Base.Int.{ℤ, pos}

pub data BubIoResult : Type 0 where
  ok error_no_such_partition error_range_outside_partition error_io : BubIoResult

-- A read gives its result, the bytes that stand in the caller's buffer, and `*out_num_read`.
pub record ReadResult : Type 0 where
  pub result : BubIoResult
  pub buf : List ℕ
  pub num_read : ℕ

-- Partition names are the bytes of the string, without its NUL.
pub record BubOps (S : Type 0) : Type 0 where
  -- name, offset, number of bytes
  pub read_from_partition : List ℕ → ℤ → ℕ → S → ReadResult × S
  -- name, buffer (whose length is the number of bytes), offset
  pub write_to_partition : List ℕ → List ℕ → ℤ → S → BubIoResult × S

-- "misc"
abbrev pub misc_name : List ℕ
misc_name = b'm' ∷ b'i' ∷ b's' ∷ b'c' ∷ []

-- sizeof(BubAbData)
abbrev pub ab_data_size : ℕ
ab_data_size = 64

-- A platform whose "misc" partition can be read, seen through its first 64 bytes: reads return them
-- and change nothing there, and a write of 64 bytes either replaces them all or, with an error,
-- none. `IsReady` is what the platform itself needs between two calls.
pub record MiscLaws {S : Type 0} (ops : BubOps S) (IsReady : S → Type 0) (misc : S → List ℕ)
    : Type 0 where
  pub size : (s : S) → IsReady s → length (misc s) ≡ ab_data_size
  pub bytes : (s : S) → IsReady s → All IsByte (misc s)
  pub read_done :
      (s : S)
      → IsReady s
      → (ops.read_from_partition misc_name (pos 0) ab_data_size s).0
        ≡ record { result = ok; buf = misc s; num_read = ab_data_size }
  pub read_keeps :
      (s : S)
      → IsReady s
      → misc (ops.read_from_partition misc_name (pos 0) ab_data_size s).1 ≡ misc s
  pub read_ready :
      (s : S) → IsReady s → IsReady (ops.read_from_partition misc_name (pos 0) ab_data_size s).1
  pub write_done :
      (s : S) (buf : List ℕ)
      → IsReady s
      → length buf ≡ ab_data_size
      → All IsByte buf
      → (ops.write_to_partition misc_name buf (pos 0) s).0 ≡ ok
      → misc (ops.write_to_partition misc_name buf (pos 0) s).1 ≡ buf
  pub write_fails :
      (s : S) (buf : List ℕ)
      → IsReady s
      → length buf ≡ ab_data_size
      → All IsByte buf
      → (ops.write_to_partition misc_name buf (pos 0) s).0 ≢ ok
      → misc (ops.write_to_partition misc_name buf (pos 0) s).1 ≡ misc s
  pub write_ready :
      (s : S) (buf : List ℕ)
      → IsReady s
      → length buf ≡ ab_data_size
      → All IsByte buf
      → IsReady (ops.write_to_partition misc_name buf (pos 0) s).1
