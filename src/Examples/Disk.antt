-- ===== src/Examples/Disk.antt =====
-- A platform of one partition of 64 bytes: its state is the list of the bytes. A read gives them
-- all, a write replaces them all.
use brillo_device_generic_br.Base.{ℕ, ◌≡◌, refl, List, length, All, IsByte}
use brillo_device_generic_br.Ops
use brillo_device_generic_br.Ops.{BubOps, MiscLaws}
use brillo_device_generic_br.AbData.{to_bytes}
use brillo_device_generic_br.AbData.Stored.{length-to_bytes, to_bytes-IsByte}
use brillo_device_generic_br.AbFlow.{fresh_data, sealed}
use brillo_device_generic_br.AbFlow.Writes.{fresh-IsAbData}
use brillo_device_generic_br.AbFlow.Storage.{sealed-IsAbData}

abbrev pub disk : BubOps (List ℕ)
disk = record {
  read_from_partition =
      λ name offset num_bytes s. (record { result = Ops.ok; buf = s; num_read = length s }, s);
  write_to_partition = λ name buf offset s. (Ops.ok, buf);
}

abbrev pub IsDisk : List ℕ → Type 0
IsDisk s = (length s ≡ 64) × All IsByte s

abbrev pub contents : List ℕ → List ℕ
contents s = s

pub disk_laws : MiscLaws disk IsDisk contents
disk_laws = record {
  size = λ s r. r.0;
  bytes = λ s r. r.1;
  read_done = λ s r i. record { result = Ops.ok; buf = s; num_read = r.0 i };
  read_keeps = λ s r. refl;
  read_ready = λ s r. r;
  write_done = λ s buf r l h w. refl;
  write_fails = λ s buf r l h w. absurd (w refl);
  write_ready = λ s buf r l h. (l, h);
}

-- The block that a reset leaves on the disk.
abbrev pub fresh_block : List ℕ
fresh_block = to_bytes (sealed fresh_data)

pub fresh_block-IsDisk : IsDisk fresh_block
fresh_block-IsDisk = (
  length-to_bytes (sealed-IsAbData fresh-IsAbData),
  to_bytes-IsByte (sealed-IsAbData fresh-IsAbData),
)
