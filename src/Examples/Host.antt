-- ===== src/Examples/Host.antt =====
-- The host tools on a file of 64 bytes, and the Wi-Fi driver on a HAL where nothing fails.
use brillo_device_generic_br.Base.{
  ◌+◌, ℕ, ◌≡◌, ◌↔◌, refl, true, some, List, [], ◌∷◌, length, codes, arith,
}
use brillo_device_generic_br.Base.Int.{pos}
use brillo_device_generic_br.AbData.{BubSlotData, BubAbData, to_bytes, zero_data}
use brillo_device_generic_br.AbFlow.{fresh_data, sealed, read, check_ab_data}
use brillo_device_generic_br.AbFlow.Storage.{full_read}
use brillo_device_generic_br.AbFlow.Writes.{fresh-IsAbData}
use brillo_device_generic_br.MiscImage.{
  Posix, CommandLine, file_ops, compare_misc_image, set_slots_from_tokens,
}
use brillo_device_generic_br.MiscImage
use brillo_device_generic_br.MiscImage.Arguments.{AreValues, limits, attributes_of}
use brillo_device_generic_br.MiscImage.Image.{main-check_ab_data}
use brillo_device_generic_br.MiscImage.Compare.{compare_misc_image-to_bytes}
use brillo_device_generic_br.WifiInit.{WifiHal}
use brillo_device_generic_br.WifiInit
use brillo_device_generic_br.WifiInit.Calls.{unopened, logged, run, Succeeded}
use brillo_device_generic_br.WifiInit.Protocol.{main-Succeeded}
use brillo_device_generic_br.Examples.Disk.{
  disk, IsDisk, contents, disk_laws, fresh_block, fresh_block-IsDisk,
}

compare_misc_image-to_bytes_example :
    let ((code, holds), s') = compare_misc_image disk fresh_data fresh_block in
    (code ≡ 0)
    × ((holds ≡ true) ↔ (to_bytes (sealed fresh_data) ≡ contents fresh_block))
    × (contents s' ≡ contents fresh_block)
compare_misc_image-to_bytes_example =
    compare_misc_image-to_bytes disk IsDisk contents disk_laws fresh_data fresh_block fresh-IsAbData
      fresh_block-IsDisk

-- A command line whose texts are their values.
abbrev arguments : List (List ℕ)
arguments = (15 ∷ []) ∷ (7 ∷ []) ∷ (0 ∷ []) ∷ (14 ∷ []) ∷ (3 ∷ []) ∷ (1 ∷ []) ∷ []

abbrev value_of : List ℕ → ℕ
value_of [] = 0
value_of (n ∷ ns) = n

abbrev command_line : CommandLine
command_line = record {
  switch_value = λ name. codes "misc";
  tokens = λ text. arguments;
  string_to_int = λ token. some (pos (value_of token));
}

abbrev slot_a : BubSlotData
slot_a = record zero_data.slot0 { priority = 15; tries_remaining = 7 }

abbrev slot_b : BubSlotData
slot_b = record zero_data.slot1 { priority = 14; tries_remaining = 3; successful_boot = 1 }

accepted : AreValues command_line limits arguments (attributes_of slot_a slot_b)
accepted = (
  refl,
  omega arith,
  (
    refl,
    omega arith,
    (refl, omega arith, (refl, omega arith, (refl, omega arith, (refl, omega arith, tt)))),
  ),
)

-- Every path is the one file; its descriptor is 3.
abbrev host : Posix (List ℕ)
host = record {
  partition_path = λ name. name;
  image_path = λ name. name;
  get_file_size = λ path s. some (length s);
  open_read = λ path s. (some 3, s);
  open_write = λ path s. (some 3, s);
  lseek = λ fd offset s. (offset, s);
  read_fd = λ fd num_bytes s. (some s, s);
  write_fd = λ fd buf s. (some (length buf), buf);
  close_fd = λ fd s. s;
  write_file = λ path buf s. (some (length buf), buf);
}

main-check_ab_data_example :
    (bytes : List ℕ) × (d : BubAbData) × (MiscImage.main command_line host zero_data.slot0
        zero_data.slot1 []
      ≡ (1, bytes))
    × (check_ab_data (full_read bytes) ≡ read d)
    × (attributes_of d.slot0 d.slot1 ≡ attributes_of slot_a slot_b)
main-check_ab_data_example =
    main-check_ab_data command_line zero_data.slot0 zero_data.slot1 slot_a slot_b accepted refl refl
      (λ h. absurd (omega arith)) host []

abbrev hal : WifiHal ℕ
hal = record {
  get_module = λ s. (some 1, s + 1);
  wifi_driver_open = λ m s. (some 2, s + 1);
  wifi_driver_initialize = λ driver s. (WifiInit.success, s + 1);
  wifi_driver_set_mode = λ driver mode size s. (WifiInit.success, codes "wlan0", s + 1);
  wifi_driver_close = λ driver s. s + 1;
  print_name = λ name s. s + 1;
}

abbrev argv : List (List ℕ)
argv = codes "wifi_init" ∷ codes "ap" ∷ []

main-Succeeded_example :
    let (code, (s', calls)) = WifiInit.main (logged hal) argv (0, []) in
    (run unopened calls ≡ some unopened) × ((code ≡ 0) ↔ Succeeded (codes "ap" ∷ []) calls)
main-Succeeded_example = main-Succeeded hal argv 0
