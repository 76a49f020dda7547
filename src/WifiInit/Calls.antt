-- ===== src/WifiInit/Calls.antt =====
-- The calls that wifi_init.c makes to the HAL, and the order that the comments of wifi_driver_hal.h
-- ask for.
use brillo_device_generic_br.Base.{
  ℕ, ◌≡◌, Bool, true, false, List, [], ◌∷◌, ◌++◌, Option, none, some, codes,
}
use brillo_device_generic_br.WifiInit.{
  WifiDriverError, success, WifiDriverMode, mode_station, mode_ap, WifiHal,
}

-- A call of the HAL with its result.
pub data Call : Type 0 where
  opened : Bool → Call
  initialized : WifiDriverError → Call
  mode_set : WifiDriverMode → WifiDriverError → Call
  closed : Call

abbrev pub is_some {ℓ} : {A : Type ℓ} → Option A → Bool
is_some none = false
is_some (some a) = true

-- A HAL whose state keeps the calls that were made, in their order.
abbrev pub logged : {S : Type 0} → WifiHal S → WifiHal (S × List Call)
logged hal = record {
  get_module = λ (s, log). let (o, s') = hal.get_module s in (o, (s', log));
  wifi_driver_open = λ m (s, log).
      let (o, s') = hal.wifi_driver_open m s in (o, (s', log ++ (opened (is_some o) ∷ [])));
  wifi_driver_initialize = λ driver (s, log).
      let (e, s') = hal.wifi_driver_initialize driver s in (e, (s', log ++ (initialized e ∷ [])));
  wifi_driver_set_mode = λ driver mode size (s, log).
      let (e, name, s') = hal.wifi_driver_set_mode driver mode size s in
      (e, name, (s', log ++ (mode_set mode e ∷ [])));
  wifi_driver_close = λ driver (s, log). (hal.wifi_driver_close driver s, log ++ (closed ∷ []));
  print_name = λ name (s, log). (hal.print_name name s, log);
}

-- What the comments ask for: the driver is initialized before a mode is set, and a device is closed
-- once it was opened.
pub data Phase : Type 0 where
  unopened idle ready : Phase

abbrev pub next_phase : Phase → Call → Option Phase
next_phase unopened (opened true) = some idle
next_phase unopened (opened false) = some unopened
next_phase idle (initialized success) = some ready
next_phase idle (initialized e) = some idle
next_phase ready (mode_set mode e) = some ready
next_phase idle closed = some unopened
next_phase ready closed = some unopened
next_phase _ _ = none

abbrev pub run : Phase → List Call → Option Phase
run phase [] = some phase
run phase (call ∷ calls) = elim (next_phase phase call) [ none ↦ none | some p ↦ run p calls ]

abbrev pub mode_name : WifiDriverMode → List ℕ
mode_name mode_ap = codes "ap"
mode_name mode_station = codes "client"

-- The calls of a run in which nothing fails, for the arguments behind the program's name.
abbrev pub Succeeded : List (List ℕ) → List Call → Type 0
Succeeded [] calls = calls ≡ opened true ∷ initialized success ∷ closed ∷ []
Succeeded (argument ∷ rest) calls =
    (mode : WifiDriverMode) × (argument ≡ mode_name mode)
    × (rest ≡ [])
    × (calls ≡ opened true ∷ initialized success ∷ mode_set mode success ∷ closed ∷ [])
