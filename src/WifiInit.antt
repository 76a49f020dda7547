-- ===== src/WifiInit.antt =====
-- wifi_driver_hal/src/wifi_init.c, the program that sets up the Wi-Fi driver through its HAL
-- (wifi_driver_hal/include/hardware_brillo/wifi_driver_hal.h). The HAL is a record of functions
-- that the definitions take; a driver is a number. Log messages and the usage are left out.
pub mod Calls
pub mod Protocol
use brillo_device_generic_br.Base.{
  ℕ, Bool, true, false, ◌||◌, Option, none, some, List, [], ◌∷◌, ltb, if◌then◌else◌, bytes_eq,
  length, codes, drop,
}

-- The values of wifi_driver_error; WIFI_ERROR_NONE is the number of WIFI_SUCCESS.
pub data WifiDriverError : Type 0 where
  success unknown not_supported not_available invalid_args timed_out : WifiDriverError

pub data WifiDriverMode : Type 0 where
  mode_station mode_ap : WifiDriverMode

-- hw_get_module and the module's open (`none` is a nonzero result), the two operations of the
-- device, the second with the name that it leaves in a buffer of so many bytes, close, and printf
-- of a name.
pub record WifiHal (S : Type 0) : Type 0 where
  pub get_module : S → Option ℕ × S
  pub wifi_driver_open : ℕ → S → Option ℕ × S
  pub wifi_driver_initialize : ℕ → S → WifiDriverError × S
  pub wifi_driver_set_mode : ℕ → WifiDriverMode → ℕ → S → WifiDriverError × List ℕ × S
  pub wifi_driver_close : ℕ → S → S
  pub print_name : List ℕ → S → S

-- wifi_get_hal: the driver in `*pDriver`, or the error.
pub data GetHal : Type 0 where
  got : ℕ → GetHal
  refused : WifiDriverError → GetHal

module _ {S : Type 0} (hal : WifiHal S) where
  unfoldable pub wifi_init : ℕ → S → WifiDriverError × S
  wifi_init driver s = hal.wifi_driver_initialize driver s

  unfoldable pub after_mode : WifiDriverError × List ℕ × S → WifiDriverError × S
  after_mode (success, device_name, s) = (success, hal.print_name device_name s)
  after_mode (unknown, device_name, s) = (unknown, s)
  after_mode (not_supported, device_name, s) = (not_supported, s)
  after_mode (not_available, device_name, s) = (not_available, s)
  after_mode (invalid_args, device_name, s) = (invalid_args, s)
  after_mode (timed_out, device_name, s) = (timed_out, s)

  -- The buffer has DEFAULT_WIFI_DEVICE_NAME_SIZE bytes.
  unfoldable pub wifi_setup : ℕ → WifiDriverMode → S → WifiDriverError × S
  unfolding after_mode
  wifi_setup driver mode s = after_mode (hal.wifi_driver_set_mode driver mode 16 s)

  unfoldable pub after_open : Option ℕ × S → GetHal × S
  after_open (none, s) = (refused unknown, s)
  after_open (some driver, s) = (got driver, s)

  unfoldable pub after_module : Option ℕ × S → GetHal × S
  unfolding after_open
  after_module (none, s) = (refused not_available, s)
  after_module (some module_address, s) = after_open (hal.wifi_driver_open module_address s)

  unfoldable pub wifi_get_hal : S → GetHal × S
  unfolding after_module
  wifi_get_hal s = after_module (hal.get_module s)

  -- The exit code, after the driver is closed.
  unfoldable pub finish : ℕ → WifiDriverError × S → ℕ × S
  finish driver (success, s) = (0, hal.wifi_driver_close driver s)
  finish driver (_, s) = (1, hal.wifi_driver_close driver s)

  -- The argument, if there is one.
  unfoldable pub select_mode : ℕ → List (List ℕ) → S → ℕ × S
  unfolding finish wifi_setup
  select_mode driver [] s = finish driver (success, s)
  select_mode driver (mode ∷ rest) s =
      if bytes_eq mode (codes "ap")
      then finish driver (wifi_setup driver mode_ap s)
      else if bytes_eq mode (codes "client")
      then finish driver (wifi_setup driver mode_station s)
      else (1, hal.wifi_driver_close driver s)

  unfoldable pub after_init : ℕ → List (List ℕ) → WifiDriverError × S → ℕ × S
  unfolding select_mode
  after_init driver arguments (success, s) = select_mode driver arguments s
  after_init driver arguments (_, s) = (1, hal.wifi_driver_close driver s)

  unfoldable pub after_hal : List (List ℕ) → GetHal × S → ℕ × S
  unfolding after_init wifi_init
  after_hal arguments (refused error, s) = (1, s)
  after_hal arguments (got driver, s) = after_init driver arguments (wifi_init driver s)

  -- main, on argv.
  unfoldable pub main : List (List ℕ) → S → ℕ × S
  unfolding after_hal wifi_get_hal
  main argv s =
      if ltb (length argv) 1 || ltb 2 (length argv)
      then (1, s)
      else after_hal (drop 1 argv) (wifi_get_hal s)
