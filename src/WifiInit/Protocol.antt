-- ===== src/WifiInit/Protocol.antt =====
-- The calls that wifi_init.c makes, against the order that the comments of wifi_driver_hal.h ask
-- for.
use brillo_device_generic_br.Base.{
  ℕ, ◌≡◌, ◌↔◌, inl, inr, refl, ap, sym, ◌∙◌, Bool, true, false, List, [], ◌∷◌, ◌++◌, Option, none,
  some, arith, ltb, if◌then◌else◌, bytes_eq, length, codes, Bool-cases, ◌||◌, drop, ◌≤◌,
  length-drop, Option-cases, subst, eq_of_bytes_eq, ◌<◌,
}
use brillo_device_generic_br.WifiInit.{
  WifiDriverError, success, unknown, WifiDriverMode, mode_station, mode_ap, WifiHal, after_mode,
  wifi_setup, after_open, after_module, wifi_get_hal, finish, select_mode, after_init, after_hal,
  main,
}
use brillo_device_generic_br.WifiInit.Calls.{
  Call, opened, initialized, mode_set, closed, is_some, logged, unopened, run, mode_name, Succeeded,
}

or_right : (a b : Bool) → (a || b) ≡ false → b ≡ false
or_right a b h = ground arith

not_below : (n : ℕ) → ltb 2 n ≡ false → n ≤ 2
not_below n h = ground arith

some_inj : {m n : WifiDriverMode} → some m ≡ some n → m ≡ n
some_inj h = cc

module _ {S : Type 0} (hal : WifiHal S) where
  -- The calls follow the comments and end with no device open, and the exit code tells success.
  abbrev Good : List (List ℕ) → ℕ × (S × List Call) → Type 0
  Good arguments r = (run unopened r.1.1 ≡ some unopened) × ((r.0 ≡ 0) ↔ Succeeded arguments r.1.1)

  abbrev to_ready : List Call
  to_ready = opened true ∷ initialized success ∷ []

  finish-Good :
      (driver : ℕ) (mode : WifiDriverMode) (e : WifiDriverError) (s : S)
      → Good
          (mode_name mode ∷ [])
          (finish (logged hal) driver (e, (s, to_ready ++ (mode_set mode e ∷ []))))
  unfolding finish
  finish-Good driver mode success s = (refl, (λ h. (mode, refl, refl, refl), λ h. refl))
  finish-Good driver mode unknown s = (refl, (λ h. absurd (omega arith), λ h. absurd (cc (h.3))))
  finish-Good driver mode e s = (refl, (λ h. absurd (omega arith), λ h. absurd (cc (h.3))))

  setup-Good :
      (driver : ℕ) (mode : WifiDriverMode) (e : WifiDriverError) (name : List ℕ) (s : S)
      → Good (mode_name mode ∷ []) (
          finish
            (logged hal)
            driver
            (after_mode (logged hal) (e, name, (s, to_ready ++ (mode_set mode e ∷ [])))))
  unfolding after_mode
  setup-Good driver mode success name s = finish-Good driver mode success _
  setup-Good driver mode unknown name s = finish-Good driver mode unknown s
  setup-Good driver mode e name s = finish-Good driver mode e s

  mode-Good :
      (driver : ℕ) (argument : List ℕ) (mode : WifiDriverMode) (s : S)
      → argument ≡ mode_name mode
      → Good
          (argument ∷ [])
          (finish (logged hal) driver (wifi_setup (logged hal) driver mode (s, to_ready)))
  unfolding wifi_setup
  mode-Good driver argument mode s e =
      let (error, name, s') = hal.wifi_driver_set_mode driver mode 16 s in
      subst
        (λ a.
          Good (a ∷ [])
            (finish (logged hal) driver (wifi_setup (logged hal) driver mode (s, to_ready))))
        (sym e) (setup-Good driver mode error name s')

  no_mode-Good :
      (driver : ℕ) (argument : List ℕ) (s : S)
      → Good (argument ∷ []) (1, (hal.wifi_driver_close driver s, to_ready ++ (closed ∷ [])))
  no_mode-Good driver argument s = (refl, (λ h. absurd (omega arith), λ h. absurd (cc (h.3))))

  -- The mode that an argument names.
  mode_of : Bool → Bool → Option WifiDriverMode
  mode_of true client = some mode_ap
  mode_of false true = some mode_station
  mode_of false false = none

  with_mode : ℕ → S → Option WifiDriverMode → ℕ × (S × List Call)
  with_mode driver s none = (1, (hal.wifi_driver_close driver s, to_ready ++ (closed ∷ [])))
  with_mode driver s (some mode) =
      finish (logged hal) driver (wifi_setup (logged hal) driver mode (s, to_ready))

  abbrev named : List ℕ → Option WifiDriverMode
  named a = mode_of (bytes_eq a (codes "ap")) (bytes_eq a (codes "client"))

  chosen :
      (driver : ℕ) (a : List ℕ) (s : S)
      → select_mode (logged hal) driver (a ∷ []) (s, to_ready) ≡ with_mode driver s (named a)
  unfolding select_mode with_mode mode_of
  chosen driver a s = by_tests (bytes_eq a (codes "ap")) (bytes_eq a (codes "client"))
    where
      by_tests :
          (is_ap is_client : Bool)
          → (if is_ap
              then finish (logged hal) driver (wifi_setup (logged hal) driver mode_ap (s, to_ready))
              else if is_client
              then finish
                  (logged hal)
                  driver
                  (wifi_setup (logged hal) driver mode_station (s, to_ready))
              else (1, (hal.wifi_driver_close driver s, to_ready ++ (closed ∷ []))))
            ≡ with_mode driver s (mode_of is_ap is_client)
      by_tests true is_client = refl
      by_tests false true = refl
      by_tests false false = refl

  named-mode_name :
      (a : List ℕ) (is_ap is_client : Bool) {mode : WifiDriverMode}
      → bytes_eq a (codes "ap") ≡ is_ap
      → bytes_eq a (codes "client") ≡ is_client
      → mode_of is_ap is_client ≡ some mode
      → a ≡ mode_name mode
  unfolding mode_of
  named-mode_name a true client x y h = eq_of_bytes_eq a _ x ∙ ap mode_name (some_inj h)
  named-mode_name a false true x y h = eq_of_bytes_eq a _ y ∙ ap mode_name (some_inj h)
  named-mode_name a false false x y h = cc

  chosen-Good : (driver : ℕ) (a : List ℕ) (s : S) → Good (a ∷ []) (with_mode driver s (named a))
  unfolding with_mode
  chosen-Good driver a s = elim (Option-cases (named a)) [
    | inl e ↦ subst (λ o. Good (a ∷ []) (with_mode driver s o)) (sym e) (no_mode-Good driver a s)
    | inr (mode, e) ↦
        subst (λ o. Good (a ∷ []) (with_mode driver s o)) (sym e)
          (mode-Good driver a mode s (named-mode_name a _ _ refl refl e))
  ]

  select_mode-Good :
      (driver : ℕ) (arguments : List (List ℕ)) (s : S)
      → length arguments < 2
      → Good arguments (select_mode (logged hal) driver arguments (s, to_ready))
  unfolding select_mode
  select_mode-Good driver [] s short = (refl, (λ h. refl, λ h. refl))
  select_mode-Good driver (a ∷ b ∷ rest) s short = absurd (omega arith)
  select_mode-Good driver (a ∷ []) s short =
      subst (Good (a ∷ [])) (sym (chosen driver a s)) (chosen-Good driver a s)

  initialized-Good :
      (driver : ℕ) (arguments : List (List ℕ)) (e : WifiDriverError) (s : S)
      → length arguments < 2
      → Good arguments
          (after_init (logged hal) driver arguments (e, (s, opened true ∷ initialized e ∷ [])))
  unfolding after_init
  initialized-Good driver arguments success s short = select_mode-Good driver arguments s short
  initialized-Good driver [] unknown s short = (refl, (λ h. absurd (omega arith), λ h. absurd (cc)))
  initialized-Good driver [] e s short = (refl, (λ h. absurd (omega arith), λ h. absurd (cc)))
  initialized-Good driver (a ∷ rest) unknown s short =
      (refl, (λ h. absurd (omega arith), λ h. absurd (cc (h.3))))
  initialized-Good driver (a ∷ rest) e s short =
      (refl, (λ h. absurd (omega arith), λ h. absurd (cc (h.3))))

  -- Runs that stop before a device is open.
  silent-Good : (arguments : List (List ℕ)) (s : S) → Good arguments (1, (s, []))
  silent-Good [] s = (refl, (λ h. absurd (omega arith), λ h. absurd (cc)))
  silent-Good (a ∷ rest) s = (refl, (λ h. absurd (omega arith), λ h. absurd (cc (h.3))))

  not_opened-Good : (arguments : List (List ℕ)) (s : S) → Good arguments (1, (s, opened false ∷ []))
  not_opened-Good [] s = (refl, (λ h. absurd (omega arith), λ h. absurd (cc)))
  not_opened-Good (a ∷ rest) s = (refl, (λ h. absurd (omega arith), λ h. absurd (cc (h.3))))

  opened-Good :
      (arguments : List (List ℕ)) (o : Option ℕ) (s : S)
      → length arguments < 2
      → Good arguments (
          after_hal
            (logged hal)
            arguments
            (after_open (logged hal) (o, (s, opened (is_some o) ∷ []))))
  unfolding after_hal after_open
  opened-Good arguments none s short = not_opened-Good arguments s
  opened-Good arguments (some driver) s short =
      let (e, s') = hal.wifi_driver_initialize driver s in
      initialized-Good driver arguments e s' short

  module-Good :
      (arguments : List (List ℕ)) (o : Option ℕ) (s : S)
      → length arguments < 2
      → Good arguments (after_hal (logged hal) arguments (after_module (logged hal) (o, (s, []))))
  unfolding after_hal after_module
  module-Good arguments none s short = silent-Good arguments s
  module-Good arguments (some address) s short =
      let (o, s') = hal.wifi_driver_open address s in opened-Good arguments o s' short

  length-drop_one : (argv : List (List ℕ)) → ltb 2 (length argv) ≡ false → length (drop 1 argv) < 2
  length-drop_one argv h = omega (arith, length-drop 1 argv, not_below (length argv) h)

  -- Whatever the HAL answers, the calls of the program keep the order that the comments of the
  -- header ask for: the driver is initialized before its mode is set, and a device that was opened
  -- is closed at the end. The exit code is 0 exactly when the device was opened and initialized
  -- and, if there is an argument, this names a mode and the mode was set.
  pub main-Succeeded :
      (argv : List (List ℕ)) (s : S)
      → let (code, (s', calls)) = main (logged hal) argv (s, []) in
        (run unopened calls ≡ some unopened) × ((code ≡ 0) ↔ Succeeded (drop 1 argv) calls)
  unfolding main
  main-Succeeded argv s = elim (Bool-cases (ltb (length argv) 1 || ltb 2 (length argv))) [
    | inl wrong ↦
        subst (Good (drop 1 argv)) (sym (ap (λ t. if t then (1, (s, [])) else called) wrong))
          (silent-Good (drop 1 argv) s)
    | inr fine ↦
        subst (Good (drop 1 argv)) (sym (ap (λ t. if t then (1, (s, [])) else called) fine)) (
          let (o, s') = hal.get_module s in
          module-Good (drop 1 argv) o s' (length-drop_one argv (or_right _ _ fine)))
  ]
    where
      called : ℕ × (S × List Call)
      called = after_hal (logged hal) (drop 1 argv) (wifi_get_hal (logged hal) (s, []))
