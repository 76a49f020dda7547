-- ===== src/BootKernel/Running.antt =====
-- The image that bub_boot_kernel starts, and its options.
use brillo_device_generic_br.Base.{
  ℕ, ◌*◌, ◌≡◌, refl, sym, ap, ◌∙◌, Bool, true, false, Option, none, some, List, if◌then◌else◌,
  length,
}
use brillo_device_generic_br.Main.{
  ok, error_oom, error_io, error_partition_invalid_format, error_load_kernel, error_parameter_load,
  error_start_kernel,
}
use brillo_device_generic_br.BootKernel.{
  BootServices, KernelOutcome, returned, fault, boot_args_size, kernel_size, cmdline, widen,
  write_parameters, load_parameters, start_kernel, after_parameters, load_kernel,
}

module _ {S : Type 0} (services : BootServices S) where
  -- The image was started, with the command line of the header as its options; `s'` is the state
  -- then.
  pub record IsRunning (head : List ℕ) (image : ℕ) (s' : S) : Type 0 where
    pub options : List ℕ
    pub widened : widen boot_args_size (cmdline head) ≡ some options
    pub before : S
    pub started :
        services.start_image image
          (services.set_load_options image options (2 * length options) before)
        ≡ (true, s')

  -- The outcome `ok` tells that `P` holds of the state.
  abbrev pub IfOk : (S → Type 0) → KernelOutcome × S → Type 0
  IfOk P (returned ok, s) = P s
  IfOk P (_, s) = Unit

  pub IfOk-map :
      (P Q : S → Type 0) (r : KernelOutcome × S) → ((s : S) → P s → Q s) → IfOk P r → IfOk Q r
  IfOk-map P Q (returned ok, s) f p = f s p
  IfOk-map P Q (returned error_oom, s) f p = tt
  IfOk-map P Q (returned error_io, s) f p = tt
  IfOk-map P Q (returned error_partition_invalid_format, s) f p = tt
  IfOk-map P Q (returned error_load_kernel, s) f p = tt
  IfOk-map P Q (returned error_parameter_load, s) f p = tt
  IfOk-map P Q (returned error_start_kernel, s) f p = tt
  IfOk-map P Q (fault, s) f p = tt

  start_kernel-IfOk :
      (image : ℕ) (s : S)
      → IfOk (λ s'. services.start_image image s ≡ (true, s')) (start_kernel services image s)
  unfolding start_kernel
  start_kernel-IfOk image s = by_answer (services.start_image image s) refl
    where
      by_answer :
          (r : Bool × S)
          → services.start_image image s ≡ r
          → IfOk
              (λ s'. services.start_image image s ≡ (true, s'))
              (returned (if r.0 then ok else error_start_kernel), r.1)
      by_answer (true, s') e = e
      by_answer (false, s') e = tt

  -- LoadParameters succeeds only after it has written the options.
  abbrev IsWritten : List ℕ → ℕ → Option Bool × S → Type 0
  IsWritten head image (some true, s) =
      (options : List ℕ) × (before : S) × (widen boot_args_size (cmdline head) ≡ some options)
      × (s ≡ services.set_load_options image options (2 * length options) before)
  IsWritten head image (_, s) = Unit

  write_parameters-IsWritten :
      (head : List ℕ) (image : ℕ) (chars : Option (List ℕ)) (s : S)
      → widen boot_args_size (cmdline head) ≡ chars
      → IsWritten head image (write_parameters services image chars s)
  unfolding write_parameters
  write_parameters-IsWritten head image none s e = tt
  write_parameters-IsWritten head image (some chars) s e = (chars, s, e, refl)

  load_parameters-IsWritten :
      (head : List ℕ) (image : ℕ) (s : S)
      → IsWritten head image (load_parameters services image head s)
  unfolding load_parameters
  load_parameters-IsWritten head image s = by_found (services.handle_protocol image s)
    where
      by_memory :
          (r : Option (List ℕ) × S)
          → IsWritten head image (elim r.0 [
            | none ↦ (some false, r.1)
            | some _ ↦ write_parameters services image (widen boot_args_size (cmdline head)) r.1
          ])
      by_memory (none, s2) = tt
      by_memory (some memory, s2) = write_parameters-IsWritten head image _ s2 refl

      by_found :
          (r : Bool × S)
          → IsWritten head image (elim r.0 [
            | false ↦ (some false, r.1)
            | true ↦
                let (memory, s2) = services.allocate_pool (2 * boot_args_size) r.1 in
                elim memory [
                  | none ↦ (some false, s2)
                  | some _ ↦
                      write_parameters services image (widen boot_args_size (cmdline head)) s2
                ]
          ])
      by_found (false, s1) = tt
      by_found (true, s1) = by_memory (services.allocate_pool (2 * boot_args_size) s1)

  after_parameters-IsRunning :
      (head : List ℕ) (image : ℕ) (r : Option Bool × S)
      → IsWritten head image r
      → IfOk (IsRunning head image) (after_parameters services image r)
  unfolding after_parameters
  after_parameters-IsRunning head image (none, s) w = tt
  after_parameters-IsRunning head image (some false, s) w = tt
  after_parameters-IsRunning head image (some true, s) (options, before, e, set) =
      IfOk-map (λ s'. services.start_image image s ≡ (true, s')) (IsRunning head image)
        (start_kernel services image s)
        (λ s' started. record {
          options = options;
          widened = e;
          before = before;
          started = ap (services.start_image image) (sym set) ∙ started;
        })
        (start_kernel-IfOk image s)

  pub load_kernel-IsRunning :
      (head kernel : List ℕ) (s : S)
      → IfOk
          (λ s'.
            (image : ℕ) × ((services.load_image kernel (kernel_size head) s).0 ≡ some image)
            × IsRunning head image s')
          (load_kernel services head kernel s)
  unfolding load_kernel
  load_kernel-IsRunning head kernel s =
      by_handle (services.load_image kernel (kernel_size head) s) refl
    where
      Result : S → Type 0
      Result s' =
          (image : ℕ) × ((services.load_image kernel (kernel_size head) s).0 ≡ some image)
          × IsRunning head image s'

      by_handle :
          (r : Option ℕ × S)
          → services.load_image kernel (kernel_size head) s ≡ r
          → IfOk Result (elim r.0 [
            | none ↦ (returned error_load_kernel, r.1)
            | some image ↦ after_parameters services image (load_parameters services image head r.1)
          ])
      by_handle (none, s') e = tt
      by_handle (some image, s') e =
          IfOk-map (IsRunning head image) Result
            (after_parameters services image (load_parameters services image head s'))
            (λ s'' running. (image, ap (λ r. r.0) e, running))
            (after_parameters-IsRunning head image (load_parameters services image head s')
              (load_parameters-IsWritten head image s'))
