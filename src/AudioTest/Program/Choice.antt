-- ===== src/AudioTest/Program/Choice.antt =====
-- The command lines that brillo_audio_test.cpp accepts, and the test that it runs for them.
use brillo_device_generic_br.Base.{
  sym, ◌∙◌, Bool-cases, ℕ, ◌≡◌, ◌≢◌, ◌↔◌, ◌⊎◌, inl, inr, refl, Bool, true, false, ◌&&◌, not, List,
  [], ◌∷◌, if◌then◌else◌,
}
use brillo_device_generic_br.Base.Int.{pos}
use brillo_device_generic_br.AudioTest.Formats.{get_format}
use brillo_device_generic_br.AudioTest.MediaRecord.{Recorder}
use brillo_device_generic_br.AudioTest.MediaPlayback.{Player, FileInfo}
use brillo_device_generic_br.AudioTest.Stagefright.{Stagefright}
use brillo_device_generic_br.AudioTest.Program.{
  Flags, TestExit, exited, xor, is_empty, arguments_refused, test_mode, run_mode, main,
  run_libmedia_playback, run_stagefright_playback, run_libmedia_record, run_stagefright_record,
}

-- One library and one direction; a name to record to; to play, a sine wave or a name.
pub record IsRequest (flags : Flags) : Type 0 where
  pub one_library : flags.libmedia ≢ flags.stagefright
  pub one_direction : flags.playback ≢ flags.recording
  pub named : flags.recording ≡ true → flags.filename ≢ []
  pub one_source : flags.playback ≡ true → (flags.sine ≡ true) ↔ (flags.filename ≡ [])

true-false : true ≡ false → ⊥
true-false h = cc

cons-nil : {c : ℕ} {cs : List ℕ} → c ∷ cs ≡ [] → ⊥
cons-nil h = cc

differ_iff : (a b : Bool) → (not (xor a b) ≡ false) ↔ (a ≢ b)
differ_iff true true = (λ h. absurd (true-false h), λ h. absurd (h refl))
differ_iff true false = (λ h e. true-false e, λ h. refl)
differ_iff false true = (λ h e. true-false (sym e), λ h. refl)
differ_iff false false = (λ h. absurd (true-false h), λ h. absurd (h refl))

named_iff : (r : Bool) (name : List ℕ) → ((r && is_empty name) ≡ false) ↔ (r ≡ true → name ≢ [])
named_iff true [] = (λ h. absurd (true-false h), λ h. absurd (h refl refl))
named_iff true (c ∷ cs) = (λ h e f. cons-nil f, λ h. refl)
named_iff false name = (λ h e. absurd (true-false (sym e)), λ h. refl)

one_source_iff :
    (p s : Bool) (name : List ℕ)
    → ((p && not (xor s (not (is_empty name)))) ≡ false) ↔ (p ≡ true → (s ≡ true) ↔ (name ≡ []))
one_source_iff true true [] = (λ h e. (λ f. refl, λ f. refl), λ h. refl)
one_source_iff true true (c ∷ cs) =
    (λ h. absurd (true-false h), λ h. absurd (cons-nil ((h refl).0 refl)))
one_source_iff true false [] =
    (λ h. absurd (true-false h), λ h. absurd (true-false (sym ((h refl).1 refl))))
one_source_iff true false (c ∷ cs) =
    (λ h e. (λ f. absurd (true-false (sym f)), λ f. absurd (cons-nil f)), λ h. refl)
one_source_iff false s name = (λ h e. absurd (true-false (sym e)), λ h. refl)

if_false : (b x : Bool) → (if b then true else x) ≡ false → (b ≡ false) × (x ≡ false)
if_false true x h = absurd (true-false h)
if_false false x h = (refl, h)

accepted : (flags : Flags) → arguments_refused flags ≡ false → IsRequest flags
unfolding arguments_refused
accepted flags h =
    let (library, h1) = if_false _ _ h in
    let (direction, h2) = if_false _ _ h1 in
    let (name, h3) = if_false _ _ h2 in
    let (source, _) = if_false _ _ h3 in
    record {
      one_library = (differ_iff flags.libmedia flags.stagefright).0 library;
      one_direction = (differ_iff flags.playback flags.recording).0 direction;
      named = (named_iff flags.recording flags.filename).0 name;
      one_source = (one_source_iff flags.playback flags.sine flags.filename).0 source;
    }

is_request : (flags : Flags) → IsRequest flags → arguments_refused flags ≡ false
unfolding arguments_refused
is_request flags r =
    rw
      (
        arguments_refused,
        (differ_iff flags.libmedia flags.stagefright).1 r.one_library,
        (differ_iff flags.playback flags.recording).1 r.one_direction,
        (named_iff flags.recording flags.filename).1 r.named,
        (one_source_iff flags.playback flags.sine flags.filename).1 r.one_source,
      )
      refl

module _ {S : Type 0} (recorder : Recorder S) (player : Player S) (stagefright : Stagefright S)
    (unset : FileInfo) where
  -- The test of the library and the direction that are set.
  abbrev pub chosen : ℕ → Flags → S → TestExit × S
  chosen fuel flags s = elim flags.libmedia [
    | true ↦ elim flags.playback [
      | true ↦
          run_libmedia_playback recorder player stagefright unset flags
            (get_format flags.sample_size) s
      | false ↦
          run_libmedia_record recorder player stagefright unset fuel flags
            (get_format flags.sample_size) s
    ]
    | false ↦ elim flags.playback [
      | true ↦ run_stagefright_playback recorder player stagefright unset flags s
      | false ↦ run_stagefright_record recorder player stagefright unset fuel flags s
    ]
  ]

  run_chosen :
      (fuel : ℕ) (flags : Flags) (s : S)
      → run_mode recorder player stagefright unset fuel flags (test_mode flags) s
        ≡ chosen fuel flags s
  unfolding run_mode test_mode run_libmedia_playback run_libmedia_record run_stagefright_playback
      run_stagefright_record
  run_chosen fuel flags s = elim (Bool-cases flags.libmedia) [
    | inl l ↦ elim (Bool-cases flags.playback) [
      | inl p ↦ rw (test_mode, l, p, run_mode) refl
      | inr p ↦ rw (test_mode, l, p, run_mode) refl
    ]
    | inr l ↦ elim (Bool-cases flags.playback) [
      | inl p ↦ rw (test_mode, l, p, run_mode) refl
      | inr p ↦ rw (test_mode, l, p, run_mode) refl
    ]
  ]

  -- The program runs a test exactly for the flags that ask for one library, for playing or for
  -- recording, with a name to record to, and with either a sine wave or a name to play; it is the
  -- test of that library and that direction. For all other flags its exit code is 1, and nothing
  -- is done.
  pub main-IsRequest :
      (fuel : ℕ) (flags : Flags) (s : S)
      → (IsRequest flags
          × (main recorder player stagefright unset fuel flags s ≡ chosen fuel flags s))
        ⊎ ((¬ IsRequest flags)
            × (main recorder player stagefright unset fuel flags s ≡ (exited (pos 1), s)))
  unfolding main
  main-IsRequest fuel flags s = elim (Bool-cases (arguments_refused flags)) [
    | inl refused ↦
        inr (λ r. true-false (sym refused ∙ is_request flags r), rw (main, refused) refl)
    | inr fine ↦ inl (accepted flags fine, rw (main, fine) (run_chosen fuel flags s))
  ]
