-- ===== src/AudioHal/Player/Handles.antt =====
-- The device and the stream that the playback test (audio_hal_playback_test.cpp) opens and closes.
use brillo_device_generic_br.Base.{ℕ, ◌≡◌, ◌⊎◌, Option, none, some, List, [], ◌∷◌, ◌++◌}
use brillo_device_generic_br.Base.Int.{pos, negsuc}
use brillo_device_generic_br.AudioHal
use brillo_device_generic_br.AudioHal.{
  Generated, generated, no_fuel, Playback, write_buffers, play_generated, after_write, after_frames,
  play_loop, play_file,
}
use brillo_device_generic_br.AudioHal.Player.{
  PlayHal, PlayExit, exited, aborted, overrun, divided_by_zero, out_of_fuel,
}

-- A call that opens or closes a handle, when it succeeds.
pub data Call : Type 0 where
  device_opened stream_opened stream_closed device_closed : Call

abbrev opened : Call → Option ℕ → List Call → List Call
opened call none log = log
opened call (some handle) log = log ++ (call ∷ [])

-- A HAL whose state keeps these calls in their order.
abbrev pub logged : {S : Type 0} → PlayHal S → PlayHal (S × List Call)
logged hal = record {
  hw_get_module_by_class =
      λ class (s, log). let (o, s') = hal.hw_get_module_by_class class s in (o, (s', log));
  audio_hw_device_open = λ m (s, log).
      let (o, s') = hal.audio_hw_device_open m s in (o, (s', opened device_opened o log));
  sf_open = λ name (s, log). let (o, s') = hal.sf_open name s in (o, (s', log));
  open_output_stream = λ device output_device config (s, log).
      let (o, config', s') = hal.open_output_stream device output_device config s in
      (o, config', (s', opened stream_opened o log));
  set_volume = λ stream (s, log). (hal.set_volume stream s, log);
  playback = λ stream file. record {
    get_buffer_size = λ (s, log). (hal.playback stream file).get_buffer_size s;
    write = λ samples (s, log).
        let (rc, s') = (hal.playback stream file).write samples s in (rc, (s', log));
    sf_readf_short =
        λ n (s, log). let (r, s') = (hal.playback stream file).sf_readf_short n s in (r, (s', log));
  };
  close_output_stream = λ device stream (s, log).
      (hal.close_output_stream device stream s, log ++ (stream_closed ∷ []));
  audio_hw_device_close =
      λ device (s, log). (hal.audio_hw_device_close device s, log ++ (device_closed ∷ []));
}

abbrev pub all_calls : List Call
all_calls = device_opened ∷ stream_opened ∷ stream_closed ∷ device_closed ∷ []

abbrev pub left_open : List Call
left_open = device_opened ∷ stream_opened ∷ []

-- The ends inside the playing, other than a CHECK.
abbrev pub IsBroken : PlayExit → Type 0
IsBroken exit = (exit ≡ overrun) ⊎ ((exit ≡ divided_by_zero) ⊎ (exit ≡ out_of_fuel))

-- How a run ends, and what it has opened and closed.
abbrev pub Ended : {S : Type 0} → PlayExit × (S × List Call) → Type 0
Ended out =
    ((out.0 ≡ exited (pos 0)) × (out.1.1 ≡ all_calls))
    ⊎ (((out.0 ≡ exited (negsuc 0)) × ((out.1.1 ≡ []) ⊎ (out.1.1 ≡ device_opened ∷ [])))
        ⊎ (((out.0 ≡ aborted) × ((out.1.1 ≡ device_opened ∷ []) ⊎ (out.1.1 ≡ left_open)))
            ⊎ (IsBroken out.0 × (out.1.1 ≡ left_open))))
