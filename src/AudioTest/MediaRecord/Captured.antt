-- ===== src/AudioTest/MediaRecord/Captured.antt =====
-- What the callback of LibmediaRecord (libmedia_record.cpp) stores.
use brillo_device_generic_br.Base.{◌≡◌, sym, ◌∙◌, ℕ, List, [], ◌∷◌, ◌++◌}
use mathlib.Core.List.{append_assoc, append-nil}
use brillo_device_generic_br.AudioTest.MediaRecord.{
  RecordEvent, more_data, overrun, unexpected, record_callback, record_events,
}

-- The bytes that the events brought, in their order.
abbrev pub captured : List RecordEvent → List ℕ
captured [] = []
captured (more_data buffer ∷ events) = buffer ++ captured events
captured (overrun ∷ events) = captured events
captured (unexpected ∷ events) = captured events

pub record_events-captured :
    (events : List RecordEvent) (audio_data : List ℕ)
    → record_events audio_data events ≡ audio_data ++ captured events
unfolding record_events record_callback
record_events-captured [] audio_data = sym (append-nil audio_data)
record_events-captured (more_data buffer ∷ events) audio_data =
    record_events-captured events (audio_data ++ buffer)
    ∙ append_assoc audio_data buffer (captured events)
record_events-captured (overrun ∷ events) audio_data = record_events-captured events audio_data
record_events-captured (unexpected ∷ events) audio_data = record_events-captured events audio_data
