-- ===== src/AudioTest.antt =====
-- The audio test program, pts/audio/brillo-audio-test. Formats: utils.cpp. MediaRecord:
-- libmedia_record.cpp. MediaPlayback: libmedia_playback.cpp. Stagefright: stagefright_record.cpp
-- and stagefright_playback.cpp. Program: brillo_audio_test.cpp.
pub mod Formats
pub mod MediaRecord
pub mod MediaPlayback
pub mod Stagefright
pub mod Program
