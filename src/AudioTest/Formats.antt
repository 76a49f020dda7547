-- ===== src/AudioTest/Formats.antt =====
-- The formats of audio data in pts/audio/brillo-audio-test: utils.cpp, and get_format of
-- brillo_audio_test.cpp. The constants of sndfile.h and the sizes of system/audio.h are parameters.
use brillo_device_generic_br.Base.{ℕ, ◌-◌, ◌^◌, ◌≡◌, ◌==◌, refl, if◌then◌else◌, bit_and, bit_or}
use brillo_device_generic_br.Base.Int.{ℤ, pos, negsuc}

-- The values of audio_format_t that the program makes.
pub data AudioFormat : Type 0 where
  pcm_8_bit pcm_16_bit pcm_32_bit invalid : AudioFormat

pub record SoundHeader : Type 0 where
  pub sf_format_wav : ℕ
  pub sf_format_pcm_u8 : ℕ
  pub sf_format_pcm_16 : ℕ
  pub sf_format_pcm_32 : ℕ
  pub sf_format_submask : ℕ

-- An int as a size_t, and as the bits that `&` works on.
abbrev pub to_size_t : ℤ → ℕ
to_size_t (pos n) = n
to_size_t (negsuc n) = 2 ^ 64 - 1 - n

abbrev int_bits : ℤ → ℕ
int_bits (pos n) = n
int_bits (negsuc n) = 2 ^ 32 - 1 - n

unfoldable pub convert_to_snd_file_format : SoundHeader → AudioFormat → ℤ
convert_to_snd_file_format h pcm_8_bit = pos (bit_or h.sf_format_wav h.sf_format_pcm_u8)
convert_to_snd_file_format h pcm_16_bit = pos (bit_or h.sf_format_wav h.sf_format_pcm_16)
convert_to_snd_file_format h pcm_32_bit = pos (bit_or h.sf_format_wav h.sf_format_pcm_32)
convert_to_snd_file_format h invalid = negsuc 0

unfoldable pub convert_to_audio_format : SoundHeader → ℤ → AudioFormat
convert_to_audio_format h format =
    let sub = bit_and (int_bits format) h.sf_format_submask in
    if sub == h.sf_format_pcm_u8
    then pcm_8_bit
    else if sub == h.sf_format_pcm_16
    then pcm_16_bit
    else if sub == h.sf_format_pcm_32
    then pcm_32_bit
    else invalid

unfoldable pub get_format : ℤ → AudioFormat
get_format (pos sample_size) =
    if sample_size == 1
    then pcm_8_bit
    else if sample_size == 2
    then pcm_16_bit
    else if sample_size == 4
    then pcm_32_bit
    else invalid
get_format (negsuc n) = invalid

-- The documented values of sndfile.h.
pub record SoundLaws (h : SoundHeader) : Type 0 where
  pub wav : h.sf_format_wav ≡ 0x10000
  pub pcm_u8 : h.sf_format_pcm_u8 ≡ 5
  pub pcm_16 : h.sf_format_pcm_16 ≡ 2
  pub pcm_32 : h.sf_format_pcm_32 ≡ 4
  pub submask : h.sf_format_submask ≡ 0xffff

-- audio_bytes_per_sample, as system/audio.h documents it.
pub record SizeLaws (audio_bytes_per_sample : AudioFormat → ℕ) : Type 0 where
  pub size_8_bit : audio_bytes_per_sample pcm_8_bit ≡ 1
  pub size_16_bit : audio_bytes_per_sample pcm_16_bit ≡ 2
  pub size_32_bit : audio_bytes_per_sample pcm_32_bit ≡ 4
  pub size_invalid : audio_bytes_per_sample invalid ≡ 0

-- With the documented constants, a format that is converted for the sound file is converted back to
-- itself, also the one that has no sound format.
pub convert_to_audio_format-convert_to_snd_file_format :
    (h : SoundHeader)
    → SoundLaws h
    → (format : AudioFormat)
    → convert_to_audio_format h (convert_to_snd_file_format h format) ≡ format
unfolding convert_to_audio_format convert_to_snd_file_format
convert_to_audio_format-convert_to_snd_file_format h laws pcm_8_bit =
    rw (laws.wav, laws.pcm_u8, laws.pcm_16, laws.pcm_32, laws.submask) refl
convert_to_audio_format-convert_to_snd_file_format h laws pcm_16_bit =
    rw (laws.wav, laws.pcm_u8, laws.pcm_16, laws.pcm_32, laws.submask) refl
convert_to_audio_format-convert_to_snd_file_format h laws pcm_32_bit =
    rw (laws.wav, laws.pcm_u8, laws.pcm_16, laws.pcm_32, laws.submask) refl
convert_to_audio_format-convert_to_snd_file_format h laws invalid =
    rw (laws.pcm_u8, laws.pcm_16, laws.pcm_32, laws.submask) refl

-- With the documented sizes, the format that is chosen for a sample size has that size if it is 1,
-- 2 or 4, and is invalid otherwise.
