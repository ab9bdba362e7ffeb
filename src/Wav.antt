-- ===== src/Wav.antt =====
-- internal/whisper/wav.go: the header that goes before the samples, as bytes.
pub mod Fields
use talk2text.Prelude.{
  ℕ, zero, suc, ◌+◌, ◌-◌, ◌*◌, ◌/◌, ◌%◌, ◌^◌, ltb, if◌then◌else◌, Option, none, some, List, [], ◌∷◌,
  ◌++◌,
}

-- riffChunkSizeBase, pcmAudioFormat, fmtSubchunkSize, numChannels, bitsPerSample, bytesPerSample and
-- SampleRateHz.
abbrev pub riff_chunk_size_base : ℕ
riff_chunk_size_base = 36

abbrev pub pcm_audio_format : ℕ
pcm_audio_format = 1

abbrev pub fmt_subchunk_size : ℕ
fmt_subchunk_size = 16

abbrev pub num_channels : ℕ
num_channels = 1

abbrev pub bits_per_sample : ℕ
bits_per_sample = 16

abbrev pub bytes_per_sample : ℕ
bytes_per_sample = bits_per_sample / 8

abbrev pub sample_rate_hz : ℕ
sample_rate_hz = 16000

-- The `[4]byte` fields.
abbrev pub riff_chunk_id : List ℕ
riff_chunk_id = b'R' ∷ b'I' ∷ b'F' ∷ b'F' ∷ []

abbrev pub wave_format : List ℕ
wave_format = b'W' ∷ b'A' ∷ b'V' ∷ b'E' ∷ []

abbrev pub fmt_subchunk_id : List ℕ
fmt_subchunk_id = b'f' ∷ b'm' ∷ b't' ∷ b' ' ∷ []

abbrev pub data_subchunk_id : List ℕ
data_subchunk_id = b'd' ∷ b'a' ∷ b't' ∷ b'a' ∷ []

-- wavHeader
pub record WavHeader : Type 0 where
  pub chunk_id : List ℕ
  pub chunk_size : ℕ
  pub format : List ℕ
  pub subchunk1_id : List ℕ
  pub subchunk1_size : ℕ
  pub audio_format : ℕ
  pub num_channels : ℕ
  pub sample_rate : ℕ
  pub byte_rate : ℕ
  pub block_align : ℕ
  pub bits_per_sample : ℕ
  pub subchunk2_id : List ℕ
  pub subchunk2_size : ℕ

-- binary.Write in little endian: `n` bytes of a number.
unfoldable pub little_endian : ℕ → ℕ → List ℕ
little_endian zero v = []
little_endian (suc n) v = v % 2 ^ 8 ∷ little_endian n (v / 2 ^ 8)

unfoldable pub write_fields : WavHeader → List ℕ
unfolding little_endian
write_fields h =
    h.chunk_id
    ++ little_endian 4 h.chunk_size
    ++ h.format
    ++ h.subchunk1_id
    ++ little_endian 4 h.subchunk1_size
    ++ little_endian 2 h.audio_format
    ++ little_endian 2 h.num_channels
    ++ little_endian 4 h.sample_rate
    ++ little_endian 4 h.byte_rate
    ++ little_endian 2 h.block_align
    ++ little_endian 2 h.bits_per_sample
    ++ h.subchunk2_id
    ++ little_endian 4 h.subchunk2_size

-- The header of so many bytes of samples; a `uint32` sum wraps.
unfoldable pub header_of : ℕ → WavHeader
header_of data_len = record {
  chunk_id = riff_chunk_id;
  chunk_size = (riff_chunk_size_base + data_len) % 2 ^ 32;
  format = wave_format;
  subchunk1_id = fmt_subchunk_id;
  subchunk1_size = fmt_subchunk_size;
  audio_format = pcm_audio_format;
  num_channels = num_channels;
  sample_rate = sample_rate_hz;
  byte_rate = sample_rate_hz * num_channels * bytes_per_sample;
  block_align = num_channels * bytes_per_sample;
  bits_per_sample = bits_per_sample;
  subchunk2_id = data_subchunk_id;
  subchunk2_size = data_len;
}

-- `none` is the error that the samples are too many.
unfoldable pub write_wav_header : ℕ → Option (List ℕ)
unfolding header_of write_fields
write_wav_header pcm_len =
    if ltb (2 ^ 32 - 1 - riff_chunk_size_base) pcm_len
    then none
    else some (write_fields (header_of (pcm_len % 2 ^ 32)))
