-- ===== src/Wav/Fields.antt =====
-- internal/whisper/wav.go against a reader of the format.
use talk2text.Prelude.{
  ◌∙◌, false, ℕ, zero, suc, ◌+◌, ◌-◌, ◌*◌, ◌/◌, ◌%◌, ◌^◌, ◌≤◌, ◌<◌, ◌≡◌, refl, ap, some, List, [],
  ◌∷◌, length, take, drop, ltb, arith,
}
use talk2text.Wav.{little_endian, write_fields, header_of, write_wav_header}

-- The number that bytes in little endian stand for.
abbrev pub value_of : List ℕ → ℕ
value_of [] = 0
value_of (b ∷ bs) = b + 2 ^ 8 * value_of bs

-- `n` bytes from the offset `i`.
abbrev pub field : ℕ → ℕ → List ℕ → List ℕ
field i n bytes = take n (drop i bytes)

-- A reader finds the four marks, a format block of 16 bytes for PCM, mono samples of 16 bits at 16
-- kHz, and the sizes of a file with `pcm_len` bytes of samples behind the header.
pub record Reads (pcm_len : ℕ) (header : List ℕ) : Type 0 where
  pub whole : length header ≡ 44
  pub riff : field 0 4 header ≡ b'R' ∷ b'I' ∷ b'F' ∷ b'F' ∷ []
  pub wave : field 8 4 header ≡ b'W' ∷ b'A' ∷ b'V' ∷ b'E' ∷ []
  pub format_mark : field 12 4 header ≡ b'f' ∷ b'm' ∷ b't' ∷ b' ' ∷ []
  pub samples_mark : field 36 4 header ≡ b'd' ∷ b'a' ∷ b't' ∷ b'a' ∷ []
  pub format_size : value_of (field 16 4 header) ≡ 16
  pub is_pcm : value_of (field 20 2 header) ≡ 1
  pub file_size : value_of (field 4 4 header) + 8 ≡ 44 + pcm_len
  pub data_size : value_of (field 40 4 header) ≡ pcm_len
  pub rates :
      (value_of (field 22 2 header) ≡ 1)
      × (value_of (field 24 4 header) ≡ 16000)
      × (value_of (field 28 4 header) ≡ 32000)
      × (value_of (field 32 2 header) ≡ 2)
      × (value_of (field 34 2 header) ≡ 16)

value_of-little_endian : (n v : ℕ) → v < 256 ^ n → value_of (little_endian n v) ≡ v
unfolding little_endian
value_of-little_endian zero v h = omega arith
value_of-little_endian (suc n) v h =
    let bound : v / 256 < 256 ^ n = omega arith in
    let rest = value_of-little_endian n (v / 256) bound in omega arith

header_of-Reads :
    (pcm_len : ℕ)
    → pcm_len ≤ 2 ^ 32 - 1 - 36
    → Reads pcm_len (write_fields (header_of (pcm_len % 2 ^ 32)))
unfolding header_of write_fields little_endian
header_of-Reads pcm_len h =
    let word = value_of-little_endian 4 in
    record {
      whole = refl;
      riff = refl;
      wave = refl;
      format_mark = refl;
      samples_mark = refl;
      format_size = refl;
      is_pcm = refl;
      file_size =
          ap (λ n. n + 8) (word ((36 + pcm_len % 2 ^ 32) % 2 ^ 32) (omega arith)) ∙ omega arith;
      data_size = word (pcm_len % 2 ^ 32) (omega arith) ∙ omega arith;
      rates = (refl, refl, refl, refl, refl);
    }

-- If the samples take at most 2 ^ 32 - 1 - 36 bytes, `write_wav_header` writes 44 bytes in which a
-- reader finds the bytes of RIFF, WAVE, fmt and data at the offsets 0, 8, 12 and 36, a format
-- block of 16 bytes for PCM, the sizes of the file and of its samples, one channel, 16000 samples
-- a second, 32000 bytes a second, and 2 bytes or 16 bits a sample.
pub write_wav_header-Reads :
    (pcm_len : ℕ)
    → pcm_len ≤ 2 ^ 32 - 1 - 36
    → (header : List ℕ) × (write_wav_header pcm_len ≡ some header) × Reads pcm_len header
unfolding write_wav_header
write_wav_header-Reads pcm_len h =
    let small : ltb (2 ^ 32 - 1 - 36) pcm_len ≡ false = ground arith in
    (write_fields (header_of (pcm_len % 2 ^ 32)), rw small refl, header_of-Reads pcm_len h)
