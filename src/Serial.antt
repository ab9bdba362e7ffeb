-- ===== src/Serial.antt =====
-- get_amr_wb_bits.c: the parameters are read from the unpacked bits, highest bit first. The pointer
-- is what is left of the bits, `none` a read past their end, and a value is an int16's bit pattern.
pub mod Laws
use talk2text.Prelude.{
  ℕ, zero, suc, ◌*◌, ◌/◌, ◌%◌, ◌^◌, bit_or, if◌then◌else◌, ◌==◌, Option, none, some, List, [], ◌∷◌,
}
use talk2text.Mime.{◌>>=◌, bit_1}

-- `*((*prms)++)`
abbrev pub next : List ℕ → Option (ℕ × List ℕ)
next [] = none
next (p ∷ ps) = some (p, ps)

-- Two bits a round.
unfoldable pub serial_pairs : ℕ → ℕ → List ℕ → Option (ℕ × List ℕ)
serial_pairs zero value prms = some (value, prms)
serial_pairs (suc i) value prms = do
  (first, prms') ← next prms
  (second, prms'') ← next prms'
  let shifted = value * 2 ^ 2 % 2 ^ 16
  let upper = if first == bit_1 then bit_or shifted 2 else shifted
  serial_pairs i (if second == bit_1 then bit_or upper 1 else upper) prms''

-- The odd bit, where there is one.
unfoldable pub serial_odd : ℕ → ℕ → List ℕ → Option (ℕ × List ℕ)
serial_odd zero value prms = some (value, prms)
serial_odd (suc _) value prms = do
  (last, prms') ← next prms
  let shifted = value * 2 % 2 ^ 16
  some (if last == bit_1 then bit_or shifted 1 else shifted, prms')

unfoldable pub serial_parm : ℕ → List ℕ → Option (ℕ × List ℕ)
serial_parm no_of_bits prms = do
  (value, prms') ← serial_pairs (no_of_bits / 2) 0 prms
  serial_odd (no_of_bits % 2) value prms'

unfoldable pub serial_parm_1bit : List ℕ → Option (ℕ × List ℕ)
serial_parm_1bit prms = do (bit, prms') ← next prms; some (if bit == bit_1 then 1 else 0, prms')
