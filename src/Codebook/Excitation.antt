-- ===== src/Codebook/Excitation.antt =====
-- The excitation vector that the pulses of the four tracks make.
use talk2text.Prelude.{
  ℕ, zero, suc, ◌+◌, ◌-◌, ◌*◌, ◌^◌, ◌≤◌, ◌<◌, bit_and, ◌≡◌, refl, Bool, true, false, if◌then◌else◌,
  ◌==◌, List, [], ◌∷◌, length, length-set, arith, ℤ, pos, pos_part, neg_part, ◌+ℤ◌, ◌-ℤ◌, to_int16,
  to_int16_id, Option, none, some, get_elem?, set, replicate,
}
use talk2text.Mime.{◌>>=◌}
use talk2text.Mime.Reference.{All}
use talk2text.Prelude.Bits.{bit_and_mask}
use talk2text.Codebook.{
  dec_1p_n1, dec_2p_2n1, dec_3p_3n1, dec_4p_4n, dec_5p_5n, dec_6p_6n_2, add_pulse, add_pulses,
  tracks, dec_acelp_4p_in_64, nb_pos,
}
use talk2text.Codebook.Positions.{dec_1p_n1-ArePulses, dec_2p_2n1-ArePulses, dec_3p_3n1-ArePulses}
use talk2text.Codebook.Halves.{dec_4p_4n-ArePulses, dec_5p_5n-ArePulses}
use talk2text.Codebook.Six.{dec_6p_6n_2-ArePulses}

-- An amplitude of at most `k` pulses.
abbrev pub IsAmplitude : ℕ → ℤ → Type 0
IsAmplitude k z = (pos_part z ≤ 512 * k) × (neg_part z ≤ 512 * k)

-- A vector of 64 amplitudes, made of `k` pulses.
pub record IsVector (k : ℕ) (code : List ℤ) : Type 0 where
  pub size : length code ≡ 64
  pub each : All (IsAmplitude k) code

-- The vector was made, with no write outside it.
abbrev pub IsMade : ℕ → Option (List ℤ) → Type 0
IsMade k result = (code : List ℤ) × (result ≡ some code) × IsVector k code

All-lookup :
    (k : ℕ) (code : List ℤ) (i : ℕ)
    → i < length code
    → All (IsAmplitude k) code
    → (z : ℤ) × (get_elem? code i ≡ some z) × IsAmplitude k z
All-lookup k [] i h a = absurd (omega arith)
All-lookup k (x ∷ xs) zero h a = (x, refl, a.0)
All-lookup k (x ∷ xs) (suc i) h a = All-lookup k xs i (omega arith) a.1

All-grow : (k m : ℕ) (code : List ℤ) → k ≤ m → All (IsAmplitude k) code → All (IsAmplitude m) code
All-grow k m [] h a = tt
All-grow k m (x ∷ xs) h a = ((omega arith, omega arith), All-grow k m xs h a.1)

All-set :
    (k : ℕ) (code : List ℤ) (i : ℕ) (z : ℤ)
    → IsAmplitude k z
    → All (IsAmplitude k) code
    → All (IsAmplitude k) (set code i z)
All-set k [] i z h a = tt
All-set k (x ∷ xs) zero z h a = (h, a.1)
All-set k (x ∷ xs) (suc i) z h a = (a.0, All-set k xs i z h a.1)

All-zero : (n k : ℕ) → All (IsAmplitude k) (replicate n (pos 0))
All-zero zero k = tt
All-zero (suc n) k = ((omega arith, omega arith), All-zero n k)

-- The sum of a step fits int16, so the cast keeps it.
stepped :
    (k : ℕ) (b : Bool) (z : ℤ)
    → k < 63
    → IsAmplitude k z
    → IsAmplitude (suc k) (to_int16 (if b then z +ℤ pos 512 else z -ℤ pos 512))
unfolding ◌+ℤ◌ ◌-ℤ◌
stepped k true z h a = rw (to_int16_id (z +ℤ pos 512) (ground arith)) (ground arith)
stepped k false z h a = rw (to_int16_id (z -ℤ pos 512) (ground arith)) (ground arith)

pub add_pulse-IsMade :
    (k p track : ℕ) (code : List ℤ)
    → k < 63
    → track < 4
    → IsVector k code
    → IsMade (suc k) (add_pulse p track code)
unfolding add_pulse
add_pulse-IsMade k p track code h t v =
    let i = bit_and p (nb_pos - 1) * 2 ^ 2 + track in
    let (z, e, a) = All-lookup k code i (omega (arith, bit_and_mask 4 p, v.size)) v.each in
    rw e (
      _,
      refl,
      record {
        size = rw (length-set code i) v.size;
        each =
            All-set (suc k) code i _ (stepped k (bit_and p nb_pos == 0) z h a)
              (All-grow k (suc k) code (omega arith) v.each);
      },
    )

add_pulses-IsMade :
    (k m track : ℕ) (ps : List ℕ) (code : List ℤ)
    → m + k < 64
    → track < 4
    → length ps ≡ m
    → IsVector k code
    → IsMade (m + k) (add_pulses ps track code)
unfolding add_pulses
add_pulses-IsMade k zero track [] code h t e v =
    let same : 0 + k ≡ k = omega arith in rw same (code, refl, v)
add_pulses-IsMade k zero track (p ∷ ps) code h t e v = absurd (omega arith)
add_pulses-IsMade k (suc m) track [] code h t e v = absurd (omega arith)
add_pulses-IsMade k (suc m) track (p ∷ ps) code h t e v =
    let (code', made, v') = add_pulse-IsMade k p track code (omega arith) t v in
    let same : m + suc k ≡ suc m + k = omega arith in
    rw (made, ← same) (add_pulses-IsMade (suc k) m track ps code' (omega arith) t (omega arith) v')

word : (index : List ℕ) (k : ℕ) → k < length index → (w : ℕ) × (get_elem? index k ≡ some w)
word [] k h = absurd (omega arith)
word (x ∷ xs) zero h = (x, refl)
word (x ∷ xs) (suc k) h = word xs k (omega arith)

-- A decoder that gives `c` pulses for each track, on the tracks from `k` on.
module _ (dec : ℕ → ℕ → ℕ → List ℕ) (c : ℕ) (count : (x : ℕ) → length (dec x 4 0) ≡ c)
    (index : List ℕ) (words : 8 ≤ length index) where
  tracks-IsMade :
      (upper : Option ℕ) (n k m : ℕ) (code : List ℤ)
      → k + n ≤ 4
      → n * c + m < 64
      → IsVector m code
      → IsMade (n * c + m) (tracks dec upper n k index code)
  unfolding tracks
  tracks-IsMade upper zero k m code h l v =
      let same : 0 * c + m ≡ m = omega arith in rw same (code, refl, v)
  tracks-IsMade none (suc n) k m code h l v =
      let (w, e) = word index k (omega arith) in
      let (code', made, v') =
        add_pulses-IsMade m c k (dec w 4 0) code (omega arith) (omega arith) (count w) v in
      let same : n * c + (c + m) ≡ suc n * c + m = omega arith in
      rw (e, made, ← same)
        (tracks-IsMade none n (k + 1) (c + m) code' (omega arith) (omega arith) v')
  tracks-IsMade (some bits) (suc n) k m code h l v =
      let (w, e) = word index k (omega arith) in
      let (w', e') = word index (k + 4) (omega arith) in
      let (code', made, v') =
        add_pulses-IsMade m c k (dec (w * 2 ^ bits + w') 4 0) code (omega arith) (omega arith)
          (count _) v in
      let same : n * c + (c + m) ≡ suc n * c + m = omega arith in
      rw (e, e', made, ← same)
        (tracks-IsMade (some bits) n (k + 1) (c + m) code' (omega arith) (omega arith) v')

-- The pulses of a subframe, by the number of the bits that code them.
abbrev pub pulse_count : ℕ → ℕ
pulse_count nbbits =
    if nbbits == 20
    then 4
    else if nbbits == 36
    then 8
    else if nbbits == 44
    then 10
    else if nbbits == 52
    then 12
    else if nbbits == 64
    then 16
    else if nbbits == 72
    then 18
    else if nbbits == 88
    then 24
    else 0

if_IsMade :
    (b : Bool) (k m : ℕ) (r s : Option (List ℤ))
    → IsMade k r
    → IsMade m s
    → IsMade (if b then k else m) (if b then r else s)
if_IsMade true k m r s p q = p
if_IsMade false k m r s p q = q

zeros : IsVector 0 (replicate 64 (pos 0))
zeros = record { size = refl; each = All-zero 64 0 }

-- Two decoders, on the first and on the last two tracks.
two_decoders :
    (dec dec' : ℕ → ℕ → ℕ → List ℕ) (c c' : ℕ) (upper upper' : Option ℕ) (index : List ℕ)
    → ((x : ℕ) → length (dec x 4 0) ≡ c)
    → ((x : ℕ) → length (dec' x 4 0) ≡ c')
    → 8 ≤ length index
    → c + c' < 30
    → IsMade
        (2 * c' + (2 * c + 0))
        (tracks dec upper 2 0 index (replicate 64 (pos 0)) >>= tracks dec' upper' 2 2 index)
two_decoders dec dec' c c' upper upper' index h h' w l =
    let (code, made, v) =
      tracks-IsMade dec c h index w upper 2 0 0 (replicate 64 (pos 0)) (omega arith) (omega arith)
        zeros in
    rw made
      (tracks-IsMade dec' c' h' index w upper' 2 2 (2 * c + 0) code (omega arith) (omega arith) v)

-- For every list of at least 8 index words and every number of bits, `dec_acelp_4p_in_64` returns
-- a vector of 64 entries, so no pulse is written out of range, and each entry lies between -512
-- and 512 times the number of pulses that `pulse_count` gives for the number of bits (0 for a
-- number that the switch does not know).
pub dec_acelp_4p_in_64-IsMade :
    (index : List ℕ) (nbbits : ℕ)
    → 8 ≤ length index
    → IsMade (pulse_count nbbits) (dec_acelp_4p_in_64 index nbbits)
unfolding dec_acelp_4p_in_64
dec_acelp_4p_in_64-IsMade index nbbits h =
    let one = λ (x : ℕ). (dec_1p_n1-ArePulses x 4 0 (omega arith)).count in
    let two = λ (x : ℕ). (dec_2p_2n1-ArePulses x 4 0 (omega arith)).count in
    let three = λ (x : ℕ). (dec_3p_3n1-ArePulses x 4 0 (omega arith) (omega arith)).count in
    let four = λ (x : ℕ). (dec_4p_4n-ArePulses 4 0 (omega arith) (omega arith) x).count in
    let five = λ (x : ℕ). (dec_5p_5n-ArePulses 4 0 (omega arith) (omega arith) x).count in
    let six = λ (x : ℕ). (dec_6p_6n_2-ArePulses 4 0 (omega arith) (omega arith) x).count in
    let code = replicate 64 (pos 0) in
    if_IsMade _ _ _ _ _
      (tracks-IsMade dec_1p_n1 1 one index h none 4 0 0 code (omega arith) (omega arith) zeros)
      (if_IsMade _ _ _ _ _
        (tracks-IsMade dec_2p_2n1 2 two index h none 4 0 0 code (omega arith) (omega arith) zeros)
        (if_IsMade _ _ _ _ _
          (two_decoders dec_3p_3n1 dec_2p_2n1 3 2 none none index three two h (omega arith))
          (if_IsMade _ _ _ _ _
            (tracks-IsMade dec_3p_3n1 3 three index h none 4 0 0 code (omega arith) (omega arith)
              zeros)
            (if_IsMade _ _ _ _ _
              (tracks-IsMade dec_4p_4n 4 four index h (some 14) 4 0 0 code (omega arith)
                (omega arith) zeros)
              (if_IsMade _ _ _ _ _
                (two_decoders dec_5p_5n dec_4p_4n 5 4 (some 10) (some 14) index five four h
                  (omega arith))
                (if_IsMade _ _ _ _ _
                  (tracks-IsMade dec_6p_6n_2 6 six index h (some 11) 4 0 0 code (omega arith)
                    (omega arith) zeros)
                  (code, refl, zeros)))))))
