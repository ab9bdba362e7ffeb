-- ===== src/Gains/Runs.antt =====
-- A row of lost subframes, from any memory in order.
use talk2text.Prelude.{
  ℕ, ◌≤◌, ◌<◌, ◌^◌, ◌≡◌, refl, ◌∙◌, Bool, true, false, if◌then◌else◌, ltb, Option, some, List, [],
  ◌∷◌, ◌++◌, drop, ℤ, pos, pos_part, neg_part, arith, length,
}
use talk2text.Mime.Reference.{All}
use talk2text.FixedPoint.{mult_int16, mul_16by16_to_int32}
use talk2text.Mathematics.{◌>>=◌}
use talk2text.Gains.{
  GainMemory, LostSubframe, conceal_gains, dec_gain2_amr_wb_init, limited, lost_energy,
}
use talk2text.Gains.Erasure.{
  IsGain, IsGainMemory, median_of-returns, scaled, lost_energy-bounds, pitch_factor, code_factor,
  limited-IsGain, moved-IsGain,
}

-- The subframes one behind the other; the pitch gains, and the memory at the end.
unfoldable pub conceal_all : List LostSubframe → GainMemory → Option (List ℤ × GainMemory)
conceal_all [] mem = some ([], mem)
conceal_all (f ∷ fs) mem = do
  (gain_pit, _, mem') ← conceal_gains f mem
  (gains, last) ← conceal_all fs mem'
  some (gain_pit ∷ gains, last)

-- Not below zero, and at most 0.95 in Q14.
abbrev pub IsLimited : ℤ → Type 0
IsLimited gain = (neg_part gain ≡ 0) × (pos_part gain ≤ 15565)

pub record Conceals (fs : List LostSubframe) (mem : GainMemory) : Type 0 where
  pub gains : List ℤ
  pub last : GainMemory
  pub returns : conceal_all fs mem ≡ some (gains, last)
  pub as_many : length gains ≡ length fs
  pub bounded : All IsLimited gains
  pub in_order : IsGainMemory last
  pub oldest : last.past_qua_en_3 ≡ mem.past_qua_en_3

-- One of them.
record ConcealsOne (f : LostSubframe) (mem : GainMemory) : Type 0 where
  gain_pit : ℤ
  gain_cod : ℤ
  after : GainMemory
  returns : conceal_gains f mem ≡ some (gain_pit, gain_cod, after)
  bounded : IsLimited gain_pit
  in_order : IsGainMemory after
  oldest : after.past_qua_en_3 ≡ mem.past_qua_en_3

if-IsGain :
    (vad : Bool) (c : ℕ) (code : ℤ)
    → c < 2 ^ 15
    → IsGain code
    → IsGain (if vad then code else mult_int16 (pos c) code)
if-IsGain true c code h g = g
if-IsGain false c code h g = (scaled c code h g).0

conceal_gains-ConcealsOne :
    (f : LostSubframe) (mem : GainMemory) → f.state ≤ 6 → IsGainMemory mem → ConcealsOne f mem
unfolding conceal_gains
conceal_gains-ConcealsOne f mem h v =
    let (pitch, e1, g1) = median_of-returns mem.pbuf v.pitches.0 v.pitches.1 in
    let (p, e2, p_small) = pitch_factor f.unusable_frame f.state h in
    let (code, e3, g3) = median_of-returns mem.gbuf v.codes.0 v.codes.1 in
    let (c, e4, c_small) = code_factor f.unusable_frame f.state h in
    let (kept, low) = limited-IsGain pitch g1 in
    let (gain, less) = scaled p (limited pitch) p_small kept in
    let (e_0, e_1, e_2, e_3) = v.energies in
    let (least, most) = lost_energy-bounds mem v in
    let code_after = if ltb 2 f.vad_hist then code else mult_int16 (pos c) code in
    record {
      gain_pit = mult_int16 (pos p) (limited pitch);
      gain_cod = mul_16by16_to_int32 code_after f.gcode_inov;
      after = record mem {
        past_qua_en_0 = lost_energy mem;
        past_qua_en_1 = mem.past_qua_en_0;
        past_qua_en_2 = mem.past_qua_en_1;
        past_gain_pit = limited pitch;
        past_gain_code = code_after;
        pbuf = drop 1 mem.pbuf ++ limited pitch ∷ [];
        gbuf = drop 1 mem.gbuf ++ code_after ∷ [];
      };
      returns = rw (e1, e2, e3, e4) refl;
      bounded = (gain.0, omega (arith, less, low));
      in_order = record {
        pitches = moved-IsGain mem.pbuf (limited pitch) v.pitches kept;
        codes =
            moved-IsGain mem.gbuf code_after v.codes
              (if-IsGain (ltb 2 f.vad_hist) c code c_small g3);
        energies = ((omega (arith, least), most), e_0, e_1, e_3);
      };
      oldest = refl;
    }

-- From a memory with five pitch gains and five code gains from 0 to below 2 ^ 15 and with energies
-- from -14336 to below 2 ^ 14, for every row of lost subframes with a state of at most 6,
-- `conceal_gains` returns for each of them, each pitch gain is from 0 to 15565, the memory at the
-- end has the same properties, and its oldest energy is the one of the start.
pub conceal_all-Conceals :
    (fs : List LostSubframe) (mem : GainMemory)
    → All (λ f. f.state ≤ 6) fs
    → IsGainMemory mem
    → Conceals fs mem
unfolding conceal_all
conceal_all-Conceals [] mem h v = record {
  gains = [];
  last = mem;
  returns = refl;
  as_many = refl;
  bounded = tt;
  in_order = v;
  oldest = refl;
}
conceal_all-Conceals (f ∷ fs) mem h v =
    let one = conceal_gains-ConcealsOne f mem h.0 v in
    let rest = conceal_all-Conceals fs one.after h.1 one.in_order in
    record {
      gains = one.gain_pit ∷ rest.gains;
      last = rest.last;
      returns = rw (one.returns, rest.returns) refl;
      as_many = omega (arith, rest.as_many);
      bounded = (one.bounded, rest.bounded);
      in_order = rest.in_order;
      oldest = rest.oldest ∙ one.oldest;
    }

pub dec_gain2_amr_wb_init-IsGainMemory : IsGainMemory dec_gain2_amr_wb_init
unfolding dec_gain2_amr_wb_init
dec_gain2_amr_wb_init-IsGainMemory = ground arith
