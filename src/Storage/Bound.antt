-- ===== src/Storage/Bound.antt =====
-- What `Decode` returns is no more than the frames that its caller allows.
use talk2text.Prelude.{
  ℕ, zero, suc, ◌+◌, ◌*◌, ◌/◌, ◌≤◌, ◌≡◌, refl, ap, sym, Bool, ltb, ◌==◌, Bool-cases, inl, inr,
  Option, none, some, List, [], ◌∷◌, ◌++◌, length, drop, ℤ, if◌then◌else◌, arith,
}
use talk2text.Mime.Reference.{All}
use talk2text.Storage.{
  Result, DecodeError, ok, err, or_fault, Native, append_samples, decode_from, decode,
  validate_frames, has_prefix, magic, samples_per_frame, pcm_bytes_per_frame, max_int, too_large,
  ◌>>=◌,
}
use talk2text.Storage.Frames.{
  IsStorageFrame, IsStream, concat, drop-append, validate_frames-IsStream,
}
use talk2text.Storage.Output.{bad_frame, decode_frame_lem, length-append_samples}

-- Whenever the decoder returns, it returns a frame of samples.
abbrev pub Fills : Native → Type 0
Fills native =
    (st : native.State) (memory : List ℕ) (bad : Bool) (st' : native.State) (out : List ℤ)
    → native.d_if_decode st memory bad ≡ some (st', out)
    → length out ≡ samples_per_frame

-- A chain that succeeds has both of its parts succeed.
bind-or_fault {ℓ κ} :
    {A : Type ℓ} {B : Type κ} (r : Option A) (f : A → Result B) (b : B)
    → (or_fault r >>= f) ≡ ok b
    → (a : A) × (r ≡ some a) × (f a ≡ ok b)
bind-or_fault none f b e = cc
bind-or_fault (some a) f b e = (a, refl, e)

bind-ok {ℓ κ} :
    {A : Type ℓ} {B : Type κ} (r : Result A) (f : A → Result B) (b : B)
    → (r >>= f) ≡ ok b
    → (a : A) × (r ≡ ok a) × (f a ≡ ok b)
bind-ok (err x) f b e = cc
bind-ok (ok a) f b e = (a, refl, e)

ok-injective {ℓ} : {A : Type ℓ} (a b : A) → ok a ≡ ok b → a ≡ b
ok-injective a b e = cc

failed {ℓ} : {A : Type ℓ} {x : DecodeError} (a : A) → err x ≡ ok a → ⊥
failed a e = cc

module _ (native : Native) (fills : Fills native) where
  decode_from-long :
      (fuel : ℕ) (st : native.State) (frames : List (List ℕ)) (pcm out : List ℕ)
      → All IsStorageFrame frames
      → decode_from native fuel st (concat frames) pcm ≡ ok out
      → length out ≡ length pcm + 640 * length frames
  unfolding decode_from
  decode_from-long fuel st [] pcm out w e = omega (arith, ap length (ok-injective pcm out e))
  decode_from-long fuel st ([] ∷ frames) pcm out w e = absurd w.0
  decode_from-long zero st ((header ∷ payload) ∷ frames) pcm out w e = cc
  decode_from-long (suc fuel) st ((header ∷ payload) ∷ frames) pcm out w e =
      let one = decode_frame_lem native st header payload (concat frames) (bad_frame header) w.0 in
      let ((st', samples), d, goes_on) =
        bind-or_fault _ _ out (rw (w.0, one, drop-append payload (concat frames)) at e) in
      let rest = decode_from-long fuel st' frames (append_samples pcm samples) out w.1 goes_on in
      let full = fills st (header ∷ payload ++ concat frames) (bad_frame header) st' samples d in
      omega (arith, length-append_samples pcm samples)

  -- The part of `Decode` behind the check of the frames.
  decoded-long :
      (n : ℕ) (frames : List ℕ) (out : List ℕ)
      → IsStream n frames
      → (if n == 0
          then ok []
          else if ltb (max_int / pcm_bytes_per_frame) n
          then err too_large
          else decode_from native (length frames) native.d_if_init frames [])
        ≡ ok out
      → length out ≡ 640 * n
  decoded-long n frames out s e = elim (Bool-cases (n == 0)) [
    | inl none_left ↦
        let empty = ok-injective [] out (rw none_left at e) in ground (arith, ap length empty)
    | inr some_left ↦ elim (Bool-cases (ltb (max_int / pcm_bytes_per_frame) n)) [
      | inl big ↦ absurd (failed out (rw (some_left, big) at e))
      | inr small ↦
          let l =
            decode_from-long (length (concat s.frames)) native.d_if_init s.frames [] out s.whole
              (rw (some_left, small, sym s.joined) at e) in
          omega (arith, s.count)
    ]
  ]

  -- If `decode` succeeds, it gives 640 bytes for each of at most `max_frames` frames.
  pub decode-ok :
      (stream : List ℕ) (max_frames : ℕ) (out : List ℕ)
      → decode native stream max_frames ≡ ok out
      → (n : ℕ) × (n ≤ max_frames) × (length out ≡ 640 * n)
  unfolding decode
  decode-ok stream max_frames out e = elim (Bool-cases (has_prefix stream magic)) [
    | inr bad ↦ absurd (failed out (rw bad at e))
    | inl good ↦
        let frames = drop (length magic) stream in
        let (n, v, goes_on) = bind-ok (validate_frames frames max_frames) _ out (rw good at e) in
        let (few, s) = (validate_frames-IsStream frames max_frames n).0 v in
        (n, few, decoded-long n frames out s goes_on)
  ]
