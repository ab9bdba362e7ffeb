-- ===== src/FixedPoint/Wide.antt =====
-- The 32-bit saturating operations against exact arithmetic.
use talk2text.Prelude.{
  ◌^◌, ◌≤◌, ◌≡◌, refl, Bool, if◌then◌else◌, ℤ, pos, negsuc, pos_part, neg_part, ◌+ℤ◌, ◌-ℤ◌, ◌*ℤ◌,
  eqb_ℤ, ltb_ℤ, to_int32, shl32, IsInt16, IsInt32, sat32, max_32, min_32, arith,
}
use talk2text.FixedPoint.Saturation.{same_sign, sign_test, sign_mask32, *ℤ-bound}
use talk2text.FixedPoint.{
  add_int32, sub_int32, mul_16by16_to_int32, mac_16by16_to_int32, msu_16by16_from_int32,
}

pub to_int32-IsInt32 : (z : ℤ) → IsInt32 (to_int32 z)
unfolding to_int32
to_int32-IsInt32 (pos n) = ground arith
to_int32-IsInt32 (negsuc n) = ground arith

-- A wrapped sum or difference, corrected by the signs, is the saturated one.
wrapped_add : ℤ → ℤ → Bool → Bool → ℤ
wrapped_add a b agree kept =
    if agree
    then if kept then to_int32 (a +ℤ b) else (if ltb_ℤ a (pos 0) then min_32 else max_32)
    else to_int32 (a +ℤ b)

wrapped_sub : ℤ → ℤ → Bool → Bool → ℤ
wrapped_sub a b agree kept =
    if agree
    then to_int32 (a -ℤ b)
    else if kept
    then to_int32 (a -ℤ b)
    else (if ltb_ℤ a (pos 0) then min_32 else max_32)

wrapped_add-sat32 :
    (a b : ℤ)
    → IsInt32 a
    → IsInt32 b
    → wrapped_add a b (same_sign a b) (same_sign (to_int32 (a +ℤ b)) a) ≡ sat32 (a +ℤ b)
unfolding wrapped_add ◌+ℤ◌ to_int32
wrapped_add-sat32 (pos m) (pos n) p q = ground arith
wrapped_add-sat32 (pos m) (negsuc n) p q = ground arith
wrapped_add-sat32 (negsuc m) (pos n) p q = ground arith
wrapped_add-sat32 (negsuc m) (negsuc n) p q = ground arith

wrapped_sub-sat32 :
    (a b : ℤ)
    → IsInt32 a
    → IsInt32 b
    → wrapped_sub a b (same_sign a b) (same_sign (to_int32 (a -ℤ b)) a) ≡ sat32 (a -ℤ b)
unfolding wrapped_sub ◌-ℤ◌ to_int32
wrapped_sub-sat32 (pos m) (pos n) p q = ground arith
wrapped_sub-sat32 (pos m) (negsuc n) p q = ground arith
wrapped_sub-sat32 (negsuc m) (pos n) p q = ground arith
wrapped_sub-sat32 (negsuc m) (negsuc n) p q = ground arith

-- On int32 arguments `add_int32` is the sum, saturated to int32.
pub add_int32-sat32 : (a b : ℤ) → IsInt32 a → IsInt32 b → add_int32 a b ≡ sat32 (a +ℤ b)
unfolding add_int32 wrapped_add
add_int32-sat32 a b p q =
    rw (sign_test a b p q, sign_test (to_int32 (a +ℤ b)) a (to_int32-IsInt32 _) p, sign_mask32 a p)
      (wrapped_add-sat32 a b p q)

-- On int32 arguments `sub_int32` is the difference, saturated to int32.
pub sub_int32-sat32 : (a b : ℤ) → IsInt32 a → IsInt32 b → sub_int32 a b ≡ sat32 (a -ℤ b)
unfolding sub_int32 wrapped_sub
sub_int32-sat32 a b p q =
    rw (sign_test a b p q, sign_test (to_int32 (a -ℤ b)) a (to_int32-IsInt32 _) p, sign_mask32 a p)
      (wrapped_sub-sat32 a b p q)

same_sign_comm : (a b : ℤ) → same_sign a b ≡ same_sign b a
same_sign_comm (pos m) (pos n) = refl
same_sign_comm (pos m) (negsuc n) = refl
same_sign_comm (negsuc m) (pos n) = refl
same_sign_comm (negsuc m) (negsuc n) = refl

doubled-sat32 :
    (z : ℤ)
    → pos_part z ≤ 2 ^ 30
    → neg_part z ≤ 2 ^ 30
    → (if eqb_ℤ z (pos 0x4000_0000) then max_32 else shl32 z 1) ≡ sat32 (z +ℤ z)
unfolding shl32 to_int32 ◌+ℤ◌
doubled-sat32 (pos n) p q = ground arith
doubled-sat32 (negsuc n) p q = ground arith

-- On int16 arguments `mul_16by16_to_int32` is twice the product, saturated to int32.
pub mul_16by16_to_int32-sat32 :
    (a b : ℤ) → IsInt16 a → IsInt16 b → mul_16by16_to_int32 a b ≡ sat32 (a *ℤ b +ℤ a *ℤ b)
unfolding mul_16by16_to_int32
mul_16by16_to_int32-sat32 a b p q =
    let bound = *ℤ-bound a b p q in doubled-sat32 (a *ℤ b) bound.0 bound.1

pub sat32-IsInt32 : (z : ℤ) → IsInt32 (sat32 z)
sat32-IsInt32 (pos n) = ground arith
sat32-IsInt32 (negsuc n) = ground arith

-- On an int32 and two int16 arguments `mac_16by16_to_int32` is the saturated sum of the first and
-- of twice the product, itself saturated.
pub mac_16by16-add_int32 :
    (l a b : ℤ)
    → IsInt32 l
    → IsInt16 a
    → IsInt16 b
    → mac_16by16_to_int32 l a b ≡ sat32 (l +ℤ sat32 (a *ℤ b +ℤ a *ℤ b))
unfolding mac_16by16_to_int32 wrapped_add
mac_16by16-add_int32 l a b h p q =
    let bound = *ℤ-bound a b p q in
    let m = sat32 (a *ℤ b +ℤ a *ℤ b) in
    let wide = sat32-IsInt32 (a *ℤ b +ℤ a *ℤ b) in
    rw
      (
        doubled-sat32 (a *ℤ b) bound.0 bound.1,
        sign_test m l wide h,
        same_sign_comm m l,
        sign_test (to_int32 (l +ℤ m)) l (to_int32-IsInt32 _) h,
        sign_mask32 l h,
      )
      (wrapped_add-sat32 l m h wide)

-- On an int32 and two int16 arguments `msu_16by16_from_int32` is the saturated difference of the
-- first and of twice the product, itself saturated.
pub msu_16by16-sub_int32 :
    (l a b : ℤ)
    → IsInt32 l
    → IsInt16 a
    → IsInt16 b
    → msu_16by16_from_int32 l a b ≡ sat32 (l -ℤ sat32 (a *ℤ b +ℤ a *ℤ b))
unfolding msu_16by16_from_int32 wrapped_sub
msu_16by16-sub_int32 l a b h p q =
    let bound = *ℤ-bound a b p q in
    let m = sat32 (a *ℤ b +ℤ a *ℤ b) in
    let wide = sat32-IsInt32 (a *ℤ b +ℤ a *ℤ b) in
    rw
      (
        doubled-sat32 (a *ℤ b) bound.0 bound.1,
        sign_test m l wide h,
        same_sign_comm m l,
        sign_test (to_int32 (l -ℤ m)) l (to_int32-IsInt32 _) h,
        sign_mask32 l h,
      )
      (wrapped_sub-sat32 l m h wide)
