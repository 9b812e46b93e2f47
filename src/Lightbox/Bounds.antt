-- ===== src/Lightbox/Bounds.antt =====
-- web/src/components/image-lightbox.tsx: the bounds of what `normalizeTransform` gives.
use gpt2api_image.Base.{subst, true, ◌≡◌, arith, Bool-cases, inl, inr}
use gpt2api_image.Lightbox.{
  Scalar, ImageTransform, min_scale, max_scale, clamp, reach, home, normalize_transform,
}

module _ (s : Scalar) (width height : s.Real) where
  open s use {
    Real, le, of_tenths, add, sub, mul, div, neg, abs, le_total, le_trans, le_of_tenths, sub_nonneg,
    neg_le, add_le, add_neg, half_half, mul_nonneg, neg_nonpos,
  }

  -- What an offset from the middle leaves of a side of the window: twice the offset is at most what the side
  -- gains by the scale, so an image of the size of the window, scaled about its middle and then moved by the
  -- offset, still reaches both edges of the window.
  abbrev pub IsCovering : Real → Real → Real → Type 0
  IsCovering size scale offset =
      (le (add offset offset) (mul size (sub scale (min_scale s))) ≡ true)
      × (le (neg (mul size (sub scale (min_scale s)))) (add offset offset) ≡ true)

  -- The scale is between 1 and 4, and the offset covers the window in both directions.
  pub record IsBounded (transform : ImageTransform Real) : Type 0 where
    pub scale_low : le (min_scale s) transform.scale ≡ true
    pub scale_high : le transform.scale (max_scale s) ≡ true
    pub horizontal : IsCovering width transform.scale transform.x
    pub vertical : IsCovering height transform.scale transform.y

  reach-IsCovering :
      (size scale offset : Real)
      → le (neg (reach s size scale)) offset ≡ true
      → le offset (reach s size scale) ≡ true
      → IsCovering size scale offset
  unfolding reach
  reach-IsCovering size scale offset low high =
      let far = reach s size scale in
      let gained = mul size (sub scale (min_scale s)) in
      let twice : le (add far far) gained ≡ true = half_half gained in
      (
        le_trans _ (add far far) _ (add_le offset far offset far high high) twice,
        le_trans _ (neg (add far far)) _ (neg_le (add far far) gained twice) (
            subst (λ e. le e (add offset offset) ≡ true) (add_neg far)
              (add_le (neg far) offset (neg far) offset low low)),
      )

  pub le_refl : (a : Real) → le a a ≡ true
  le_refl a = ground (arith, le_total a a)

  clamp-low : (v low high : Real) → le low high ≡ true → le low (clamp s v low high) ≡ true
  unfolding clamp
  clamp-low v low high h =
      ground
        (arith, h, le_total low v, le_refl low, le_refl high, le_total high v, le_total high low)

  pub clamp-high : (v low high : Real) → le low high ≡ true → le (clamp s v low high) high ≡ true
  unfolding clamp
  clamp-high v low high h =
      ground (arith, h, le_total low v, le_refl high, le_total high v, le_total high low)

  module _ (wide : le (of_tenths 0) width ≡ true) (high : le (of_tenths 0) height ≡ true) where
    reach-nonneg :
        (size scale : Real)
        → le (of_tenths 0) size ≡ true
        → le (min_scale s) scale ≡ true
        → le (of_tenths 0) (reach s size scale) ≡ true
    unfolding reach
    reach-nonneg size scale h k =
        mul_nonneg _ _ (mul_nonneg _ _ h (sub_nonneg _ _ k)) (le_of_tenths 0 5)

    reach-ordered :
        (size scale : Real)
        → le (of_tenths 0) size ≡ true
        → le (min_scale s) scale ≡ true
        → le (neg (reach s size scale)) (reach s size scale) ≡ true
    reach-ordered size scale h k =
        let far = reach-nonneg size scale h k in le_trans _ (of_tenths 0) _ (neg_nonpos _ far) far

    -- An image in the middle of the window, of a scale in range
    pub centered :
        (scale : Real)
        → le (min_scale s) scale ≡ true
        → le scale (max_scale s) ≡ true
        → IsBounded (record { scale = scale; x = of_tenths 0; y = of_tenths 0 })
    centered scale k m = record {
      scale_low = k;
      scale_high = m;
      horizontal =
          reach-IsCovering width scale (of_tenths 0)
            (neg_nonpos _ (reach-nonneg width scale wide k)) (reach-nonneg width scale wide k);
      vertical =
          reach-IsCovering height scale (of_tenths 0)
            (neg_nonpos _ (reach-nonneg height scale high k)) (reach-nonneg height scale high k);
    }

    pub home-IsBounded : IsBounded (home s)
    home-IsBounded = centered (min_scale s) (le_of_tenths 10 10) (le_of_tenths 10 40)

    pub normalize_transform-IsBounded :
        (transform : ImageTransform Real)
        → le transform.scale (max_scale s) ≡ true
        → IsBounded (normalize_transform s width height transform)
    unfolding normalize_transform
    normalize_transform-IsBounded transform m =
        elim (Bool-cases (le transform.scale (min_scale s))) [
          | inl small ↦ rw small home-IsBounded
          | inr large ↦
              let k : le (min_scale s) transform.scale ≡ true =
                ground (arith, large, le_total (min_scale s) transform.scale) in
              rw large (record {
                scale_low = k;
                scale_high = m;
                horizontal =
                    reach-IsCovering width transform.scale _
                      (clamp-low _ _ _ (reach-ordered width transform.scale wide k))
                      (clamp-high _ _ _ (reach-ordered width transform.scale wide k));
                vertical =
                    reach-IsCovering height transform.scale _
                      (clamp-low _ _ _ (reach-ordered height transform.scale high k))
                      (clamp-high _ _ _ (reach-ordered height transform.scale high k));
              })
        ]
