-- ===== src/Lightbox.antt =====
-- web/src/components/image-lightbox.tsx: the gestures of the lightbox. Its numbers are an interface: the finite
-- numbers of JavaScript, with the laws of their order that the bounds of an image rest on.
pub mod Gestures
pub mod Events
pub mod Bounds
pub mod Invariant
pub mod Touches
pub mod Valid
use gpt2api_image.Base.{
  ℕ, ◌-◌, ◌+◌, Bool, true, false, not, ◌&&◌, ◌||◌, Option, none, some, List, [], ◌∷◌, ◌≡◌,
  if◌then◌else◌, ltb, leb,
}

-- `of_tenths n` is n / 10. The laws hold as long as nothing overflows or underflows.
pub record Scalar : Type 1 where
  pub Real : Type 0
  pub le : Real → Real → Bool
  pub of_tenths : ℕ → Real
  pub add : Real → Real → Real
  pub sub : Real → Real → Real
  pub mul : Real → Real → Real
  pub div : Real → Real → Real
  pub neg : Real → Real
  pub abs : Real → Real
  pub hypot : Real → Real → Real
  pub le_total : (a b : Real) → (le a b || le b a) ≡ true
  pub le_trans : (a b c : Real) → le a b ≡ true → le b c ≡ true → le a c ≡ true
  pub le_of_tenths : (m n : ℕ) → le (of_tenths m) (of_tenths n) ≡ leb m n
  pub sub_nonneg : (a b : Real) → le a b ≡ true → le (of_tenths 0) (sub b a) ≡ true
  pub mul_nonneg :
      (a b : Real)
      → le (of_tenths 0) a ≡ true
      → le (of_tenths 0) b ≡ true
      → le (of_tenths 0) (mul a b) ≡ true
  pub neg_nonpos : (a : Real) → le (of_tenths 0) a ≡ true → le (neg a) (of_tenths 0) ≡ true
  pub neg_le : (a b : Real) → le a b ≡ true → le (neg b) (neg a) ≡ true
  pub add_le : (a b c d : Real) → le a b ≡ true → le c d ≡ true → le (add a c) (add b d) ≡ true
  pub add_neg : (a : Real) → add (neg a) (neg a) ≡ neg (add a a)
  pub half_half : (a : Real) → le (add (mul a (of_tenths 5)) (mul a (of_tenths 5))) a ≡ true

pub record ImageTransform (R : Type 0) : Type 0 where
  pub scale : R
  pub x : R
  pub y : R

pub record Touch (R : Type 0) : Type 0 where
  pub client_x : R
  pub client_y : R

pub data TouchGesture (R : Type 0) : Type 0 where
  swipe : R → R → TouchGesture R
  pan : R → R → ImageTransform R → TouchGesture R
  pinch : R → R → R → ImageTransform R → TouchGesture R

-- The state of the component, with the index and the number of the images that its parent gives it. Times
-- are in milliseconds. `frame` says whether an animation frame is awaited.
pub record Lightbox (R : Type 0) : Type 0 where
  pub index : ℕ
  pub count : ℕ
  pub transform : ImageTransform R
  pub pending : Option (ImageTransform R)
  pub frame : Bool
  pub gesture : Option (TouchGesture R)
  pub is_gesturing : Bool
  pub last_tap : ℕ
  pub wheel_lock : ℕ

module _ (s : Scalar) where
  open s use {Real, le, of_tenths, add, sub, mul, div, neg, abs, hypot}

  -- `a < b`
  abbrev pub lt : Real → Real → Bool
  lt a b = not (le b a)

  abbrev pub zero_real : Real
  zero_real = of_tenths 0

  abbrev pub min_scale : Real
  min_scale = of_tenths 10

  abbrev pub max_scale : Real
  max_scale = of_tenths 40

  abbrev pub min_real : Real → Real → Real
  min_real a b = if le a b then a else b

  abbrev pub max_real : Real → Real → Real
  max_real a b = if le a b then b else a

  unfoldable pub clamp : Real → Real → Real → Real
  clamp value low high = min_real high (max_real low value)

  unfoldable pub get_touch_distance : Touch Real → Touch Real → Real
  get_touch_distance first second =
      hypot (sub first.client_x second.client_x) (sub first.client_y second.client_y)

  -- The middle of two coordinates
  unfoldable pub middle : Real → Real → Real
  middle a b = div (add a b) (of_tenths 20)

  -- How far an image of a scale may be moved from the middle of a window of a size
  unfoldable pub reach : Real → Real → Real
  reach size scale = mul (mul size (sub scale min_scale)) (of_tenths 5)

  abbrev pub home : ImageTransform Real
  home = record { scale = min_scale; x = zero_real; y = zero_real }

  unfoldable pub normalize_transform : Real → Real → ImageTransform Real → ImageTransform Real
  unfolding clamp reach
  normalize_transform width height transform =
      if le transform.scale min_scale then home else record {
        scale = transform.scale;
        x = clamp transform.x (neg (reach width transform.scale)) (reach width transform.scale);
        y = clamp transform.y (neg (reach height transform.scale)) (reach height transform.scale);
      }
