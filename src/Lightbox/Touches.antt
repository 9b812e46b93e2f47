-- ===== src/Lightbox/Touches.antt =====
-- web/src/components/image-lightbox.tsx: the invariant of the lightbox over its touches.
use gpt2api_image.Base.{
  Bool, true, false, Option, none, some, List, [], ◌∷◌, ◌≡◌, refl, Bool-cases, inl, inr,
}
use gpt2api_image.Lightbox.{
  Scalar, ImageTransform, Touch, TouchGesture, swipe, pan, pinch, Lightbox, lt, min_scale,
  max_scale, get_touch_distance,
}
use gpt2api_image.Lightbox.Gestures.{
  schedule_transform, toggle_zoom, handle_touch_start, pinched, panned, move_gesture, move_in,
  handle_touch_move, handle_touch_cancel,
}
use gpt2api_image.Lightbox.Bounds.{
  IsBounded, clamp-high, centered, home-IsBounded, normalize_transform-IsBounded,
}
use gpt2api_image.Lightbox.Invariant.{IsInRange, IsValid, settled, choose}

module _ (s : Scalar) (width height : s.Real) where
  open s use {Real, le, of_tenths, le_of_tenths}

  -- Another gesture that began in range
  pub in_gesture :
      (box : Lightbox Real) (gesture : Option (TouchGesture Real)) (is_gesturing : Bool)
      → IsValid s width height box
      → IsInRange s width height gesture
      → IsValid s width height (record box { gesture = gesture; is_gesturing = is_gesturing })
  in_gesture box gesture is_gesturing v g = record {
    shown_bounded = v.shown_bounded;
    waiting_bounded = v.waiting_bounded;
    awaited = v.awaited;
    gesture_in_range = g;
    in_range = v.in_range;
  }

  -- Another image shown that is bounded
  pub showing :
      (box : Lightbox Real) (transform : ImageTransform Real)
      → IsValid s width height box
      → IsBounded s width height transform
      → IsValid s width height (record box { transform = transform })
  showing box transform v b = record {
    shown_bounded = b;
    waiting_bounded = v.waiting_bounded;
    awaited = v.awaited;
    gesture_in_range = v.gesture_in_range;
    in_range = v.in_range;
  }

  schedule-IsValid :
      (box : Lightbox Real) (later : ImageTransform Real)
      → IsValid s width height box
      → IsBounded s width height later
      → IsValid s width height (schedule_transform s width height later box)
  unfolding schedule_transform
  schedule-IsValid box later v b = record {
    shown_bounded = v.shown_bounded;
    waiting_bounded = b;
    awaited = refl;
    gesture_in_range = v.gesture_in_range;
    in_range = v.in_range;
  }

  pub handle_touch_cancel-IsValid :
      (box : Lightbox Real)
      → IsValid s width height box
      → IsValid s width height (handle_touch_cancel s width height box)
  unfolding handle_touch_cancel
  handle_touch_cancel-IsValid box v =
      in_gesture _ none false
        (settled s width height box v.shown_bounded v.gesture_in_range v.in_range) tt

  -- A gesture begins with the image as it is shown.
  pub handle_touch_start-IsValid :
      (touches : List (Touch Real)) (box : Lightbox Real)
      → IsValid s width height box
      → IsValid s width height (handle_touch_start s width height touches box)
  unfolding handle_touch_start
  handle_touch_start-IsValid [] box v = in_gesture box none _ v tt
  handle_touch_start-IsValid (touch ∷ []) box v =
      let still = settled s width height box v.shown_bounded v.gesture_in_range v.in_range in
      choose s width height (lt s (min_scale s) box.transform.scale) _ _
        (in_gesture _ (some (pan touch.client_x touch.client_y box.transform)) true still
          v.shown_bounded.scale_high)
        (in_gesture box (some (swipe touch.client_x touch.client_y)) _ v tt)
  handle_touch_start-IsValid (first ∷ second ∷ []) box v =
      let still = settled s width height box v.shown_bounded v.gesture_in_range v.in_range in
      choose s width height (lt s (get_touch_distance s first second) (of_tenths 10)) _ _
        (in_gesture box none _ v tt)
        (in_gesture _ (some (pinch _ _ _ box.transform)) true still v.shown_bounded.scale_high)
  handle_touch_start-IsValid (first ∷ second ∷ third ∷ touches) box v = in_gesture box none _ v tt

  module _ (wide : le (of_tenths 0) width ≡ true) (high : le (of_tenths 0) height ≡ true) where
    pinched-IsBounded :
        (distance x y : Real) (start : ImageTransform Real) (first second : Touch Real)
        → IsBounded s width height (pinched s width height distance x y start first second)
    unfolding pinched
    pinched-IsBounded distance x y start first second =
        normalize_transform-IsBounded s width height wide high _
          (clamp-high s width height _ _ _ (le_of_tenths 10 40))

    panned-IsBounded :
        (x y : Real) (start : ImageTransform Real) (touch : Touch Real)
        → le start.scale (max_scale s) ≡ true
        → IsBounded s width height (panned s width height x y start touch)
    unfolding panned
    panned-IsBounded x y start touch m = normalize_transform-IsBounded s width height wide high _ m

    move_gesture-IsValid :
        (gesture : TouchGesture Real) (touches : List (Touch Real)) (box : Lightbox Real)
        → IsInRange s width height (some gesture)
        → IsValid s width height box
        → IsValid s width height (move_gesture s width height gesture touches box)
    unfolding move_gesture
    move_gesture-IsValid (swipe x y) [] box g v = in_gesture box none _ v tt
    move_gesture-IsValid (swipe x y) (touch ∷ []) box g v = v
    move_gesture-IsValid (swipe x y) (first ∷ second ∷ []) box g v = in_gesture box none _ v tt
    move_gesture-IsValid (swipe x y) (first ∷ second ∷ third ∷ more) box g v =
        in_gesture box none _ v tt
    move_gesture-IsValid (pan x y start) [] box g v = in_gesture box none _ v tt
    move_gesture-IsValid (pan x y start) (touch ∷ []) box g v =
        schedule-IsValid box _ v (panned-IsBounded x y start touch g)
    move_gesture-IsValid (pan x y start) (first ∷ second ∷ []) box g v = in_gesture box none _ v tt
    move_gesture-IsValid (pan x y start) (first ∷ second ∷ third ∷ more) box g v =
        in_gesture box none _ v tt
    move_gesture-IsValid (pinch d x y start) [] box g v = in_gesture box none _ v tt
    move_gesture-IsValid (pinch d x y start) (touch ∷ []) box g v = v
    move_gesture-IsValid (pinch d x y start) (first ∷ second ∷ []) box g v =
        schedule-IsValid box _ v (pinched-IsBounded d x y start first second)
    move_gesture-IsValid (pinch d x y start) (first ∷ second ∷ third ∷ more) box g v =
        in_gesture box none _ v tt

    move_in-IsValid :
        (gesture : Option (TouchGesture Real)) (touches : List (Touch Real)) (box : Lightbox Real)
        → IsInRange s width height gesture
        → IsValid s width height box
        → IsValid s width height (move_in s width height gesture touches box)
    move_in-IsValid none touches box g v = v
    move_in-IsValid (some gesture) touches box g v = move_gesture-IsValid gesture touches box g v

    pub handle_touch_move-IsValid :
        (touches : List (Touch Real)) (box : Lightbox Real)
        → IsValid s width height box
        → IsValid s width height (handle_touch_move s width height touches box)
    unfolding handle_touch_move
    handle_touch_move-IsValid touches box v =
        move_in-IsValid box.gesture touches box v.gesture_in_range v

    pub toggle_zoom-IsValid :
        (box : Lightbox Real)
        → IsValid s width height box
        → IsValid s width height (toggle_zoom s width height box)
    unfolding toggle_zoom
    toggle_zoom-IsValid box v = elim (Bool-cases (lt s (min_scale s) box.transform.scale)) [
      | inl large ↦ rw large (showing box _ v (home-IsBounded s width height wide high))
      | inr small ↦ rw small (
          showing box _ v (
            centered s width height wide high (of_tenths 25) (le_of_tenths 10 25)
              (le_of_tenths 25 40)))
    ]
