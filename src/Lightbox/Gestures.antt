-- ===== src/Lightbox/Gestures.antt =====
-- web/src/components/image-lightbox.tsx: the handlers of the touches, the wheel and the keys.
use gpt2api_image.Base.{
  ℕ, ◌-◌, ◌+◌, true, false, ◌&&◌, ◌||◌, Option, none, some, List, [], ◌∷◌, if◌then◌else◌, ltb,
}
use gpt2api_image.Lightbox.{
  Scalar, ImageTransform, Touch, TouchGesture, swipe, pan, pinch, Lightbox, lt, zero_real,
  min_scale, max_scale, clamp, get_touch_distance, middle, home, normalize_transform,
}

module _ (s : Scalar) (width height : s.Real) where
  open s use {Real, of_tenths, add, sub, mul, div, abs}

  unfoldable pub cancel_scheduled_transform : Lightbox Real → Lightbox Real
  cancel_scheduled_transform box = record box { frame = false; pending = none }

  unfoldable pub schedule_transform : ImageTransform Real → Lightbox Real → Lightbox Real
  schedule_transform next box = record box { pending = some next; frame = true }

  abbrev pub or_pending : Option (ImageTransform Real) → ImageTransform Real → ImageTransform Real
  or_pending none transform = transform
  or_pending (some pending) transform = pending

  -- `flushScheduledTransform`, and what the animation frame does
  unfoldable pub flush_scheduled_transform : Lightbox Real → Lightbox Real
  flush_scheduled_transform box = record box {
    transform = or_pending box.pending box.transform;
    frame = false;
    pending = none;
  }

  unfoldable pub reset_transform : Lightbox Real → Lightbox Real
  unfolding cancel_scheduled_transform
  reset_transform box = record (cancel_scheduled_transform box) {
    transform = home s;
    is_gesturing = false;
    gesture = none;
  }

  unfoldable pub go_prev : Lightbox Real → Lightbox Real
  go_prev box = if ltb 0 box.index then record box { index = box.index - 1 } else box

  unfoldable pub go_next : Lightbox Real → Lightbox Real
  go_next box = if ltb box.index (box.count - 1) then record box { index = box.index + 1 } else box

  unfoldable pub handle_wheel : Real → Real → ℕ → Lightbox Real → Lightbox Real
  unfolding go_next go_prev
  handle_wheel delta_x delta_y now box =
      let delta = if lt s (abs delta_x) (abs delta_y) then delta_y else delta_x in
      let locked = record box { wheel_lock = now } in
      if lt s (min_scale s) box.transform.scale
      then box
      else if lt s (abs delta) (of_tenths 80)
      then box
      else if ltb now (box.wheel_lock + 280)
      then box
      else if lt s (zero_real s) delta
      then go_next locked
      else go_prev locked

  abbrev pub zoomed : ImageTransform Real
  zoomed = record { scale = of_tenths 25; x = zero_real s; y = zero_real s }

  unfoldable pub toggle_zoom : Lightbox Real → Lightbox Real
  toggle_zoom box = record box {
    transform = if lt s (min_scale s) box.transform.scale then home s else zoomed;
  }

  -- A touch that begins while the image is larger than the window moves it; else it may be a swipe.
  abbrev pub start_one : Touch Real → Lightbox Real → Lightbox Real
  start_one touch box =
      if lt s (min_scale s) box.transform.scale
      then record (cancel_scheduled_transform box) {
        is_gesturing = true;
        gesture = some (pan touch.client_x touch.client_y box.transform);
      }
      else record box { gesture = some (swipe touch.client_x touch.client_y) }

  abbrev pub start_two : Touch Real → Touch Real → Lightbox Real → Lightbox Real
  start_two first second box =
      let distance = get_touch_distance s first second in
      if lt s distance (of_tenths 10)
      then record box { gesture = none }
      else record (cancel_scheduled_transform box) {
        is_gesturing = true;
        gesture = some (
            pinch distance (middle s first.client_x second.client_x)
              (middle s first.client_y second.client_y) box.transform);
      }

  unfoldable pub handle_touch_start : List (Touch Real) → Lightbox Real → Lightbox Real
  unfolding cancel_scheduled_transform get_touch_distance middle
  handle_touch_start (touch ∷ []) box = start_one touch box
  handle_touch_start (first ∷ second ∷ []) box = start_two first second box
  handle_touch_start _ box = record box { gesture = none }

  -- Where a point of the image comes to be when it is scaled about the middle of the window.
  abbrev pub moved : Real → Real → Real → Real → Real → Real
  moved size now start offset ratio =
      let center = div size (of_tenths 20) in
      sub (sub now center) (mul (sub (sub start center) offset) ratio)

  unfoldable pub pinched :
      Real → Real → Real → ImageTransform Real → Touch Real → Touch Real → ImageTransform Real
  unfolding clamp get_touch_distance middle normalize_transform
  pinched distance start_x start_y start first second =
      let scale =
        clamp s (mul (div (get_touch_distance s first second) distance) start.scale) (min_scale s)
          (max_scale s) in
      let ratio = div scale start.scale in
      normalize_transform s width height (record {
        scale = scale;
        x = moved width (middle s first.client_x second.client_x) start_x start.x ratio;
        y = moved height (middle s first.client_y second.client_y) start_y start.y ratio;
      })

  unfoldable pub panned : Real → Real → ImageTransform Real → Touch Real → ImageTransform Real
  unfolding normalize_transform
  panned start_x start_y start touch = normalize_transform s width height (record {
    scale = start.scale;
    x = sub (add start.x touch.client_x) start_x;
    y = sub (add start.y touch.client_y) start_y;
  })

  abbrev pub stop_gesture : Lightbox Real → Lightbox Real
  stop_gesture box = record box { gesture = none }

  -- What a move does in a gesture, by the number of the touches
  unfoldable pub move_gesture :
      TouchGesture Real → List (Touch Real) → Lightbox Real → Lightbox Real
  unfolding pinched panned schedule_transform
  move_gesture (pinch distance x y start) (first ∷ second ∷ []) box =
      schedule_transform (pinched distance x y start first second) box
  move_gesture (pan x y start) (touch ∷ []) box = schedule_transform (panned x y start touch) box
  move_gesture gesture (touch ∷ []) box = box
  move_gesture gesture touches box = stop_gesture box

  abbrev pub move_in :
      Option (TouchGesture Real) → List (Touch Real) → Lightbox Real → Lightbox Real
  move_in none touches box = box
  move_in (some gesture) touches box = move_gesture gesture touches box

  unfoldable pub handle_touch_move : List (Touch Real) → Lightbox Real → Lightbox Real
  handle_touch_move touches box = move_in box.gesture touches box

  -- The end of a swipe: a second tap, too short a way, or to the image before or behind
  unfoldable pub end_swipe : Real → Real → ℕ → Lightbox Real → Lightbox Real
  unfolding toggle_zoom go_prev go_next
  end_swipe delta_x delta_y now box =
      let tapped = record box { last_tap = now } in
      if lt s (abs delta_x) (of_tenths 100)
        && lt s (abs delta_y) (of_tenths 100)
        && ltb now (box.last_tap + 280)
      then toggle_zoom (record box { last_tap = 0 })
      else if lt s (abs delta_x) (of_tenths 480)
          || lt s (abs delta_x) (mul (abs delta_y) (of_tenths 14))
      then tapped
      else if lt s (zero_real s) delta_x
      then go_prev tapped
      else go_next tapped

  abbrev pub end_gesture :
      Option (TouchGesture Real) → List (Touch Real) → ℕ → Lightbox Real → Lightbox Real
  end_gesture (some (swipe x y)) (touch ∷ []) now box =
      end_swipe (sub touch.client_x x) (sub touch.client_y y) now box
  end_gesture _ touches now box = box

  unfoldable pub handle_touch_end : List (Touch Real) → ℕ → Lightbox Real → Lightbox Real
  unfolding flush_scheduled_transform end_swipe
  handle_touch_end changed now box =
      end_gesture box.gesture changed now
        (record (flush_scheduled_transform box) { is_gesturing = false; gesture = none })

  unfoldable pub handle_touch_cancel : Lightbox Real → Lightbox Real
  unfolding cancel_scheduled_transform
  handle_touch_cancel box = record (cancel_scheduled_transform box) {
    is_gesturing = false;
    gesture = none;
  }
