-- ===== src/Lightbox/Events.antt =====
-- web/src/components/image-lightbox.tsx: what can happen to the lightbox, in whatever order.
use gpt2api_image.Base.{ℕ, false, none, List, [], ◌∷◌, ltb, if◌then◌else◌}
use gpt2api_image.Lightbox.{Scalar, Touch, Lightbox}
use gpt2api_image.Lightbox.Gestures

-- `shown` is the effect that runs when another image is shown or the lightbox opens or closes, `pick` a
-- click on a thumbnail. The images stay the same meanwhile.
pub data Event (R : Type 0) : Type 0 where
  wheel : R → R → ℕ → Event R
  previous next double_click touch_cancel frame shown : Event R
  pick : ℕ → Event R
  touch_start touch_move : List (Touch R) → Event R
  touch_end : List (Touch R) → ℕ → Event R

module _ (s : Scalar) (width height : s.Real) where
  open s use {Real}

  unfoldable pub step : Event Real → Lightbox Real → Lightbox Real
  step (wheel x y now) box = Gestures.handle_wheel s width height x y now box
  step previous box = Gestures.go_prev s width height box
  step next box = Gestures.go_next s width height box
  step double_click box = Gestures.toggle_zoom s width height box
  step touch_cancel box = Gestures.handle_touch_cancel s width height box
  step frame box = Gestures.flush_scheduled_transform s width height box
  step shown box = Gestures.reset_transform s width height box
  step (pick index) box = if ltb index box.count then record box { index = index } else box
  step (touch_start touches) box = Gestures.handle_touch_start s width height touches box
  step (touch_move touches) box = Gestures.handle_touch_move s width height touches box
  step (touch_end changed now) box = Gestures.handle_touch_end s width height changed now box

  unfoldable pub run_events : List (Event Real) → Lightbox Real → Lightbox Real
  unfolding step
  run_events [] box = box
  run_events (event ∷ events) box = run_events events (step event box)

  -- The lightbox when it is mounted at an image.
  unfoldable pub mount : ℕ → ℕ → Lightbox Real
  mount index count = record {
    index = index;
    count = count;
    transform = record { scale = s.of_tenths 10; x = s.of_tenths 0; y = s.of_tenths 0 };
    pending = none;
    frame = false;
    gesture = none;
    is_gesturing = false;
    last_tap = 0;
    wheel_lock = 0;
  }
