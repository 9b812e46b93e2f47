-- ===== src/Lightbox/Valid.antt =====
-- web/src/components/image-lightbox.tsx: the invariant of the lightbox over any events.
use gpt2api_image.Base.{
  ℕ, ◌+◌, ◌<◌, true, false, ◌&&◌, ◌||◌, Option, none, some, List, [], ◌∷◌, ltb, ◌≡◌, refl,
}
use gpt2api_image.Lightbox.{Scalar, Touch, TouchGesture, swipe, pan, pinch, Lightbox, lt}
use gpt2api_image.Lightbox.Gestures.{reset_transform, end_swipe, end_gesture, handle_touch_end}
use gpt2api_image.Lightbox.Bounds.{home-IsBounded}
use gpt2api_image.Lightbox.Events.{
  Event, wheel, previous, next, double_click, touch_cancel, frame, shown, pick, touch_start,
  touch_move, touch_end, step, run_events, mount,
}
use gpt2api_image.Lightbox.Invariant.{
  IsValid, settled, flush-IsValid, pick-IsValid, go_prev-IsValid, go_next-IsValid, timed, choose,
  handle_wheel-IsValid,
}
use gpt2api_image.Lightbox.Touches.{
  in_gesture, showing, handle_touch_cancel-IsValid, handle_touch_start-IsValid,
  handle_touch_move-IsValid, toggle_zoom-IsValid,
}

module _ (s : Scalar) (width height : s.Real) (wide : s.le (s.of_tenths 0) width ≡ true)
    (high : s.le (s.of_tenths 0) height ≡ true) where
  open s use {Real, le, of_tenths}

  end_swipe-IsValid :
      (x y : Real) (now : ℕ) (box : Lightbox Real)
      → IsValid s width height box
      → IsValid s width height (end_swipe s width height x y now box)
  unfolding end_swipe
  end_swipe-IsValid x y now box v =
      let w = timed s width height box now box.wheel_lock v in
      choose s width height
        (lt s (s.abs x) (of_tenths 100)
          && lt s (s.abs y) (of_tenths 100)
          && ltb now (box.last_tap + 280))
        _ _
        (toggle_zoom-IsValid s width height wide high _
          (timed s width height box 0 box.wheel_lock v))
        (choose s width height
          (lt s (s.abs x) (of_tenths 480) || lt s (s.abs x) (s.mul (s.abs y) (of_tenths 14))) _ _ w
          (choose s width height (lt s (of_tenths 0) x) _ _ (go_prev-IsValid s width height _ w)
            (go_next-IsValid s width height _ w)))

  end_gesture-IsValid :
      (gesture : Option (TouchGesture Real)) (changed : List (Touch Real)) (now : ℕ)
      (box : Lightbox Real)
      → IsValid s width height box
      → IsValid s width height (end_gesture s width height gesture changed now box)
  end_gesture-IsValid none changed now box v = v
  end_gesture-IsValid (some (pan x y start)) changed now box v = v
  end_gesture-IsValid (some (pinch d x y start)) changed now box v = v
  end_gesture-IsValid (some (swipe x y)) [] now box v = v
  end_gesture-IsValid (some (swipe x y)) (touch ∷ []) now box v = end_swipe-IsValid _ _ now box v
  end_gesture-IsValid (some (swipe x y)) (first ∷ second ∷ more) now box v = v

  handle_touch_end-IsValid :
      (changed : List (Touch Real)) (now : ℕ) (box : Lightbox Real)
      → IsValid s width height box
      → IsValid s width height (handle_touch_end s width height changed now box)
  unfolding handle_touch_end
  handle_touch_end-IsValid changed now box v =
      end_gesture-IsValid box.gesture changed now _
        (in_gesture s width height _ none false (flush-IsValid s width height box v) tt)

  reset_transform-IsValid :
      (box : Lightbox Real)
      → IsValid s width height box
      → IsValid s width height (reset_transform s width height box)
  unfolding reset_transform
  reset_transform-IsValid box v =
      showing s width height _ _
        (in_gesture s width height _ none false
          (settled s width height box v.shown_bounded v.gesture_in_range v.in_range) tt)
        (home-IsBounded s width height wide high)

  pub step-IsValid :
      (event : Event Real) (box : Lightbox Real)
      → IsValid s width height box
      → IsValid s width height (step s width height event box)
  unfolding step
  step-IsValid (wheel x y now) box v = handle_wheel-IsValid s width height x y now box v
  step-IsValid previous box v = go_prev-IsValid s width height box v
  step-IsValid next box v = go_next-IsValid s width height box v
  step-IsValid double_click box v = toggle_zoom-IsValid s width height wide high box v
  step-IsValid touch_cancel box v = handle_touch_cancel-IsValid s width height box v
  step-IsValid frame box v = flush-IsValid s width height box v
  step-IsValid shown box v = reset_transform-IsValid box v
  step-IsValid (pick index) box v = pick-IsValid s width height box index v
  step-IsValid (touch_start touches) box v = handle_touch_start-IsValid s width height touches box v
  step-IsValid (touch_move touches) box v =
      handle_touch_move-IsValid s width height wide high touches box v
  step-IsValid (touch_end changed now) box v = handle_touch_end-IsValid changed now box v

  pub mount-IsValid :
      (index count : ℕ) → index < count → IsValid s width height (mount s width height index count)
  unfolding mount
  mount-IsValid index count h = record {
    shown_bounded = home-IsBounded s width height wide high;
    waiting_bounded = tt;
    awaited = refl;
    gesture_in_range = tt;
    in_range = h;
  }

  events-IsValid :
      (events : List (Event Real)) (box : Lightbox Real)
      → IsValid s width height box
      → IsValid s width height (run_events s width height events box)
  unfolding run_events
  events-IsValid [] box v = v
  events-IsValid (event ∷ events) box v = events-IsValid events _ (step-IsValid event box v)

  -- In a window of no negative size, however the wheel, the keys, the thumbnails and the touches follow each other after the lightbox opened at
  -- one of the images: the scale shown is between 1 and 4; an image of the size of the window would still reach all
  -- its edges, at the shown offset and at the one that waits for an animation frame; a frame is awaited exactly
  -- while an image waits for it; a gesture began in range; and the index is that of an image.
  pub run_events-IsValid :
      (index count : ℕ) (events : List (Event Real))
      → index < count
      → IsValid s width height (run_events s width height events (mount s width height index count))
  run_events-IsValid index count events h = events-IsValid events _ (mount-IsValid index count h)
