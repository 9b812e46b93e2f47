-- ===== src/Lightbox/Invariant.antt =====
-- web/src/components/image-lightbox.tsx: what holds of the lightbox after any events.
use gpt2api_image.Base.{
  ℕ, ◌-◌, ◌+◌, ◌<◌, Bool, true, false, Option, none, some, if◌then◌else◌, ltb, ◌≡◌, refl, arith,
  Bool-cases, inl, inr,
}
use gpt2api_image.Lightbox.{
  Scalar, ImageTransform, TouchGesture, swipe, pan, pinch, Lightbox, lt, min_scale, max_scale,
}
use gpt2api_image.Lightbox.Gestures.{
  or_pending, cancel_scheduled_transform, flush_scheduled_transform, go_prev, go_next, handle_wheel,
}
use gpt2api_image.Lightbox.Bounds.{IsBounded}

module _ (s : Scalar) (width height : s.Real) where
  open s use {Real, le, of_tenths, le_of_tenths}

  abbrev pub IsWaitingBounded : Option (ImageTransform Real) → Type 0
  IsWaitingBounded none = Unit
  IsWaitingBounded (some next) = IsBounded s width height next

  -- The image a gesture began with is no larger than the largest.
  abbrev pub IsInRange : Option (TouchGesture Real) → Type 0
  IsInRange none = Unit
  IsInRange (some (swipe x y)) = Unit
  IsInRange (some (pan x y start)) = le start.scale (max_scale s) ≡ true
  IsInRange (some (pinch distance x y start)) = le start.scale (max_scale s) ≡ true

  abbrev pub is_waiting : Option (ImageTransform Real) → Bool
  is_waiting none = false
  is_waiting (some next) = true

  -- The shown image and the one that waits for a frame are bounded, a frame is awaited exactly while
  -- an image waits for it, and the index is that of an image.
  pub record IsValid (box : Lightbox Real) : Type 0 where
    pub shown_bounded : IsBounded s width height box.transform
    pub waiting_bounded : IsWaitingBounded box.pending
    pub awaited : box.frame ≡ is_waiting box.pending
    pub gesture_in_range : IsInRange box.gesture
    pub in_range : box.index < box.count

  -- A lightbox with nothing waiting
  pub settled :
      (box : Lightbox Real)
      → IsBounded s width height box.transform
      → IsInRange box.gesture
      → box.index < box.count
      → IsValid (cancel_scheduled_transform s width height box)
  unfolding cancel_scheduled_transform
  settled box b g i = record {
    shown_bounded = b;
    waiting_bounded = tt;
    awaited = refl;
    gesture_in_range = g;
    in_range = i;
  }

  or_pending-IsBounded :
      (pending : Option (ImageTransform Real)) (transform : ImageTransform Real)
      → IsWaitingBounded pending
      → IsBounded s width height transform
      → IsBounded s width height (or_pending s width height pending transform)
  or_pending-IsBounded none transform w b = b
  or_pending-IsBounded (some pending) transform w b = w

  pub flush-IsValid :
      (box : Lightbox Real) → IsValid box → IsValid (flush_scheduled_transform s width height box)
  unfolding flush_scheduled_transform
  flush-IsValid box v = record {
    shown_bounded =
        or_pending-IsBounded box.pending box.transform v.waiting_bounded v.shown_bounded;
    waiting_bounded = tt;
    awaited = refl;
    gesture_in_range = v.gesture_in_range;
    in_range = v.in_range;
  }

  -- Another image of those there are
  at_index :
      (box : Lightbox Real) (index : ℕ)
      → IsValid box
      → index < box.count
      → IsValid (record box { index = index })
  at_index box index v i = record {
    shown_bounded = v.shown_bounded;
    waiting_bounded = v.waiting_bounded;
    awaited = v.awaited;
    gesture_in_range = v.gesture_in_range;
    in_range = i;
  }

  pub pick-IsValid :
      (box : Lightbox Real) (index : ℕ)
      → IsValid box
      → IsValid (if ltb index box.count then record box { index = index } else box)
  pick-IsValid box index v = elim (Bool-cases (ltb index box.count)) [
    | inl there ↦ rw there (at_index box index v (ground (arith, there)))
    | inr far ↦ rw far v
  ]

  pub go_prev-IsValid : (box : Lightbox Real) → IsValid box → IsValid (go_prev s width height box)
  unfolding go_prev
  go_prev-IsValid box v = elim (Bool-cases (ltb 0 box.index)) [
    | inl some_before ↦ rw some_before (at_index box _ v (ground (arith, v.in_range)))
    | inr first ↦ rw first v
  ]

  pub go_next-IsValid : (box : Lightbox Real) → IsValid box → IsValid (go_next s width height box)
  unfolding go_next
  go_next-IsValid box v = elim (Bool-cases (ltb box.index (box.count - 1))) [
    | inl more ↦ rw more (at_index box _ v (ground (arith, v.in_range, more)))
    | inr last ↦ rw last v
  ]

  -- The times of the last tap and of the last turn of the wheel do not matter.
  pub timed :
      (box : Lightbox Real) (tap lock : ℕ)
      → IsValid box
      → IsValid (record box { last_tap = tap; wheel_lock = lock })
  timed box tap lock v = record {
    shown_bounded = v.shown_bounded;
    waiting_bounded = v.waiting_bounded;
    awaited = v.awaited;
    gesture_in_range = v.gesture_in_range;
    in_range = v.in_range;
  }

  -- An `if` keeps what both of its branches keep.
  pub choose :
      (b : Bool) (first second : Lightbox Real)
      → IsValid first
      → IsValid second
      → IsValid (if b then first else second)
  choose true first second v w = v
  choose false first second v w = w

  pub handle_wheel-IsValid :
      (x y : Real) (now : ℕ) (box : Lightbox Real)
      → IsValid box
      → IsValid (handle_wheel s width height x y now box)
  unfolding handle_wheel
  handle_wheel-IsValid x y now box v =
      let delta = if lt s (s.abs x) (s.abs y) then y else x in
      let w = timed box box.last_tap now v in
      choose (lt s (min_scale s) box.transform.scale) _ _ v (
        choose (lt s (s.abs delta) (of_tenths 80)) _ _ v (
          choose (ltb now (box.wheel_lock + 280)) _ _ v
            (choose (lt s (of_tenths 0) delta) _ _ (go_next-IsValid _ w) (go_prev-IsValid _ w))))
