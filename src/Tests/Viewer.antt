-- ===== src/Tests/Viewer.antt =====
-- web/src/components/image-lightbox.tsx at a pinch.
use gpt2api_image.Base.{ℕ, ◌+◌, ◌*◌, ◌-◌, true, ◌≡◌, refl, List, [], ◌∷◌, leb, arith, ◌||◌}
use Prim.Native.Nat.{◌/◌}
use gpt2api_image.Lightbox.{Scalar, Touch}
use gpt2api_image.Lightbox.Gestures.{
  go_next, handle_touch_end, handle_touch_move, handle_touch_start, move_gesture,
}
use gpt2api_image.Lightbox.Events.{
  Event, touch_start, touch_move, touch_end, frame, next, run_events, mount,
}
use gpt2api_image.Lightbox.Invariant.{IsValid}
use gpt2api_image.Lightbox.Valid.{run_events-IsValid}

leb_total : (a b : ℕ) → (leb a b || leb b a) ≡ true
leb_total a b = ground arith

leb_trans : (a b c : ℕ) → leb a b ≡ true → leb b c ≡ true → leb a c ≡ true
leb_trans a b c h k = ground (arith, h, k)

leb_zero : (a : ℕ) → leb 0 a ≡ true
leb_zero a = ground arith

leb_add : (a b c d : ℕ) → leb a b ≡ true → leb c d ≡ true → leb (a + c) (b + d) ≡ true
leb_add a b c d h k = ground (arith, h, k)

leb_halves : (a : ℕ) → leb ((a * 5) / 10 + (a * 5) / 10) a ≡ true
leb_halves a = ground arith

-- Tenths, none of them negative
abbrev tenths : Scalar
tenths = record {
  Real = ℕ;
  le = leb;
  of_tenths = λ n. n;
  add = λ a b. a + b;
  sub = λ a b. a - b;
  mul = λ a b. (a * b) / 10;
  div = λ a b. (a * 10) / b;
  neg = λ a. 0;
  abs = λ a. a;
  hypot = λ a b. a + b;
  le_total = leb_total;
  le_trans = leb_trans;
  le_of_tenths = λ m n. refl;
  sub_nonneg = λ a b h. leb_zero (b - a);
  mul_nonneg = λ a b h k. leb_zero ((a * b) / 10);
  neg_nonpos = λ a h. refl;
  neg_le = λ a b h. refl;
  add_le = leb_add;
  add_neg = λ a. refl;
  half_half = leb_halves;
}

abbrev at : ℕ → ℕ → Touch ℕ
at x y = record { client_x = x; client_y = y }

abbrev pinch_events : List (Event ℕ)
pinch_events =
    touch_start (at 2000 1000 ∷ at 1000 1000 ∷ [])
    ∷ touch_move (at 3000 1000 ∷ at 1000 1000 ∷ [])
    ∷ frame
    ∷ touch_end (at 1000 1000 ∷ []) 5
    ∷ next
    ∷ []

pinched_twice :
    (run_events tenths 4000 3000 pinch_events (mount tenths 4000 3000 0 2)).transform.scale ≡ 20
unfolding run_events mount go_next handle_touch_end handle_touch_move handle_touch_start
    move_gesture
pinched_twice = refl

next_shown : (run_events tenths 4000 3000 pinch_events (mount tenths 4000 3000 0 2)).index ≡ 1
unfolding run_events mount go_next handle_touch_end handle_touch_move handle_touch_start
    move_gesture
next_shown = refl

run_events-IsValid_example :
    IsValid tenths 4000 3000 (run_events tenths 4000 3000 pinch_events (mount tenths 4000 3000 0 2))
run_events-IsValid_example =
    run_events-IsValid tenths 4000 3000 refl refl 0 2 pinch_events (omega arith)
