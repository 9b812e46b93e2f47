-- ===== src/Base/Num.antt =====
-- JavaScript numbers. A finite one is its floor and its fraction in units of 2^-1074, which every
-- double is a multiple of; -0 is not told from 0.
use Prim.Native.Nat.{ℕ, zero, ◌+◌, ◌-◌}
use mathlib.Core.Path.{◌≡◌}
use mathlib.Core.Bool.{Bool, true, false, not, ◌&&◌, ◌||◌}
use mathlib.Core.Option.{Option, none, some}
use native.Mathlib.Omega.{arith}
use gpt2api_image.Base.Tests.{leb, if◌then◌else◌}

-- `negsuc n` is -(n + 1).
pub data ℤ : Type 0 where
  pos : ℕ → ℤ
  negsuc : ℕ → ℤ

-- `a <= b` on the integers.
unfoldable pub le_ℤ : ℤ → ℤ → Bool
le_ℤ (pos a) (pos b) = leb a b
le_ℤ (negsuc a) (pos b) = true
le_ℤ (pos a) (negsuc b) = false
le_ℤ (negsuc a) (negsuc b) = leb b a

pub le_ℤ-total : (a b : ℤ) → (le_ℤ a b || le_ℤ b a) ≡ true
unfolding le_ℤ
le_ℤ-total a b = ground arith

-- `a - b` on the integers.
unfoldable pub sub_ℤ : ℤ → ℤ → ℤ
sub_ℤ (pos a) (pos b) = if leb b a then pos (a - b) else negsuc (b - a - 1)
sub_ℤ (pos a) (negsuc b) = pos (a + b + 1)
sub_ℤ (negsuc a) (pos b) = negsuc (a + b)
sub_ℤ (negsuc a) (negsuc b) = if leb a b then pos (b - a) else negsuc (a - b - 1)

pub data Num : Type 0 where
  nan neg_inf pos_inf : Num
  fin : ℤ → ℕ → Num

abbrev pub num : ℕ → Num
num n = fin (pos n) 0

-- NaN and 0 are falsy.
unfoldable pub is_truthy : Num → Bool
is_truthy nan = false
is_truthy (fin (pos zero) zero) = false
is_truthy _ = true

-- `a || b`
unfoldable pub num_or : Num → Num → Num
unfolding is_truthy
num_or a b = if is_truthy a then a else b

-- `a <= b`, false where one of them is NaN
unfoldable pub le_num : Num → Num → Bool
unfolding le_ℤ
le_num nan _ = false
le_num neg_inf nan = false
le_num neg_inf _ = true
le_num pos_inf pos_inf = true
le_num pos_inf _ = false
le_num (fin a f) nan = false
le_num (fin a f) neg_inf = false
le_num (fin a f) pos_inf = true
le_num (fin a f) (fin b g) = if le_ℤ b a then le_ℤ a b && leb f g else true

abbrev pub is_nan : Num → Bool
is_nan nan = true
is_nan _ = false

-- `a < b`, false where one of them is NaN
unfoldable pub lt_num : Num → Num → Bool
unfolding le_num
lt_num a b = not (is_nan a) && not (is_nan b) && not (le_num b a)

-- `Math.max(a, b)` and `Math.min(a, b)`: NaN where one of them is.
unfoldable pub max_num : Num → Num → Num
unfolding le_num
max_num a b = if is_nan a || is_nan b then nan else if le_num a b then b else a

unfoldable pub min_num : Num → Num → Num
unfolding le_num
min_num a b = if is_nan a || is_nan b then nan else if le_num a b then a else b

-- `Math.floor(a)`
unfoldable pub floor : Num → Num
floor (fin a f) = fin a 0
floor a = a

-- The length of `Array.from({ length: a })`: `none` is the RangeError.
unfoldable pub to_length : Num → Option ℕ
to_length (fin (pos n) f) = if leb n 4294967295 then some n else none
to_length pos_inf = none
to_length _ = some 0

-- A number that is at least 1 is its own maximum with 1, and is not falsy.
pub max_num_one :
    (n : Num)
    → is_nan n ≡ false
    → let r = max_num (num 1) n in (max_num (num 1) r ≡ r) × (is_truthy r ≡ true)
unfolding max_num is_truthy
max_num_one n h = ground arith
