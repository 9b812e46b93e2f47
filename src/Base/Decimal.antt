-- ===== src/Base/Decimal.antt =====
-- `String(n)` of a natural number, as in the template literals of the source.
use Prim.Native.Nat.{ℕ, zero, suc, ◌+◌, ◌-◌, ◌*◌, ◌/◌, ◌%◌, ◌<◌}
use mathlib.Core.Path.{◌≡◌, ◌∙◌, ap, sym}
use mathlib.Core.Logic.{inl, inr}
use mathlib.Core.List.{[], ◌∷◌}
use native.Mathlib.Omega.{arith}
use gpt2api_image.Base.Tests.{ltb, Bool-cases, if◌then◌else◌}
use gpt2api_image.Base.Strings.{Text}

digits_from : ℕ → ℕ → Text → Text
digits_from zero n rest = rest
digits_from (suc fuel) n rest =
    let more = digits_from fuel (n / 10) ((48 + n % 10) ∷ rest) in
    if ltb n 10 then (48 + n) ∷ rest else more

-- `suc n` rounds are enough, since each divides the number by ten.
unfoldable pub show : ℕ → Text
unfolding digits_from
show n = digits_from (suc n) n []

-- The number that a row of digits stands for, read from the left.
value_from : ℕ → Text → ℕ
value_from acc [] = acc
value_from acc (c ∷ s) = value_from (acc * 10 + (c - 48)) s

pub value : Text → ℕ
unfolding value_from
value s = value_from 0 s

value_from-digits_from :
    (fuel n : ℕ) (rest : Text)
    → n < fuel
    → value_from 0 (digits_from fuel n rest) ≡ value_from n rest
unfolding value_from digits_from
value_from-digits_from zero n rest h = elim h [ ]
value_from-digits_from (suc fuel) n rest h = elim (Bool-cases (ltb n 10)) [
  | inl small ↦ rw small (ap (λ k. value_from k rest) (omega arith))
  | inr large ↦ rw large (
      value_from-digits_from fuel (n / 10) ((48 + n % 10) ∷ rest) (ground arith)
      ∙ ap (λ k. value_from k rest) (omega arith))
]

pub value-show : (n : ℕ) → value (show n) ≡ n
unfolding value show
value-show n = value_from-digits_from (suc n) n [] (omega arith)

pub show-injective : (m n : ℕ) → show m ≡ show n → m ≡ n
show-injective m n h = sym (value-show m) ∙ ap value h ∙ value-show n
