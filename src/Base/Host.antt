-- ===== src/Base/Host.antt =====
-- The built-ins whose results depend on the host or its tables: `toLowerCase`, `localeCompare`, `new Date(s).getTime()`,
-- `Number(s)` and `String(n)`. The first keeps an empty text, of the second the language promises a consistent order, which the two
-- laws state; the last gives a text that is not empty and that `Number` reads back.
use mathlib.Core.Path.{◌≡◌}
use mathlib.Core.Logic.{◌≢◌}
use mathlib.Core.List.{[]}
use mathlib.Core.Bool.{Bool, true, ◌||◌}
use mathlib.Core.Option.{Option}
use gpt2api_image.Base.Strings.{Text}
use gpt2api_image.Base.Num.{ℤ, Num}

pub record Host : Type 0 where
  -- `a.localeCompare(b) <= 0`
  pub collate : Text → Text → Bool
  pub collate_total : (a b : Text) → (collate a b || collate b a) ≡ true
  pub collate_trans : (a b c : Text) → collate a b ≡ true → collate b c ≡ true → collate a c ≡ true
  -- `s.toLowerCase()`
  pub lower_case : Text → Text
  pub lower_case_empty : lower_case [] ≡ []
  -- `new Date(s).getTime()`, where `none` is NaN
  pub time_of : Text → Option ℤ
  -- `Number(s)`
  pub number_of : Text → Num
  -- `String(n)`
  pub show_num : Num → Text
  pub show_num_nonempty : (n : Num) → show_num n ≢ []
  pub number_show : (n : Num) → number_of (show_num n) ≡ n
