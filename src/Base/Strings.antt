-- ===== src/Base/Strings.antt =====
-- JavaScript strings: a `Text` is the list of its UTF-16 code units. Literals of the source lie in
-- the basic plane, where a code point is one code unit.
use Prim.Native.Nat.{ℕ, ◌+◌}
use Prim.Native.Char.{code}
use Prim.Native.String.{String}
use mathlib.Core.Path.{◌≡◌, refl}
use mathlib.Core.Logic.{◌↔◌}
use mathlib.Core.Bool.{Bool, true, false, ◌&&◌, ◌||◌}
use mathlib.Core.Option.{Option, none, some}
use mathlib.Core.List.{List, [], ◌∷◌, ◌++◌, reverse}
use native.Mathlib.Omega.{arith}
use gpt2api_image.Base.Tests.{eqb, leb, if◌then◌else◌}

abbrev pub Text : Type 0
Text = List ℕ

abbrev pub text : String → Text
text String.[] = []
text (String.◌∷◌ c s) = code c ∷ text s

-- `a === b`
infix 50 ◌==◌
unfoldable pub ◌==◌ : Text → Text → Bool
[] == [] = true
(a ∷ s) == (b ∷ t) = eqb a b && s == t
_ == _ = false

pub eq_iff : (s t : Text) → ((s == t) ≡ true) ↔ (s ≡ t)
unfolding ◌==◌
eq_iff [] [] = (λ _. refl, λ _. refl)
eq_iff [] (b ∷ t) = (λ h. cc, λ h. cc)
eq_iff (a ∷ s) [] = (λ h. cc, λ h. cc)
eq_iff (a ∷ s) (b ∷ t) = ground (arith, eq_iff s t)

pub eq_refl : (s : Text) → (s == s) ≡ true
eq_refl s = (eq_iff s s).1 refl

-- A text is falsy when it is empty; a missing text is falsy too.
abbrev pub truthy : Text → Bool
truthy [] = false
truthy (c ∷ s) = true

abbrev pub truthy? : Option Text → Bool
truthy? none = false
truthy? (some s) = truthy s

-- `a || b`
infixr 30 ◌or◌
abbrev pub ◌or◌ : Text → Text → Text
[] or t = t
(c ∷ s) or t = c ∷ s

-- `a || b` where `a` may be missing
infixr 30 ◌or?◌
abbrev pub ◌or?◌ : Option Text → Text → Text
none or? t = t
some s or? t = s or t

-- The white space and line terminators that `trim` removes.
unfoldable pub is_space : ℕ → Bool
is_space c =
    (leb 9 c && leb c 13)
    || eqb c 32
    || eqb c 0xa0
    || eqb c 0x1680
    || (leb 0x2000 c && leb c 0x200a)
    || eqb c 0x2028
    || eqb c 0x2029
    || eqb c 0x202f
    || eqb c 0x205f
    || eqb c 0x3000
    || eqb c 0xfeff

unfoldable pub trim_start : Text → Text
unfolding is_space
trim_start [] = []
trim_start (c ∷ s) = let rest = trim_start s in if is_space c then rest else c ∷ s

-- `s.trim()`
unfoldable pub trim : Text → Text
unfolding trim_start
trim s = reverse (trim_start (reverse (trim_start s)))

-- One unit of `s.toLowerCase()`, as far as the result is compared with ASCII text: beside the capital
-- letters only the Kelvin sign becomes an ASCII letter.
unfoldable pub to_lower : ℕ → ℕ
to_lower c = if leb 65 c && leb c 90 then c + 32 else if eqb c 0x212a then 107 else c

-- `s.startsWith(t)`
abbrev pub starts_with : Text → Text → Bool
starts_with [] s = true
starts_with (b ∷ t) [] = false
starts_with (b ∷ t) (a ∷ s) = eqb a b && starts_with t s

-- `s.includes(t)`
unfoldable pub includes : Text → Text → Bool
includes t [] = starts_with t []
includes t (a ∷ s) = starts_with t (a ∷ s) || includes t s

-- `lines.join("\n")`
abbrev pub join_lines : List Text → Text
join_lines [] = []
join_lines (line ∷ []) = line
join_lines (line ∷ next ∷ lines) = line ++ (10 ∷ join_lines (next ∷ lines))
