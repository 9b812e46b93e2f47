-- ===== src/Base/Sets.antt =====
-- Lists of texts as sets: `includes`, and the `Set` of JavaScript in insertion order.
use mathlib.Core.Path.{◌≡◌, refl, subst}
use mathlib.Core.Logic.{inl, inr}
use mathlib.Core.Bool.{Bool, true, ◌&&◌, ◌||◌}
use mathlib.Core.List.{List, [], ◌∷◌, ◌++◌}
use native.Mathlib.Omega.{arith}
use gpt2api_image.Base.Tests.{Bool-cases, if◌then◌else◌}
use gpt2api_image.Base.Lists.{any, filter}
use gpt2api_image.Base.Strings.{Text, ◌==◌, eq_iff}

-- `array.includes(key)`
abbrev pub contains : Text → List Text → Bool
contains k = any (λ j. j == k)

abbrev pub dedupe_from : List Text → List Text → List Text
dedupe_from seen [] = seen
dedupe_from seen (k ∷ ks) = dedupe_from (if contains k seen then seen else seen ++ k ∷ []) ks

-- `Array.from(new Set(keys))`
abbrev pub dedupe : List Text → List Text
dedupe = dedupe_from []

pub contains-append :
    (k : Text) (xs ys : List Text) → contains k (xs ++ ys) ≡ (contains k xs || contains k ys)
contains-append k [] ys = refl
contains-append k (x ∷ xs) ys = ground (arith, contains-append k xs ys)

add_one :
    (k x : Text) (seen : List Text)
    → contains k (if contains x seen then seen else seen ++ x ∷ []) ≡ (contains k seen || (x == k))
add_one k x seen = elim (Bool-cases (contains x seen)) [
  | inl old ↦ rw old (elim (Bool-cases (x == k)) [
    | inl same ↦
        let kept : contains k seen ≡ true =
          subst (λ t. contains t seen ≡ true) ((eq_iff x k).0 same) old in
        ground (arith, kept)
    | inr other ↦ ground (arith, other)
  ])
  | inr new ↦ rw new (ground (arith, contains-append k seen (x ∷ [])))
]

contains-dedupe_from :
    (k : Text) (seen xs : List Text)
    → contains k (dedupe_from seen xs) ≡ (contains k seen || contains k xs)
contains-dedupe_from k seen [] = ground arith
contains-dedupe_from k seen (x ∷ xs) = ground (
  arith,
  contains-dedupe_from k (if contains x seen then seen else seen ++ x ∷ []) xs,
  add_one k x seen,
)

pub contains-dedupe : (k : Text) (xs : List Text) → contains k (dedupe xs) ≡ contains k xs
contains-dedupe k xs = contains-dedupe_from k [] xs

pub contains-filter :
    (k : Text) (p : Text → Bool) (xs : List Text)
    → contains k (filter p xs) ≡ (contains k xs && p k)
contains-filter k p [] = refl
contains-filter k p (x ∷ xs) = elim (Bool-cases (x == k)) [
  | inl same ↦
      rw ((eq_iff x k).0 same) (ground (arith, contains-filter k p xs, (eq_iff k k).1 refl))
  | inr other ↦ ground (arith, other, contains-filter k p xs)
]
