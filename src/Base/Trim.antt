-- ===== src/Base/Trim.antt =====
-- `trim` twice is `trim`, and what it does with a unit and at the end of a text.
use Prim.Native.Nat.{ℕ}
use mathlib.Core.Path.{◌≡◌, refl, sym, ap, ◌∙◌}
use mathlib.Core.Logic.{inl, inr}
use mathlib.Core.Bool.{Bool, true, false, ◌||◌}
use mathlib.Core.List.{[], ◌∷◌, ◌++◌, reverse, reverse-append, reverse-reverse}
use native.Mathlib.Omega.{arith}
use gpt2api_image.Base.Tests.{Bool-cases, eqb, if◌then◌else◌}
use gpt2api_image.Base.Lists.{any, is_empty}
use gpt2api_image.Base.Strings.{Text, is_space, trim, trim_start}

-- What `trim_start` removes stands in front.
trim_start-split : (s : Text) → (cut : Text) × (s ≡ cut ++ trim_start s)
unfolding trim_start
trim_start-split [] = ([], refl)
trim_start-split (c ∷ s) =
    let (cut, e) = trim_start-split s in
    elim (Bool-cases (is_space c)) [
      | inl space ↦ (c ∷ cut, rw space (ap (λ t. c ∷ t) e))
      | inr other ↦ ([], rw other refl)
    ]

trim_start_idem : (s : Text) → trim_start (trim_start s) ≡ trim_start s
unfolding trim_start
trim_start_idem [] = refl
trim_start_idem (c ∷ s) = ground (arith, trim_start_idem s)

head_kept : (s : Text) (c : ℕ) (t : Text) → trim_start s ≡ c ∷ t → is_space c ≡ false
unfolding trim_start
head_kept [] c t h = cc
head_kept (b ∷ s) c t h = elim (Bool-cases (is_space b)) [
  | inl space ↦ head_kept s c t (rw space at h)
  | inr other ↦ ground (arith, rw other at h)
]

-- A text that starts where `trim_start` stopped has nothing to remove, nor has a start of it.
front_kept :
    (front back : Text) → trim_start (front ++ back) ≡ front ++ back → trim_start front ≡ front
unfolding trim_start
front_kept [] back h = refl
front_kept (c ∷ front) back h = elim (Bool-cases (is_space c)) [
  | inl space ↦ absurd (ground (arith, head_kept (c ∷ front ++ back) c (front ++ back) h, space))
  | inr other ↦ rw other refl
]

pub trim_idem : (s : Text) → trim (trim s) ≡ trim s
unfolding trim
trim_idem s =
    let u = trim_start s in
    let v = trim_start (reverse u) in
    let (cut, e) = trim_start-split (reverse u) in
    let whole : u ≡ reverse v ++ reverse cut =
      sym (reverse-reverse u) ∙ ap reverse e ∙ reverse-append cut v in
    let kept : trim_start (reverse v) ≡ reverse v =
      front_kept (reverse v) (reverse cut)
        (ap trim_start (sym whole) ∙ trim_start_idem s ∙ whole) in
    ap (λ t. reverse (trim_start (reverse t))) kept
    ∙ ap (λ t. reverse (trim_start t)) (reverse-reverse v)
    ∙ ap reverse (trim_start_idem (reverse u))

-- Whether a unit stands in a text.
abbrev pub has : ℕ → Text → Bool
has c = any (λ d. eqb d c)

has-append : (c : ℕ) (s t : Text) → has c (s ++ t) ≡ (has c s || has c t)
has-append c [] t = refl
has-append c (d ∷ s) t = ground (arith, has-append c s t)

has-reverse : (c : ℕ) (s : Text) → has c (reverse s) ≡ has c s
has-reverse c [] = refl
has-reverse c (d ∷ s) =
    ap (has c) (reverse-append (d ∷ []) s)
    ∙ ground (arith, has-append c (reverse s) (d ∷ []), has-reverse c s)

has-trim_start : (c : ℕ) (s : Text) → has c s ≡ false → has c (trim_start s) ≡ false
unfolding trim_start
has-trim_start c [] h = refl
has-trim_start c (d ∷ s) h = ground (arith, h, has-trim_start c s)

pub has-trim : (c : ℕ) (s : Text) → has c s ≡ false → has c (trim s) ≡ false
unfolding trim
has-trim c s h =
    let front = trim_start s in
    has-reverse c (trim_start (reverse front))
    ∙ has-trim_start c (reverse front) (has-reverse c front ∙ has-trim_start c s h)

-- White space at the end does not change what `trim` gives.
trim_start-end :
    (s : Text) (c : ℕ)
    → is_space c ≡ true
    → trim_start (s ++ c ∷ []) ≡ (if is_empty (trim_start s) then [] else trim_start s ++ c ∷ [])
unfolding trim_start
trim_start-end [] c h = rw h refl
trim_start-end (d ∷ s) c h = elim (Bool-cases (is_space d)) [
  | inl space ↦ rw space (trim_start-end s c h)
  | inr other ↦ rw other refl
]

end_dropped :
    (s : Text) (c : ℕ)
    → is_space c ≡ true
    → reverse (trim_start (reverse (if is_empty s then [] else s ++ c ∷ [])))
      ≡ reverse (trim_start (reverse s))
unfolding trim_start
end_dropped [] c h = refl
end_dropped (d ∷ s) c h =
    ap (λ t. reverse (trim_start t)) (reverse-append (d ∷ s) (c ∷ [])) ∙ rw h refl

pub trim-end : (s : Text) (c : ℕ) → is_space c ≡ true → trim (s ++ c ∷ []) ≡ trim s
unfolding trim trim_start
trim-end s c h =
    ap (λ t. reverse (trim_start (reverse t))) (trim_start-end s c h)
    ∙ end_dropped (trim_start s) c h

pub return_is_space : is_space 13 ≡ true
unfolding is_space
return_is_space = refl
