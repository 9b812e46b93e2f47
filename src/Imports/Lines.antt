-- ===== src/Imports/Lines.antt =====
-- web/src/app/accounts/components/account-import-dialog.tsx: the tokens that a text file adds to the input
-- are read back from it.
use gpt2api_image.Base.{
  ℕ, Text, trim, truthy, Bool, true, false, ◌&&◌, List, [], ◌∷◌, ◌++◌, map, filter, ◌≡◌, refl, sym,
  subst, ap, ◌∙◌, arith, Bool-cases, inl, inr, ◌⊎◌, if◌then◌else◌, eqb,
}
use mathlib.Core.List.{map-append}
use gpt2api_image.Base.Trim.{trim-end, return_is_space}
use gpt2api_image.Imports.{split_breaks, add_to_first, breaks_next, split_tokens}

-- A line without the carriage return at its end, and the same for the last line of all.
abbrev cut : Text → Text
cut [] = []
cut (c ∷ []) = if eqb c 13 then [] else c ∷ []
cut (c ∷ d ∷ s) = c ∷ cut (d ∷ s)

abbrev cut_last : List Text → List Text
cut_last [] = []
cut_last (line ∷ []) = cut line ∷ []
cut_last (line ∷ next ∷ lines) = line ∷ cut_last (next ∷ lines)

cut-cases : (s : Text) → (cut s ≡ s) ⊎ (s ≡ cut s ++ 13 ∷ [])
cut-cases [] = inl refl
cut-cases (c ∷ []) = elim (Bool-cases (eqb c 13)) [
  | inl return ↦ rw return (inr (ground (arith, return)))
  | inr other ↦ rw other (inl refl)
]
cut-cases (c ∷ d ∷ s) = elim (cut-cases (d ∷ s)) [
  | inl same ↦ inl (ap (λ t. c ∷ t) same)
  | inr more ↦ inr (ap (λ t. c ∷ t) more)
]

trim-cut : (s : Text) → trim (cut s) ≡ trim s
trim-cut s = elim (cut-cases s) [
  | inl same ↦ ap trim same
  | inr more ↦ sym (ap trim more ∙ trim-end (cut s) 13 return_is_space)
]

map-trim-cut_last : (lines : List Text) → map trim (cut_last lines) ≡ map trim lines
map-trim-cut_last [] = refl
map-trim-cut_last (line ∷ []) = ap (λ t. t ∷ []) (trim-cut line)
map-trim-cut_last (line ∷ next ∷ lines) = ap (λ l. trim line ∷ l) (map-trim-cut_last (next ∷ lines))

-- The lines of a text by its first unit, whether a break is next, and the lines of what follows.
abbrev pub first_unit : ℕ → Bool → List Text → List Text
first_unit c next lines =
    if eqb c 10 then [] ∷ lines else if eqb c 13 && next then lines else add_to_first c lines

split_breaks-step :
    (c : ℕ) (s : Text) → split_breaks (c ∷ s) ≡ first_unit c (breaks_next s) (split_breaks s)
unfolding split_breaks
split_breaks-step c s = refl

abbrev pub Lines : List Text → Type 0
Lines lines = (line : Text) × (more : List Text) × (lines ≡ line ∷ more)

-- There is always a line, and more than an empty one if there is a unit.
first_unit-Lines :
    (c : ℕ) (next : Bool) (line : Text) (more : List Text) → Lines (first_unit c next (line ∷ more))
first_unit-Lines c next line more = elim (Bool-cases (eqb c 10)) [
  | inl feed ↦ rw feed (_, _, refl)
  | inr other ↦ elim (Bool-cases (eqb c 13 && next)) [
    | inl return ↦ rw (other, return) (_, _, refl)
    | inr plain ↦ rw (other, plain) (_, _, refl)
  ]
]

pub split_breaks-Lines : (s : Text) → Lines (split_breaks s)
unfolding split_breaks
split_breaks-Lines [] = ([], [], refl)
split_breaks-Lines (c ∷ s) =
    let (line, more, e) = split_breaks-Lines s in
    subst (λ lines. Lines (first_unit c (breaks_next s) lines)) (sym e)
      (first_unit-Lines c (breaks_next s) line more)

is_bare : List Text → Bool
is_bare ([] ∷ []) = true
is_bare _ = false

first_unit-filled :
    (c : ℕ) (next : Bool) (line : Text) (more : List Text)
    → is_bare (line ∷ more) ≡ false
    → is_bare (first_unit c next (line ∷ more)) ≡ false
unfolding is_bare
first_unit-filled c next line more filled = elim (Bool-cases (eqb c 10)) [
  | inl feed ↦ rw feed refl
  | inr other ↦ elim (Bool-cases (eqb c 13 && next)) [
    | inl return ↦ rw (other, return) filled
    | inr plain ↦ rw (other, plain) refl
  ]
]

split_breaks-filled : (c : ℕ) (s : Text) → is_bare (split_breaks (c ∷ s)) ≡ false
unfolding is_bare split_breaks
split_breaks-filled c [] = elim (Bool-cases (eqb c 10)) [
  | inl feed ↦ rw feed refl
  | inr other ↦ elim (Bool-cases (eqb c 13 && false)) [
    | inl return ↦ absurd (ground (arith, return))
    | inr plain ↦ rw (other, plain) refl
  ]
]
split_breaks-filled c (d ∷ s) =
    let (line, more, e) = split_breaks-Lines (d ∷ s) in
    let filled : is_bare (line ∷ more) ≡ false =
      subst (λ lines. is_bare lines ≡ false) e (split_breaks-filled d s) in
    subst (λ lines. is_bare (first_unit c (eqb d 10) lines) ≡ false) (sym e)
      (first_unit-filled c (eqb d 10) line more filled)

-- A unit in front commutes with the cut at the end.
first_unit-cut_last :
    (c : ℕ) (next : Bool) (lines rest : List Text)
    → is_bare lines ≡ false
    → Lines lines
    → first_unit c next (cut_last lines ++ rest) ≡ cut_last (first_unit c next lines) ++ rest
unfolding is_bare
first_unit-cut_last c next [] rest filled (line, more, e) = cc
first_unit-cut_last c next ([] ∷ []) rest filled some_line = cc
first_unit-cut_last c next ((d ∷ s) ∷ []) rest filled some_line = elim (Bool-cases (eqb c 10)) [
  | inl feed ↦ rw feed refl
  | inr other ↦ elim (Bool-cases (eqb c 13 && next)) [
    | inl return ↦ rw (other, return) refl
    | inr plain ↦ rw (other, plain) refl
  ]
]
first_unit-cut_last c next (line ∷ more ∷ lines) rest filled some_line =
    elim (Bool-cases (eqb c 10)) [
      | inl feed ↦ rw feed refl
      | inr other ↦ elim (Bool-cases (eqb c 13 && next)) [
        | inl return ↦ rw (other, return) refl
        | inr plain ↦ rw (other, plain) refl
      ]
    ]

-- The lines of a text with a break in it are those in front and those behind.
split_breaks-append :
    (s t : Text) → split_breaks (s ++ 10 ∷ t) ≡ cut_last (split_breaks s) ++ split_breaks t
unfolding split_breaks
split_breaks-append [] t = refl
split_breaks-append (c ∷ []) t = elim (Bool-cases (eqb c 10)) [
  | inl feed ↦ rw feed refl
  | inr other ↦ elim (Bool-cases (eqb c 13)) [
    | inl return ↦ rw (other, return) (rw return refl)
    | inr plain ↦ rw (other, plain) (rw plain refl)
  ]
]
split_breaks-append (c ∷ d ∷ s) t =
    ap (first_unit c (eqb d 10)) (split_breaks-append (d ∷ s) t)
    ∙ first_unit-cut_last c (eqb d 10) (split_breaks (d ∷ s)) (split_breaks t)
        (split_breaks-filled d s) (split_breaks-Lines (d ∷ s))

filter-append :
    (xs ys : List Text) → filter truthy (xs ++ ys) ≡ filter truthy xs ++ filter truthy ys
filter-append [] ys = refl
filter-append (x ∷ xs) ys = elim (Bool-cases (truthy x)) [
  | inl filled ↦ rw filled (ap (λ l. x ∷ l) (filter-append xs ys))
  | inr bare ↦ rw bare (filter-append xs ys)
]

pub split_tokens-append :
    (s t : Text) → split_tokens (s ++ 10 ∷ t) ≡ split_tokens s ++ split_tokens t
unfolding split_tokens
split_tokens-append s t =
    ap (λ lines. filter truthy (map trim lines)) (split_breaks-append s t)
    ∙ ap (filter truthy) (map-append trim (cut_last (split_breaks s)) (split_breaks t))
    ∙ filter-append (map trim (cut_last (split_breaks s))) (map trim (split_breaks t))
    ∙ ap (λ lines. filter truthy lines ++ split_tokens t) (map-trim-cut_last (split_breaks s))
