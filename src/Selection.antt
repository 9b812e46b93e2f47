-- ===== src/Selection.antt =====
-- The checkboxes of the tables of web/src/app/accounts/page.tsx, web/src/app/logs/page.tsx and
-- web/src/app/image-manager/page.tsx, and how a request of these pages ends.
use gpt2api_image.Base.{
  head, some-eq, subst, sym, Bool-cases, eq_iff, inl, inr, Text, ◌==◌, Bool, true, false, not, ◌&&◌,
  ◌||◌, List, [], ◌∷◌, ◌++◌, Option, none, some, ◌≡◌, refl, ap, map, any, filter, take, drop,
  contains, dedupe, contains-append, contains-dedupe, contains-filter, if◌then◌else◌, ℕ, zero, suc,
  arith,
}

-- The answer to a request, or what was thrown: the message if it is an Error.
pub data Outcome {ℓ} (A : Type ℓ) : Type ℓ where
  answered : A → Outcome A
  failed : Option Text → Outcome A

-- `error instanceof Error ? error.message : fallback`
abbrev pub message_of : Option Text → Text → Text
message_of none fallback = fallback
message_of (some message) fallback = message

-- The toasts by their kind.
pub data Toast : Type 0 where
  success warning error : Text → Toast

-- `toggleIds`, `togglePaths` and the two checkboxes of the accounts page:
-- `checked ? Array.from(new Set([...current, ...ids])) : current.filter(id => !ids.includes(id))`
unfoldable pub toggle : List Text → Bool → List Text → List Text
toggle ids checked current =
    if checked then dedupe (current ++ ids) else filter (λ id. not (contains id ids)) current

-- After a toggle the ids of the rows are selected or not, as the box says, and the others are as before.
pub contains-toggle :
    (k : Text) (ids : List Text) (checked : Bool) (current : List Text)
    → contains k (toggle ids checked current)
      ≡ (if contains k ids then checked else contains k current)
unfolding toggle
contains-toggle k ids true current =
    ground (arith, contains-dedupe k (current ++ ids), contains-append k current ids)
contains-toggle k ids false current =
    ground (arith, contains-filter k (λ id. not (contains id ids)) current)

module _ {ℓ} {A : Type ℓ} (key : A → Text) where
  -- `items.some((item) => key(item) === id)`
  abbrev pub has_key : Text → List A → Bool
  has_key id = any (λ item. key item == id)

  -- `current.filter((id) => items.some((item) => key(item) === id))`
  unfoldable pub retain : List A → List Text → List Text
  retain items = filter (λ id. has_key id items)

  -- Only rows of the list are selected.
  abbrev pub IsWithin : List A → List Text → Type 0
  IsWithin items selected = (id : Text) → contains id selected ≡ true → has_key id items ≡ true

  pub has_key-map : (id : Text) (items : List A) → contains id (map key items) ≡ has_key id items
  has_key-map id [] = refl
  has_key-map id (item ∷ items) = ap (λ b. (key item == id) || b) (has_key-map id items)

  -- The first of some rows is one of them.
  pub head-IsWithin :
      (rows : List A) (item : A) → head rows ≡ some item → IsWithin rows (key item ∷ [])
  head-IsWithin [] item h id e = cc
  head-IsWithin (row ∷ rows) item h id e =
      let same : row ≡ item = some-eq h in
      subst (λ r. (key r == id) || has_key id rows ≡ true) (sym same) (ground (arith, e))

  -- The keys of the items whose key passes a test are the keys that do.
  pub contains-chosen :
      (test : Text → Bool) (id : Text) (items : List A)
      → contains id (map key (filter (λ item. test (key item)) items))
        ≡ (has_key id items && test id)
  contains-chosen test id [] = refl
  contains-chosen test id (item ∷ items) = elim (Bool-cases (key item == id)) [
    | inl same ↦
        let e : test (key item) ≡ test id = ap test ((eq_iff (key item) id).0 same) in
        ground (arith, same, e, contains-chosen test id items)
    | inr other ↦ ground (arith, other, contains-chosen test id items)
  ]

  pub contains-retain :
      (id : Text) (items : List A) (selected : List Text)
      → contains id (retain items selected) ≡ (contains id selected && has_key id items)
  unfolding retain
  contains-retain id items selected = contains-filter id (λ k. has_key k items) selected

  pub retain-IsWithin :
      (items : List A) (selected : List Text) → IsWithin items (retain items selected)
  retain-IsWithin items selected id h = ground (arith, h, contains-retain id items selected)

  pub toggle-IsWithin :
      (items : List A) (ids : List Text) (checked : Bool) (selected : List Text)
      → IsWithin items ids
      → IsWithin items selected
      → IsWithin items (toggle ids checked selected)
  toggle-IsWithin items ids checked selected own old id h =
      ground (arith, h, own id, old id, contains-toggle id ids checked selected)

module _ {ℓ} {A : Type ℓ} (p : A → Bool) where
  pub any-filter : (q : A → Bool) (xs : List A) → any p (filter q xs) ≡ true → any p xs ≡ true
  any-filter q [] h = h
  any-filter q (x ∷ xs) h = ground (arith, h, any-filter q xs)

  pub any-take : (n : ℕ) (xs : List A) → any p (take n xs) ≡ true → any p xs ≡ true
  any-take zero xs h = cc
  any-take (suc n) [] h = h
  any-take (suc n) (x ∷ xs) h = ground (arith, h, any-take n xs)

  pub any-drop : (n : ℕ) (xs : List A) → any p (drop n xs) ≡ true → any p xs ≡ true
  any-drop zero xs h = h
  any-drop (suc n) [] h = h
  any-drop (suc n) (x ∷ xs) h = ground (arith, h, any-drop n xs)
