-- ===== src/Base/Maps.antt =====
-- The `Map` of JavaScript with text keys: a list of pairs in insertion order.
use mathlib.Core.Path.{◌≡◌, refl, subst₂}
use mathlib.Core.Logic.{inl, inr}
use mathlib.Core.Option.{Option, none, some}
use mathlib.Core.List.{List, [], ◌∷◌}
use native.Mathlib.Omega.{arith}
use gpt2api_image.Base.Tests.{Bool-cases, some-eq, if◌then◌else◌}
use gpt2api_image.Base.Strings.{Text, ◌==◌, eq_iff}

abbrev pub Dict {ℓ} : Type ℓ → Type ℓ
Dict V = List (Text × V)

module _ {ℓ} {V : Type ℓ} where
  -- `map.get(key)`
  unfoldable pub lookup : Text → Dict V → Option V
  lookup key [] = none
  lookup key ((first, value) ∷ entries) =
      let below = lookup key entries in if first == key then some value else below

  -- `map.set(key, value)`: an old key keeps its place.
  unfoldable pub insert : Text → V → Dict V → Dict V
  insert key value [] = (key, value) ∷ []
  insert key value ((first, old) ∷ entries) =
      let below = insert key value entries in
      if first == key then (key, value) ∷ entries else (first, old) ∷ below

  -- A key that was set has the new value, and the others keep theirs.
  pub lookup-insert :
      (key other : Text) (value : V) (entries : Dict V)
      → lookup other (insert key value entries)
        ≡ (if key == other then some value else lookup other entries)
  unfolding insert lookup
  lookup-insert key other value [] = refl
  lookup-insert key other value ((first, old) ∷ entries) = ground (
    lookup-insert key other value entries,
    eq_iff first other,
    eq_iff first key,
    eq_iff key other,
    arith,
  )

module _ {ℓ} {V : Type ℓ} where
  abbrev pub NodupKeys : Dict V → Type ℓ
  NodupKeys [] = Unit
  NodupKeys ((k, v) ∷ m) = (lookup k m ≡ none) × NodupKeys m

  pub insert-NodupKeys : (k : Text) (v : V) (m : Dict V) → NodupKeys m → NodupKeys (insert k v m)
  unfolding insert lookup
  insert-NodupKeys k v [] h = (refl, tt)
  insert-NodupKeys k v ((j, w) ∷ m) (fresh, h) =
      ground (arith, insert-NodupKeys k v m h, lookup-insert k j v m, eq_iff j k, eq_iff k j)

module _ {ℓ κ} {V : Type ℓ} (P : Text → V → Type κ) where
  -- Every entry satisfies `P`.
  abbrev pub AllEntries : Dict V → Type κ
  AllEntries [] = Unit
  AllEntries ((k, v) ∷ m) = P k v × AllEntries m

  pub insert-AllEntries :
      (k : Text) (v : V) (m : Dict V) → P k v → AllEntries m → AllEntries (insert k v m)
  unfolding insert
  insert-AllEntries k v [] p h = (p, tt)
  insert-AllEntries k v ((j, w) ∷ m) p (q, h) = elim (Bool-cases (j == k)) [
    | inl same ↦ rw same (p, h)
    | inr other ↦ rw other (q, insert-AllEntries k v m p h)
  ]

  pub lookup-AllEntries :
      (k : Text) (m : Dict V) {v : V} → AllEntries m → lookup k m ≡ some v → P k v
  unfolding lookup
  lookup-AllEntries k [] h e = cc
  lookup-AllEntries k ((j, w) ∷ m) (q, h) e = elim (Bool-cases (j == k)) [
    | inl same ↦ subst₂ P ((eq_iff j k).0 same) (some-eq (rw same at e)) q
    | inr other ↦ lookup-AllEntries k m h (rw other at e)
  ]
