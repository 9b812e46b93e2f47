-- ===== src/Recovery/Changes.antt =====
-- The callbacks of page.tsx that return the same object when nothing changes.
use gpt2api_image.Base.{◌≡◌, refl, ap₂, false, Option, List, [], ◌∷◌, map, arith}
use gpt2api_image.Recovery.{or_same, any_changed, map_changed}

module _ {A : Type 0} (f : A → Option A) where
  pub map_changed_same : (xs : List A) → any_changed f xs ≡ false → map_changed f xs ≡ xs
  map_changed_same [] h = refl
  map_changed_same (x ∷ xs) h = ground (arith, map_changed_same xs)

  pub map_changed-map :
      {B : Type 0} (g : A → B)
      → ((x : A) → g (or_same f x (f x)) ≡ g x)
      → (xs : List A) → map g (map_changed f xs) ≡ map g xs
  map_changed-map g h [] = refl
  map_changed-map g h (x ∷ xs) = ap₂ ◌∷◌ (h x) (map_changed-map g h xs)
