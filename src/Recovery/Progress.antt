-- ===== src/Recovery/Progress.antt =====
-- Images that have ended are left alone.
use gpt2api_image.Base.{
  ◌≡◌, refl, sym, inl, inr, false, Option, List, [], ◌∷◌, Dict, Bool-cases, arith,
}
use gpt2api_image.Conversation.{StoredImage, ImageTurn, is_loading}
use gpt2api_image.Task.{ImageTask, with_images}
use gpt2api_image.Recovery.{
  or_same, any_changed, map_changed, recover_image, recover_turn, sync_image, sync_turn,
}
use gpt2api_image.Recovery.Resume.{recover_turn-cases}
use gpt2api_image.Recovery.Changes.{map_changed_same}

-- The images keep their places and ids, and those that do not load stay as they are.
abbrev pub IsProgress : List StoredImage → List StoredImage → Type 0
IsProgress [] ys = ys ≡ []
IsProgress (x ∷ xs) [] = ⊥
IsProgress (x ∷ xs) (y ∷ ys) =
    (y.id ≡ x.id) × (is_loading x.status ≡ false → y ≡ x) × IsProgress xs ys

IsProgress-refl : (xs : List StoredImage) → IsProgress xs xs
IsProgress-refl [] = refl
IsProgress-refl (x ∷ xs) = (refl, λ _. refl, IsProgress-refl xs)

IsProgress-map_changed :
    (f : StoredImage → Option StoredImage)
    → ((x : StoredImage)
        → let y = or_same f x (f x) in (y.id ≡ x.id) × (is_loading x.status ≡ false → y ≡ x))
    → (xs : List StoredImage) → IsProgress xs (map_changed f xs)
IsProgress-map_changed f h [] = refl
IsProgress-map_changed f h (x ∷ xs) = ((h x).0, (h x).1, IsProgress-map_changed f h xs)

recover_image-keeps :
    (x : StoredImage)
    → let y = or_same recover_image x (recover_image x) in
      (y.id ≡ x.id) × (is_loading x.status ≡ false → y ≡ x)
unfolding recover_image
recover_image-keeps x = ground arith

sync_image-keeps :
    (tasks : Dict ImageTask) (x : StoredImage)
    → let y = or_same (sync_image tasks) x (sync_image tasks x) in
      (y.id ≡ x.id) × (is_loading x.status ≡ false → y ≡ x)
unfolding sync_image
sync_image-keeps tasks x = ground arith

recover_turn-IsProgress :
    (turn : ImageTurn)
    → IsProgress turn.images (or_same recover_turn turn (recover_turn turn)).images
unfolding with_images
recover_turn-IsProgress turn = elim (recover_turn-cases turn) [
  | inl (same, _) ↦ rw same (IsProgress-refl turn.images)
  | inr (inl (same, _, _)) ↦ rw same (IsProgress-refl turn.images)
  | inr (inr changed) ↦
      rw changed (IsProgress-map_changed recover_image recover_image-keeps turn.images)
]

pub images-sync_turn :
    (tasks : Dict ImageTask) (turn : ImageTurn)
    → (or_same (sync_turn tasks) turn (sync_turn tasks turn)).images
      ≡ map_changed (sync_image tasks) turn.images
unfolding sync_turn
images-sync_turn tasks turn = elim (Bool-cases (any_changed (sync_image tasks) turn.images)) [
  | inl some_changed ↦ rw some_changed
  | inr none_changed ↦
      rw none_changed (sym (map_changed_same (sync_image tasks) turn.images none_changed))
]

-- Neither pass touches an image that has ended, whatever the server answers.
pub recovery-IsProgress :
    (tasks : Dict ImageTask) (turn : ImageTurn)
    → IsProgress turn.images (or_same recover_turn turn (recover_turn turn)).images
      × IsProgress turn.images (or_same (sync_turn tasks) turn (sync_turn tasks turn)).images
recovery-IsProgress tasks turn = (
  recover_turn-IsProgress turn,
  rw (images-sync_turn tasks turn)
      (IsProgress-map_changed (sync_image tasks) (sync_image-keeps tasks) turn.images),
)
