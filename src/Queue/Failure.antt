-- ===== src/Queue/Failure.antt =====
-- web/src/app/image/page.tsx, `runConversationQueue`: how an image of the turn leaves the state in which
-- it loads, and that it can come back to it.
use gpt2api_image.Base.{Text, ◌≡◌, refl, true, false, some, List, [], ◌∷◌, map, any, arith}
use gpt2api_image.Conversation.{StoredImage, ImageStatus, ImageTurn, TurnStatus, is_loading}
use gpt2api_image.Page.Deletion.{loads}
use gpt2api_image.Turn.{fail_turn, fail_loading}

-- An image that loaded has failed with the message; any other is as it was.
abbrev pub IsFailedWith : Text → StoredImage → StoredImage → Type 0
IsFailedWith message x y =
    (y.id ≡ x.id)
    × (is_loading y.status ≡ false)
    × (is_loading x.status ≡ true → (y.status ≡ some ImageStatus.error) × (y.error ≡ some message))
    × (is_loading x.status ≡ false → y ≡ x)

abbrev pub Pointwise :
    (StoredImage → StoredImage → Type 0) → List StoredImage → List StoredImage → Type 0
Pointwise R [] [] = Unit
Pointwise R (x ∷ xs) (y ∷ ys) = R x y × Pointwise R xs ys
Pointwise R _ _ = ⊥

images_failed :
    (message : Text) (xs : List StoredImage)
    → Pointwise (IsFailedWith message) xs (map (fail_loading message) xs)
images_failed message [] = tt
images_failed message (x ∷ xs) = (ground arith, images_failed message xs)

quiet_failed :
    (message : Text) (xs : List StoredImage)
    → any (λ image. is_loading image.status) (map (fail_loading message) xs) ≡ false
quiet_failed message [] = refl
quiet_failed message (x ∷ xs) = ground (arith, quiet_failed message xs)

-- When a run fails, its turn has failed with the message; every image that loaded has the status of an error and
-- the message, and any other is as it was; nothing of the turn loads, so the turn is not run again.
pub fail_turn-IsFailedWith :
    (message : Text) (turn : ImageTurn)
    → let t = fail_turn message turn in
      (t.status ≡ TurnStatus.error)
      × (t.error ≡ some message)
      × (loads t ≡ false)
      × Pointwise (IsFailedWith message) turn.images t.images
unfolding fail_turn
fail_turn-IsFailedWith message turn =
    (refl, refl, quiet_failed message turn.images, images_failed message turn.images)
