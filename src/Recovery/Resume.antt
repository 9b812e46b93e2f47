-- ===== src/Recovery/Resume.antt =====
-- What the recovery guarantees of the turns at work.
use gpt2api_image.Base.{
  Text, ◌≡◌, ◌≢◌, ap, sym, ◌∙◌, ◌⊎◌, inl, inr, true, false, ◌&&◌, Option, none, some, List, [], any,
  All, All-map, truthy?, Bool-cases, arith,
}
use gpt2api_image.Conversation.{
  StoredImage, ImageTurn, ImageConversation, TurnStatus, is_loading, is_active,
}
use gpt2api_image.Task.{ImageTask, with_images, derive_turn_status}
use gpt2api_image.Task.Status.{HasStatus, is_active-derive}
use gpt2api_image.Recovery.{
  or_same, any_changed, map_changed, same_status, same_text, recover_image, recover_turn,
  recover_conversation, recover_conversation_history,
}
use gpt2api_image.Recovery.Changes.{map_changed_same}

-- A loading image of a turn at work has a task to ask for.
abbrev pub IsResumable : ImageTurn → Type 0
IsResumable turn =
    is_active turn.status ≡ true
    → All (λ image. is_loading image.status ≡ true → truthy? image.task_id ≡ true) turn.images

recover_image_lem :
    (image : StoredImage)
    → let r = or_same recover_image image (recover_image image) in
      is_loading r.status ≡ true → truthy? r.task_id ≡ true
unfolding recover_image
recover_image_lem image = ground arith

abbrev pub IsWaiting : StoredImage → Type 0
IsWaiting image = is_loading image.status ≡ true → truthy? image.task_id ≡ true

pub recovered : (images : List StoredImage) → All IsWaiting (map_changed recover_image images)
recovered =
    All-map IsWaiting (λ image. or_same recover_image image (recover_image image)) recover_image_lem

same_status-eq : (s t : TurnStatus) → same_status s t ≡ true → s ≡ t
same_status-eq s t h = ground arith

recover_fresh :
    (turn : ImageTurn)
    → is_active turn.status ≡ true
    → any_changed recover_image turn.images ≡ false
    → ((recover_turn turn ≡ none) × (is_active turn.status ≡ false))
      ⊎ ((recover_turn turn ≡ none)
          × (any_changed recover_image turn.images ≡ false)
          × ((derive_turn_status turn.status turn.images).0 ≡ turn.status))
      ⊎ (recover_turn turn
          ≡ some (with_images turn.status (map_changed recover_image turn.images) turn))
unfolding recover_turn
recover_fresh turn active fresh =
    let derived = derive_turn_status turn.status (map_changed recover_image turn.images) in
    elim (Bool-cases (same_status derived.0 turn.status && same_text derived.1 turn.error)) [
      | inl same ↦ inr (
          inl (
            ground arith,
            fresh,
            ap (λ images. (derive_turn_status turn.status images).0)
                  (sym (map_changed_same recover_image turn.images fresh))
                ∙ same_status-eq derived.0 turn.status (ground arith),
          ))
      | inr other ↦ inr (inr (ground arith))
    ]

pub recover_turn-cases :
    (turn : ImageTurn)
    → ((recover_turn turn ≡ none) × (is_active turn.status ≡ false))
      ⊎ ((recover_turn turn ≡ none)
          × (any_changed recover_image turn.images ≡ false)
          × ((derive_turn_status turn.status turn.images).0 ≡ turn.status))
      ⊎ (recover_turn turn
          ≡ some (with_images turn.status (map_changed recover_image turn.images) turn))
unfolding recover_turn
recover_turn-cases turn = elim (Bool-cases (is_active turn.status)) [
  | inr idle ↦ inl (ground arith, idle)
  | inl active ↦ elim (Bool-cases (any_changed recover_image turn.images)) [
    | inl some_changed ↦ inr (inr (ground arith))
    | inr fresh ↦ recover_fresh turn active fresh
  ]
]

recover_turn-IsResumable :
    (turn : ImageTurn) → IsResumable (or_same recover_turn turn (recover_turn turn))
recover_turn-IsResumable turn = elim (recover_turn-cases turn) [
  | inl (same, idle) ↦ rw same (λ active. cc)
  | inr (inl (same, fresh, _)) ↦
      rw same
        (λ _. rw (map_changed_same recover_image turn.images fresh) at (recovered turn.images))
  | inr (inr changed) ↦ rw changed (λ _. unfold with_images in recovered turn.images)
]

-- A turn at work, all of whose images have a status, has an image that loads.
abbrev pub IsSettled : ImageTurn → Type 0
IsSettled turn =
    is_active turn.status ≡ true
    → All HasStatus turn.images
    → turn.images ≢ []
    → any (λ image. is_loading image.status) turn.images ≡ true

pub recover_turn-IsSettled :
    (turn : ImageTurn) → IsSettled (or_same recover_turn turn (recover_turn turn))
unfolding with_images
recover_turn-IsSettled turn = elim (recover_turn-cases turn) [
  | inl (same, idle) ↦ rw same (λ active h n. cc)
  | inr (inl (same, fresh, derived)) ↦ rw same (λ active h n.
      sym (is_active-derive turn.status turn.images h n) ∙ ap is_active derived ∙ active)
  | inr (inr changed) ↦ rw changed (λ active h n.
      sym (is_active-derive turn.status (map_changed recover_image turn.images) h n) ∙ active)
]

pub turns-recover_conversation :
    (now : Text) (c : ImageConversation)
    → (or_same (recover_conversation now) c (recover_conversation now c)).turns
      ≡ map_changed recover_turn c.turns
unfolding recover_conversation
turns-recover_conversation now c = elim (Bool-cases (any_changed recover_turn c.turns)) [
  | inl some_changed ↦ rw some_changed
  | inr none_changed ↦ rw none_changed (sym (map_changed_same recover_turn c.turns none_changed))
]

-- After the first pass every turn at work can go on: each of its loading images has a task to ask for,
-- and one of its images does load, if they all have a status.
pub first_pass-IsResumable :
    (now later : Text) (fetch : List Text → Option (List ImageTask))
    (items : List ImageConversation)
    → All
        (λ c. All (λ turn. IsResumable turn × IsSettled turn) c.turns)
        (recover_conversation_history now later fetch items).0.items
unfolding recover_conversation_history
first_pass-IsResumable now later fetch items =
    All-map _ (λ c. or_same (recover_conversation now) c (recover_conversation now c))
      (λ c. rw (turns-recover_conversation now c) (
        All-map (λ turn. IsResumable turn × IsSettled turn)
          (λ turn. or_same recover_turn turn (recover_turn turn))
          (λ turn. (recover_turn-IsResumable turn, recover_turn-IsSettled turn)) c.turns))
      items
