-- ===== src/Page/Deletion.antt =====
-- web/src/app/image/page.tsx: what the two handlers of deletion ask of the server and the storage, and
-- what they leave of a turn.
use gpt2api_image.Base.{
  append_nil, append_assoc, Text, ◌==◌, eq_iff, eq_refl, ◌≡◌, refl, sym, ap, ap₂, ◌∙◌, inl, inr,
  Bool, false, none, some, List, [], ◌∷◌, ◌++◌, map, some-eq, any, subst, ◌⊎◌, All, All-filter_map,
  Bool-cases, is_empty, if◌then◌else◌, arith,
}
use gpt2api_image.Base.Host.{Host}
use gpt2api_image.Conversation.{ImageConversation, ImageTurn, StoredImage, is_loading}
use gpt2api_image.Conversation.Ordering.{find_conversation}
use gpt2api_image.Conversation.Lookup.{find-put, find-id, find-remove, put_conversation}
use gpt2api_image.Store.Queue.{save, delete}
use gpt2api_image.Page.{
  Page, Effect, write, cancel, persist_conversation, handle_delete_conversation, cancel_silently,
  selects, ids_to_cancel, handle_delete_turn_part, TurnPart, turns_without, delete_turn_part,
  turn_ids_to_cancel, find_turn, deleted_image,
}
use gpt2api_image.Page.Memory.{IsOrderly, conversations-cancel, conversations-delete}

abbrev pub cancels : List Text → List Effect
cancels [] = []
cancels (id ∷ ids) = cancel (id ∷ ids) ∷ []

pub effects-cancel :
    (ids : List Text) (page : Page)
    → (cancel_silently ids page).effects ≡ page.effects ++ cancels ids
effects-cancel [] page = sym (append_nil page.effects)
effects-cancel (id ∷ ids) page = refl

-- Deleting a conversation cancels what it waits for and then deletes it from the storage, whatever
-- conversation is selected, and does nothing else outside the page.
pub effects-delete :
    (seen : List ImageConversation) (id : Text) (page : Page)
    → (handle_delete_conversation seen id page).effects
      ≡ page.effects
        ++ (cancels (ids_to_cancel (find_conversation id page.conversations))
            ++ write (delete id) ∷ [])
unfolding handle_delete_conversation
effects-delete seen id page =
    let ids = ids_to_cancel (find_conversation id page.conversations) in
    elim (Bool-cases (selects page.selected id)) [
      | inl gone ↦ rw gone (
          ap (λ es. es ++ write (delete id) ∷ []) (effects-cancel ids _)
          ∙ append_assoc page.effects (cancels ids) (write (delete id) ∷ []))
      | inr kept ↦ rw kept (
          ap (λ es. es ++ write (delete id) ∷ []) (effects-cancel ids _)
          ∙ append_assoc page.effects (cancels ids) (write (delete id) ∷ []))
    ]

module _ (host : Host) where
  -- Of a conversation that is there, deleting a part of a turn cancels what the turn waits for when the
  -- part is its results, and then stores what is left, or deletes the conversation with its last turn.
  pub effects-delete_turn_part :
      (seen : List ImageConversation) (now id turn_id : Text) (part : TurnPart) (page : Page)
      (c : ImageConversation)
      → find_conversation id page.conversations ≡ some c
      → let turns = turns_without part turn_id c.turns in
        let ids = turn_ids_to_cancel part (find_turn turn_id c.turns) in
        (handle_delete_turn_part host seen now id turn_id part page).effects
        ≡ page.effects
          ++ (cancels ids
              ++ (if is_empty turns
                  then cancels (ids_to_cancel (some c)) ++ write (delete id) ∷ []
                  else write (save (record c { turns = turns; updated_at = now })) ∷ []))
  unfolding handle_delete_turn_part persist_conversation
  effects-delete_turn_part seen now id turn_id part page c found =
      let ids = turn_ids_to_cancel part (find_turn turn_id c.turns) in
      elim (Bool-cases (is_empty (turns_without part turn_id c.turns))) [
        | inl gone ↦
            rw (found, handle_delete_turn_part)
              (rw gone (
                effects-delete seen id (cancel_silently ids page)
                ∙ ap₂ (λ es o. es ++ (cancels (ids_to_cancel o) ++ write (delete id) ∷ []))
                    (effects-cancel ids page)
                    (ap (find_conversation id) (conversations-cancel ids page).0 ∙ found)
                ∙ append_assoc page.effects (cancels ids) _))
        | inr kept ↦
            rw (found, handle_delete_turn_part)
              (rw kept (
                ap
                  (λ es.
                    es
                    ++ write (
                        save (record c {
                          turns = turns_without part turn_id c.turns;
                          updated_at = now;
                        }))
                      ∷ [])
                  (effects-cancel ids page)
                ∙ append_assoc page.effects (cancels ids) _))
      ]

abbrev pub loads : ImageTurn → Bool
loads turn = any (λ image. is_loading image.status) turn.images

-- A turn of the id has no image that loads.
abbrev pub IsQuiet : Text → ImageTurn → Type 0
IsQuiet id turn = turn.id ≡ id → loads turn ≡ false

deleted_images :
    (images : List StoredImage)
    → any (λ image. is_loading image.status) (map (λ image. deleted_image image.id) images) ≡ false
deleted_images [] = refl
deleted_images (image ∷ images) = deleted_images images

pub delete_results-loads :
    (x y : ImageTurn) → delete_turn_part TurnPart.results x ≡ some y → loads y ≡ false
unfolding delete_turn_part
delete_results-loads x y = elim (Bool-cases x.prompt_deleted) [
  | inl gone ↦ rw gone (λ e. absurd (ground (arith, e)))
  | inr kept ↦ rw kept (λ e. subst (λ t. loads t ≡ false) (some-eq e) (deleted_images x.images))
]

without_results :
    (id : Text) (x y : ImageTurn)
    → (if x.id == id then delete_turn_part TurnPart.results x else some x) ≡ some y
    → IsQuiet id y
without_results id x y = elim (Bool-cases (x.id == id)) [
  | inl same ↦ rw same (λ e h. delete_results-loads x y e)
  | inr other ↦
      rw other
        (λ e h. absurd (ground (arith, (eq_iff x.id id).1 (ap (λ t. t.id) (some-eq e) ∙ h), other)))
]

module _ (host : Host) where
  -- Once the results of a turn are deleted, no image of that turn loads in what is shown: the
  -- conversation is gone, or all its turns of the id are quiet.
  pub delete_results-IsQuiet :
      (now id turn_id : Text) (page : Page) (c : ImageConversation)
      → IsOrderly host page
      → find_conversation id page.conversations ≡ some c
      → let r = handle_delete_turn_part host page.shown now id turn_id TurnPart.results page in
        (find_conversation id r.conversations ≡ none)
        ⊎ ((d : ImageConversation) × (find_conversation id r.conversations ≡ some d)
            × All (IsQuiet turn_id) d.turns)
  unfolding handle_delete_turn_part persist_conversation
  delete_results-IsQuiet now id turn_id page c h found =
      let turns = turns_without TurnPart.results turn_id c.turns in
      let rest : ImageConversation → ImageConversation =
        λ d. record d { turns = turns; updated_at = now } in
      let ids = turn_ids_to_cancel TurnPart.results (find_turn turn_id c.turns) in
      elim (Bool-cases (is_empty turns)) [
        | inl gone ↦ inl (
            rw (found, handle_delete_turn_part)
              (rw gone (
                ap (find_conversation id)
                  (conversations-delete page.shown id (cancel_silently ids page)).0
                ∙ find-remove id id page.shown
                ∙ ground (arith, eq_refl id))))
        | inr kept ↦ inr (
          rest c,
          rw (found, handle_delete_turn_part)
              (rw kept (
                ap (λ cs. find_conversation id (put_conversation host (rest c) cs))
                  (conversations-cancel ids page).0
                ∙ find-put host (rest c) page.conversations id h.nodup
                ∙ ground (arith, (eq_iff c.id id).1 (find-id id page.conversations found)))),
          All-filter_map (IsQuiet turn_id) _ (without_results turn_id) c.turns,
        )
      ]
