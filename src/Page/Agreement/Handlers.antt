-- ===== src/Page/Agreement/Handlers.antt =====
-- web/src/app/image/page.tsx: what the handlers of the history show against what they store.
use gpt2api_image.Base.{
  Text, text, ◌==◌, eq_iff, ◌≡◌, refl, sym, ap, fun_ext, ◌∙◌, inl, inr, none, List, [], ◌∷◌, ◌++◌,
  map, filter_map, append_assoc, Option-cases, Bool-cases, is_empty, if◌then◌else◌, arith,
}
use gpt2api_image.Base.Host.{Host}
use gpt2api_image.Conversation.{ImageConversation}
use gpt2api_image.Conversation.Normalize.{Clock}
use gpt2api_image.Conversation.Ordering.{
  find_conversation, sort_image_conversations, remove_conversation,
}
use gpt2api_image.Conversation.Lookup.{find-id, find-sort, find-remove, map-NodupIds}
use gpt2api_image.Store.Queue.{rename, delete, clear}
use gpt2api_image.Store.Replay.{rename_entry, replay}
use gpt2api_image.Page.{
  Page, Effect, write, cancel, toast, cancel_silently, handle_rename_conversation, rename_item,
  handle_delete_conversation, handle_delete_turn_part, TurnPart, turns_without, turn_ids_to_cancel,
  find_turn, ids_to_cancel, emit, show_conversations, clear_composer_inputs, clear_history,
  handle_clear_history, persist_conversation,
}
use gpt2api_image.Page.Memory.{IsOrderly, conversations-cancel, conversations-delete}
use gpt2api_image.Page.Deletion.{cancels, effects-cancel, effects-delete}
use gpt2api_image.Page.Agreement.{
  IsSynced, IsPast, IsSynced-trans, same-IsSynced, persist-IsSynced, memory, write_of, at,
}

writes_cancels :
    (ids : List Text) (es : List Effect)
    → filter_map write_of (cancels ids ++ es) ≡ filter_map write_of es
writes_cancels [] es = refl
writes_cancels (id ∷ ids) es = refl

find-renamed :
    (clock : Clock) (id title j : Text) (cs : List ImageConversation)
    → find_conversation j (map (rename_item clock.iso id title) cs) ≡ (
        if id == j
        then rename_entry clock title (find_conversation id cs)
        else find_conversation j cs)
find-renamed clock id title j [] = ground arith
find-renamed clock id title j (c ∷ cs) =
    ground (arith, find-renamed clock id title j cs, eq_iff c.id id, eq_iff c.id j, eq_iff id j)

id-rename_item :
    (now id title : Text) (c : ImageConversation) → (rename_item now id title c).id ≡ c.id
id-rename_item now id title c = ground arith

module _ (host : Host) (clock : Clock) where
  rename-IsSynced :
      (id title : Text) (page : Page)
      → IsOrderly host page
      → IsSynced host clock page
          (handle_rename_conversation host page.shown clock.iso id title page)
  unfolding handle_rename_conversation
  rename-IsSynced id title page h = (
    write (rename id title) ∷ [],
    refl,
    fun_ext (λ j.
        sym (find-renamed clock id title j page.conversations)
        ∙ sym (
            find-sort host (map (rename_item clock.iso id title) page.conversations) j (
              map-NodupIds (rename_item clock.iso id title) (id-rename_item clock.iso id title)
                page.conversations h.nodup))
        ∙ ap
            (λ cs.
              find_conversation j
                (sort_image_conversations host (map (rename_item clock.iso id title) cs)))
            (sym h.shown)),
  )

  cancel-IsSynced :
      (ids : List Text) (page : Page) → IsSynced host clock page (cancel_silently ids page)
  cancel-IsSynced [] page = same-IsSynced host clock page
  cancel-IsSynced (id ∷ ids) page = (cancel (id ∷ ids) ∷ [], refl, refl)

  cancel-IsOrderly :
      (ids : List Text) (page : Page)
      → IsOrderly host page
      → IsOrderly host (cancel_silently ids page)
  cancel-IsOrderly [] page h = h
  cancel-IsOrderly (id ∷ ids) page h = record {
    sorted = h.sorted;
    nodup = h.nodup;
    shown = h.shown;
  }

  delete-IsSynced :
      (seen : List ImageConversation) (id : Text) (page : Page)
      → seen ≡ page.conversations
      → IsSynced host clock page (handle_delete_conversation seen id page)
  delete-IsSynced seen id page same =
      let ids = ids_to_cancel (find_conversation id page.conversations) in
      (
        cancels ids ++ write (delete id) ∷ [],
        effects-delete seen id page,
        ap (λ ws. replay host (map (at clock) ws) (memory page))
              (writes_cancels ids (write (delete id) ∷ []))
            ∙ fun_ext (λ j.
              sym (find-remove id j page.conversations)
              ∙ ap (λ cs. find_conversation j cs)
                  (ap (λ cs. remove_conversation id cs) (sym same)
                    ∙ sym (conversations-delete seen id page).0)),
      )

  part-IsSynced :
      (id turn_id : Text) (part : TurnPart) (page : Page)
      → IsOrderly host page
      → IsPast host id clock.iso page
      → IsSynced host clock page
          (handle_delete_turn_part host page.shown clock.iso id turn_id part page)
  unfolding handle_delete_turn_part
  part-IsSynced id turn_id part page h past =
      elim (Option-cases (find_conversation id page.conversations)) [
        | inl missing ↦ rw (missing, handle_delete_turn_part) (same-IsSynced host clock page)
        | inr (c, found) ↦
            let turns = turns_without part turn_id c.turns in
            let ids = turn_ids_to_cancel part (find_turn turn_id c.turns) in
            let canceled : Page = cancel_silently ids page in
            let next : ImageConversation = record c { turns = turns; updated_at = clock.iso } in
            let same : page.shown ≡ canceled.conversations =
              h.shown ∙ sym (conversations-cancel ids page).0 in
            elim (Bool-cases (is_empty turns)) [
              | inl gone ↦
                  rw (found, handle_delete_turn_part)
                    (rw gone (
                      IsSynced-trans host clock page canceled
                        (handle_delete_conversation page.shown id canceled)
                        (cancel-IsSynced ids page) (delete-IsSynced page.shown id canceled same)))
              | inr kept ↦
                  rw (found, handle_delete_turn_part)
                    (rw kept (
                      IsSynced-trans host clock page canceled
                        (persist_conversation host next canceled) (cancel-IsSynced ids page)
                        (persist-IsSynced host clock next canceled (cancel-IsOrderly ids page h)
                          (λ current e. past current (
                            ap (λ k. find_conversation k page.conversations)
                              (sym (find-id id page.conversations found))
                            ∙ ap (find_conversation c.id) (sym (conversations-cancel ids page).0)
                            ∙ e)))))
            ]
      ]

  clear-IsSynced :
      (page : Page)
      → IsSynced host clock page
          (clear_history (handle_clear_history page).0 (handle_clear_history page).1)
  unfolding handle_clear_history clear_history clear_composer_inputs
  clear-IsSynced page =
      let ids : List Text = (handle_clear_history page).0 in
      let cleared : Page =
        clear_composer_inputs
          (record (show_conversations [] (emit (write clear) page)) { selected = none }) in
      let said : List Effect = toast (text "已清空历史记录") ∷ [] in
      (
        write clear ∷ (cancels ids ++ said),
        ap (λ es. es ++ said) (effects-cancel ids cleared)
            ∙ append_assoc (page.effects ++ write clear ∷ []) (cancels ids) said
            ∙ append_assoc page.effects (write clear ∷ []) (cancels ids ++ said),
        ap (λ ws. replay host (map (at clock) (clear ∷ ws)) (memory page)) (writes_cancels ids said)
            ∙ ap (λ cs. λ (j : Text). find_conversation j cs)
                (sym (conversations-cancel ids cleared).0),
      )

  -- Whatever a handler of the history does, the storage and the list in memory stay in agreement, if
  -- the storage writes at the date that the page gives, and no stored date is later: the writes that it
  -- adds take the map of the one list to that of the other. So it is for renaming, for deleting a
  -- conversation or a part of a turn, and for clearing the history.
  pub handlers-IsSynced :
      (id turn_id title : Text) (part : TurnPart) (page : Page)
      → IsOrderly host page
      → IsPast host id clock.iso page
      → IsSynced host clock page
          (handle_rename_conversation host page.shown clock.iso id title page)
        × IsSynced host clock page (handle_delete_conversation page.shown id page)
        × IsSynced host clock page
            (handle_delete_turn_part host page.shown clock.iso id turn_id part page)
        × IsSynced host clock page
            (clear_history (handle_clear_history page).0 (handle_clear_history page).1)
  handlers-IsSynced id turn_id title part page h past = (
    rename-IsSynced id title page h,
    delete-IsSynced page.shown id page h.shown,
    part-IsSynced id turn_id part page h past,
    clear-IsSynced page,
  )
