-- ===== src/Page/Memory.antt =====
-- The list of conversations in memory, as a map from ids: persisting, updating, renaming, deleting.
use gpt2api_image.Base.{
  Text, ◌==◌, eq_iff, ◌≡◌, refl, sym, ap, ◌∙◌, inl, inr, Option, none, some, List, [], ◌∷◌,
  Option-cases, Bool-cases, if◌then◌else◌, arith,
}
use gpt2api_image.Base.Host.{Host}
use gpt2api_image.Conversation.{ImageConversation}
use gpt2api_image.Conversation.Ordering.{
  find_conversation, remove_conversation, sort_image_conversations, IsSorted, sort-IsSorted,
  remove-IsSorted,
}
use gpt2api_image.Conversation.Lookup.{
  NodupIds, find-id, find-put, put-NodupIds, find-remove, map-NodupIds, remove-NodupIds,
  sort-NodupIds, put_conversation,
}
use gpt2api_image.Page.{
  Page, persist_conversation, update_conversation, handle_rename_conversation,
  handle_delete_conversation, cancel_silently, selects, ids_to_cancel, rename_item,
}

module _ (host : Host) where
  -- The conversations in memory are sorted by date and have distinct ids.
  pub record IsOrderly (page : Page) : Type 0 where
    pub sorted : IsSorted host page.conversations
    pub nodup : NodupIds page.conversations
    pub shown : page.shown ≡ page.conversations

  pub persist-IsOrderly :
      (c : ImageConversation) (page : Page)
      → IsOrderly page
      → IsOrderly (persist_conversation host c page)
  unfolding persist_conversation
  persist-IsOrderly c page h = record {
    sorted = sort-IsSorted host _;
    nodup = put-NodupIds host c page.conversations h.nodup;
    shown = refl;
  }

  module _ (id : Text) (updater : ImageConversation → ImageConversation) where
    -- With an updater that keeps the id, an update is a `put`.
    update-put :
        (page : Page) {current : ImageConversation}
        → ((c : ImageConversation) → (updater c).id ≡ c.id)
        → find_conversation id page.conversations ≡ some current
        → (update_conversation host id updater page).conversations
          ≡ put_conversation host (updater current) page.conversations
    unfolding update_conversation
    update-put page {current} keeps found =
        rw (found, update_conversation)
          (ap
            (λ k.
              sort_image_conversations host
                (updater current ∷ remove_conversation k page.conversations))
            (sym (keeps current ∙ find-id id page.conversations found)))

    abbrev pub updated : Option ImageConversation → Option ImageConversation
    updated none = none
    updated (some c) = some (updater c)

    find-update_missing :
        (page : Page) (j : Text)
        → find_conversation id page.conversations ≡ none
        → find_conversation j page.conversations
          ≡ (if id == j then none else find_conversation j page.conversations)
    find-update_missing page j missing = elim (Bool-cases (id == j)) [
      | inl same ↦
          rw same (
            ap (λ k. find_conversation k page.conversations) (sym ((eq_iff id j).0 same)) ∙ missing)
      | inr other ↦ rw other
    ]

    -- A conversation that is gone stays gone: an update does nothing at all, so a task that ends late
    -- neither shows nor stores it again.
    pub update_missing :
        (page : Page)
        → find_conversation id page.conversations ≡ none
        → update_conversation host id updater page ≡ page
    unfolding update_conversation
    update_missing page missing = rw (missing, update_conversation)

    -- An update changes the conversation of the id, if it is there, and no other.
    pub find-update :
        (page : Page) (j : Text)
        → ((c : ImageConversation) → (updater c).id ≡ c.id)
        → IsOrderly page
        → find_conversation j (update_conversation host id updater page).conversations ≡ (
            if id == j
            then updated (find_conversation id page.conversations)
            else find_conversation j page.conversations)
    find-update page j keeps h = elim (Option-cases (find_conversation id page.conversations)) [
      | inl missing ↦
          rw (update_missing page missing) (rw missing (find-update_missing page j missing))
      | inr (current, found) ↦
          let same : (updater current).id ≡ id =
            keeps current ∙ find-id id page.conversations found in
          rw (update-put page keeps found)
            (rw (find-put host (updater current) page.conversations j h.nodup) (simp (same, found)))
    ]

    pub update-IsOrderly :
        (page : Page)
        → ((c : ImageConversation) → (updater c).id ≡ c.id)
        → IsOrderly page
        → IsOrderly (update_conversation host id updater page)
    unfolding update_conversation
    update-IsOrderly page keeps h = elim (Option-cases (find_conversation id page.conversations)) [
      | inl missing ↦ rw (missing, update_conversation) h
      | inr (current, found) ↦ record {
        sorted = rw (found, update_conversation) (sort-IsSorted host _);
        nodup =
            rw (update-put page keeps found)
              (put-NodupIds host (updater current) page.conversations h.nodup);
        shown = rw (found, update_conversation);
      }
    ]

pub conversations-cancel :
    (ids : List Text) (page : Page)
    → ((cancel_silently ids page).conversations ≡ page.conversations)
      × ((cancel_silently ids page).shown ≡ page.shown)
conversations-cancel [] page = (refl, refl)
conversations-cancel (id ∷ ids) page = (refl, refl)

-- Deleting shows the conversations that the closure has seen, without the one of the id.
pub conversations-delete :
    (seen : List ImageConversation) (id : Text) (page : Page)
    → let r = handle_delete_conversation seen id page in
      (r.conversations ≡ remove_conversation id seen) × (r.shown ≡ remove_conversation id seen)
unfolding handle_delete_conversation
conversations-delete seen id page = elim (Bool-cases (selects page.selected id)) [
  | inl gone ↦
      rw gone (conversations-cancel (ids_to_cancel (find_conversation id page.conversations)) _)
  | inr kept ↦
      rw kept (conversations-cancel (ids_to_cancel (find_conversation id page.conversations)) _)
]

module _ (host : Host) where
  -- Deleting removes the conversation of the id from what the closure has seen, and no other.
  pub find-delete_conversation :
      (page : Page) (id j : Text)
      → IsOrderly host page
      → find_conversation j (handle_delete_conversation page.shown id page).conversations
        ≡ (if id == j then none else find_conversation j page.conversations)
  find-delete_conversation page id j h =
      rw (conversations-delete page.shown id page).0
        (rw h.shown (find-remove id j page.conversations))

  pub delete-IsOrderly :
      (page : Page) (id : Text)
      → IsOrderly host page
      → IsOrderly host (handle_delete_conversation page.shown id page)
  delete-IsOrderly page id h = record {
    sorted =
        rw (conversations-delete page.shown id page).0
          (rw h.shown (remove-IsSorted host id page.conversations h.sorted));
    nodup =
        rw (conversations-delete page.shown id page).0
          (rw h.shown (remove-NodupIds id page.conversations h.nodup));
    shown =
        (conversations-delete page.shown id page).1
        ∙ sym (conversations-delete page.shown id page).0;
  }

  pub rename-IsOrderly :
      (now id title : Text) (page : Page)
      → IsOrderly host page
      → IsOrderly host (handle_rename_conversation host page.shown now id title page)
  unfolding handle_rename_conversation
  rename-IsOrderly now id title page h = record {
    sorted = sort-IsSorted host _;
    nodup = sort-NodupIds host _ (
        rw h.shown
          (map-NodupIds (rename_item now id title) (λ c. ground arith) page.conversations h.nodup));
    shown = refl;
  }
