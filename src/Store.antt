-- ===== src/Store.antt =====
-- web/src/store/image-conversations.ts: the conversations that the browser keeps. The storage holds
-- the list under one key, or nothing; each operation reads it, changes it and writes it back.
pub mod Lookup
pub mod Batch
pub mod Queue
pub mod Replay
use gpt2api_image.Base.{
  Text, ◌==◌, Bool, true, false, Option, none, some, List, [], ◌∷◌, map, Dict, lookup, insert,
  if◌then◌else◌,
}
use gpt2api_image.Base.Num.{ℤ, pos, le_ℤ}
use gpt2api_image.Base.Host.{Host}
use gpt2api_image.Conversation.{ImageConversation}
use gpt2api_image.Conversation.Raw.{RawConversation, raw_conversation}
use gpt2api_image.Conversation.Normalize.{Clock, normalize_conversation}
use gpt2api_image.Conversation.Ordering.{
  find_conversation, remove_conversation, sort_image_conversations,
}

abbrev pub Disk : Type 0
Disk = Option (List RawConversation)

-- `imageConversationStorage.setItem(IMAGE_CONVERSATIONS_KEY, items)`
abbrev pub set_item : List ImageConversation → Disk
set_item items = some (map raw_conversation items)

abbrev get_item : Disk → List RawConversation
get_item none = []
get_item (some items) = items

abbrev finite_or_zero : Option ℤ → ℤ
finite_or_zero none = pos 0
finite_or_zero (some t) = t

abbrev pub values : Dict ImageConversation → List ImageConversation
values = map (λ (k, v). v)

-- `new Map(items.map((item) => [item.id, item]))`, on top of `m`
unfoldable pub index_from : Dict ImageConversation → List ImageConversation → Dict ImageConversation
index_from m [] = m
index_from m (item ∷ items) = index_from (insert item.id item m) items

module _ (host : Host) where
  -- `getTimestamp`
  abbrev pub get_timestamp : Text → ℤ
  get_timestamp value = finite_or_zero (host.time_of value)

  -- `pickLatestConversation`
  unfoldable pub pick_latest_conversation :
      ImageConversation → ImageConversation → ImageConversation
  unfolding le_ℤ
  pick_latest_conversation current next =
      if le_ℤ (get_timestamp current.updated_at) (get_timestamp next.updated_at)
      then next
      else current

  -- `current ? pickLatestConversation(current, next) : next`
  abbrev pub latest_of : Option ImageConversation → ImageConversation → ImageConversation
  latest_of none next = next
  latest_of (some current) next = pick_latest_conversation current next

  -- The loop of `saveImageConversations`.
  unfoldable pub merge_from :
      Dict ImageConversation → List ImageConversation → Dict ImageConversation
  unfolding pick_latest_conversation
  merge_from m [] = m
  merge_from m (c ∷ cs) = merge_from (insert c.id (latest_of (lookup c.id m) c) m) cs

  module _ (clock : Clock) where
    -- `readStoredImageConversations`
    unfoldable pub read_stored : Disk → List ImageConversation
    unfolding normalize_conversation
    read_stored disk = map (normalize_conversation host clock) (get_item disk)

    -- `listImageConversations`
    unfoldable pub list_image_conversations : Disk → List ImageConversation
    unfolding read_stored sort_image_conversations
    list_image_conversations disk = sort_image_conversations host (read_stored disk)

    -- `saveImageConversation` once the items are read and the conversation is normalised.
    unfoldable pub save_next : List ImageConversation → ImageConversation → Disk
    unfolding sort_image_conversations pick_latest_conversation
    save_next items next =
        let persisted = latest_of (find_conversation next.id items) next in
        set_item
          (sort_image_conversations host (persisted ∷ remove_conversation persisted.id items))

    -- `saveImageConversation`
    unfoldable pub save_image_conversation : ImageConversation → Disk → Disk
    unfolding read_stored save_next
    save_image_conversation conversation disk =
        save_next (read_stored disk)
          (normalize_conversation host clock (raw_conversation conversation))

    -- `renameImageConversation`
    unfoldable pub rename_image_conversation : Text → Text → Disk → Disk
    unfolding read_stored sort_image_conversations
    rename_image_conversation id title disk =
        let items = read_stored disk in
        elim (find_conversation id items) [
          | none ↦ disk
          | some target ↦
              let updated = record target { title = title; updated_at = clock.iso } in
              set_item (sort_image_conversations host (updated ∷ remove_conversation id items))
        ]

    -- `deleteImageConversation`
    unfoldable pub delete_image_conversation : Text → Disk → Disk
    unfolding read_stored
    delete_image_conversation id disk = set_item (remove_conversation id (read_stored disk))

    -- `saveImageConversations`
    unfoldable pub save_image_conversations : List ImageConversation → Disk → Disk
    unfolding read_stored sort_image_conversations index_from merge_from
    save_image_conversations conversations disk =
        let stored = index_from [] (read_stored disk) in
        let next =
          map (λ c. normalize_conversation host clock (raw_conversation c)) conversations in
        set_item (sort_image_conversations host (values (merge_from stored next)))

-- `clearImageConversations`
abbrev pub clear_image_conversations : Disk → Disk
clear_image_conversations disk = none
