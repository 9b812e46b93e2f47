-- ===== src/Page.antt =====
-- web/src/app/image/page.tsx: the state of the image page, and the handlers of the history. A handler
-- is one function of the state for the code up to its first `await`, and for the run and the toast that
-- follow when the write has succeeded; what it asks of the storage, of
-- the server and of the user interface is appended to `effects`, in the order of the calls. A handler
-- that reads a React state takes the value that its closure has seen as an argument.
pub mod Composer
pub mod Inputs
pub mod Memory
pub mod Agreement
pub mod Deletion
use gpt2api_image.Base.{
  Text, text, ◌==◌, Bool, true, false, not, ◌&&◌, ◌||◌, Option, none, some, List, [], ◌∷◌, ◌++◌,
  map, any, head, flat_map, is_empty, find, filter_map, trim, to_lower, if◌then◌else◌,
}
use gpt2api_image.Base.Host.{Host}
use gpt2api_image.Conversation.{
  StoredImage, ImageStatus, ReferenceImage, ReplyContext, ImageTurn, TurnStatus, ImageConversation,
  is_active,
}
use gpt2api_image.Conversation.Ordering.{
  find_conversation, remove_conversation, sort_image_conversations,
}
use gpt2api_image.Conversation.Lookup.{put_conversation}
use gpt2api_image.Task.{collect_loading_task_ids, collect_turn_loading_task_ids}
use gpt2api_image.Store.Queue.{Write, save, rename, delete, clear}

pub record ReplyTarget : Type 0 where
  pub conversation_id : Text
  pub context : ReplyContext

pub data Effect : Type 0 where
  -- a call of an operation of the storage
  write : Write → Effect
  -- `cancelTaskIdsSilently(ids)` with ids to cancel
  cancel : List Text → Effect
  toast : Text → Effect
  -- `void runConversationQueue(id)`
  run : Text → Effect

pub record Page : Type 0 where
  pub conversations : List ImageConversation  -- `conversationsRef.current`
  pub shown : List ImageConversation  -- the state `conversations`
  pub selected : Option Text
  pub prompt : Text
  pub count : Text
  pub size : Text
  pub resolution : Text
  pub reference_images : List ReferenceImage
  pub reply_target : Option ReplyTarget
  pub can_use_high_resolution : Bool
  pub available_quota : Text
  pub is_root_admin : Bool
  pub active : List Text  -- `activeConversationQueueIds`
  pub effects : List Effect

abbrev pub emit : Effect → Page → Page
emit e page = record page { effects = page.effects ++ e ∷ [] }

-- `void cancelTaskIdsSilently(ids)`
abbrev pub cancel_silently : List Text → Page → Page
cancel_silently [] page = page
cancel_silently (id ∷ ids) page = emit (cancel (id ∷ ids)) page

-- `conversationsRef.current = cs; setConversations(cs)`
abbrev pub show_conversations : List ImageConversation → Page → Page
show_conversations cs page = record page { conversations = cs; shown = cs }

abbrev pub id_of : Option ImageConversation → Option Text
id_of none = none
id_of (some c) = some c.id

-- `pickFallbackConversationId`
unfoldable pub pick_fallback_conversation_id : List ImageConversation → Option Text
pick_fallback_conversation_id cs =
    elim (find (λ c. any (λ turn. is_active turn.status) c.turns) cs) [
      | some c ↦ some c.id
      | none ↦ id_of (head cs)
    ]

abbrev pub selects : Option Text → Text → Bool
selects none id = false
selects (some s) id = s == id

-- `isHighResolution`
unfoldable pub is_high_resolution : Text → Bool
unfolding trim to_lower ◌==◌
is_high_resolution value = let s = map to_lower (trim value) in s == text "2k" || s == text "4k"

-- `clearComposerInputs`
unfoldable pub clear_composer_inputs : Page → Page
unfolding is_high_resolution
clear_composer_inputs page = record page {
  prompt = [];
  resolution =
      if not page.can_use_high_resolution && is_high_resolution page.resolution
      then []
      else page.resolution;
  reference_images = [];
  reply_target = none;
}

-- `handleCreateDraft`
unfoldable pub handle_create_draft : Page → Page
unfolding clear_composer_inputs
handle_create_draft page = clear_composer_inputs (record page { selected = none })

abbrev pub rename_item : Text → Text → Text → ImageConversation → ImageConversation
rename_item now id title item =
    if item.id == id then record item { title = title; updated_at = now } else item

module _ (host : Host) where
  -- `persistConversation`
  unfoldable pub persist_conversation : ImageConversation → Page → Page
  persist_conversation c page =
      emit (write (save c)) (show_conversations (put_conversation host c page.conversations) page)

  -- The list that `updateConversation` shows: the old entry goes by its id, whatever the new one's is.
  abbrev pub replace_conversation :
      Text → ImageConversation → List ImageConversation → List ImageConversation
  replace_conversation id next cs = sort_image_conversations host (next ∷ remove_conversation id cs)

  -- `updateConversation`. The updater is called only with a conversation that is there.
  unfoldable pub update_conversation : Text → (ImageConversation → ImageConversation) → Page → Page
  update_conversation id updater page = elim (find_conversation id page.conversations) [
    | none ↦ page
    | some current ↦
        emit (write (save (updater current)))
          (show_conversations (replace_conversation id (updater current) page.conversations) page)
  ]

  -- `handleRenameConversation`
  unfoldable pub handle_rename_conversation :
      List ImageConversation → Text → Text → Text → Page → Page
  handle_rename_conversation seen now id title page = emit (write (rename id title)) (
      show_conversations (sort_image_conversations host (map (rename_item now id title) seen)) page)

abbrev pub ids_to_cancel : Option ImageConversation → List Text
ids_to_cancel none = []
ids_to_cancel (some c) = collect_loading_task_ids c

-- `handleDeleteConversation`; `seen` is the state `conversations` of its closure.
unfoldable pub handle_delete_conversation : List ImageConversation → Text → Page → Page
unfolding collect_loading_task_ids pick_fallback_conversation_id clear_composer_inputs
handle_delete_conversation seen id page =
    let ids = ids_to_cancel (find_conversation id page.conversations) in
    let next = remove_conversation id seen in
    let deleted = show_conversations next page in
    let left =
      if selects page.selected id
      then clear_composer_inputs (record deleted { selected = pick_fallback_conversation_id next })
      else deleted in
    emit (write (delete id)) (cancel_silently ids left)

-- The `catch` of `handleDeleteConversation`: `stored` is what `listImageConversations` returns.
unfoldable pub deletion_failed : Text → List ImageConversation → Page → Page
deletion_failed message stored page = show_conversations stored (emit (toast message) page)

-- `handleClearHistory`, after `clearImageConversations` has succeeded; the ids were collected first.
unfoldable pub clear_history : List Text → Page → Page
unfolding clear_composer_inputs
clear_history ids page = emit (toast (text "已清空历史记录")) (
    cancel_silently ids
      (clear_composer_inputs (record (show_conversations [] page) { selected = none })))

-- `handleClearHistory`, to its `await`, with the ids that it goes on with
unfoldable pub handle_clear_history : Page → List Text × Page
unfolding collect_loading_task_ids
handle_clear_history page =
    (flat_map collect_loading_task_ids page.conversations, emit (write clear) page)

pub data TurnPart : Type 0 where
  prompt results : TurnPart

abbrev pub deleted_image : Text → StoredImage
deleted_image id = record {
  id = id;
  task_id = none;
  status = some ImageStatus.error;
  b64_json = none;
  url = none;
  revised_prompt = none;
  error = some (text "生成结果已删除");
}

abbrev pub stop_generating : TurnStatus → TurnStatus
stop_generating TurnStatus.generating = TurnStatus.error
stop_generating s = s

-- The turn without one of its parts; `none` when both are gone.
unfoldable pub delete_turn_part : TurnPart → ImageTurn → Option ImageTurn
delete_turn_part TurnPart.prompt turn =
    if turn.results_deleted then none else some (record turn { prompt = []; prompt_deleted = true })
delete_turn_part TurnPart.results turn =
    if turn.prompt_deleted
    then none
    else some (record turn {
      results_deleted = true;
      status = stop_generating turn.status;
      images = map (λ image. deleted_image image.id) turn.images;
    })

abbrev pub find_turn : Text → List ImageTurn → Option ImageTurn
find_turn id = find (λ turn. turn.id == id)

-- The ids to cancel; a turn that is not there has no images.
abbrev pub turn_ids_to_cancel : TurnPart → Option ImageTurn → List Text
turn_ids_to_cancel TurnPart.results (some turn) = collect_turn_loading_task_ids turn
turn_ids_to_cancel _ _ = []

abbrev pub turns_without : TurnPart → Text → List ImageTurn → List ImageTurn
turns_without part id =
    filter_map (λ turn. if turn.id == id then delete_turn_part part turn else some turn)

-- `handleDeleteTurnPart`
unfoldable pub handle_delete_turn_part :
    Host → List ImageConversation → Text → Text → Text → TurnPart → Page → Page
unfolding delete_turn_part collect_turn_loading_task_ids handle_delete_conversation
    persist_conversation
handle_delete_turn_part host seen now id turn_id part page =
    elim (find_conversation id page.conversations) [
      | none ↦ page
      | some c ↦
          let turns = turns_without part turn_id c.turns in
          let canceled =
            cancel_silently (turn_ids_to_cancel part (find_turn turn_id c.turns)) page in
          if is_empty turns
          then handle_delete_conversation seen id canceled
          else persist_conversation host (record c { turns = turns; updated_at = now }) canceled
    ]
