-- ===== src/Recovery.antt =====
-- web/src/app/image/page.tsx: what happens to the stored conversations when the page is opened.
-- A pass over the conversations reads the clock once.
pub mod Changes
pub mod Resume
pub mod Consistency
pub mod Progress
pub mod Synced
use gpt2api_image.Base.{
  dedupe, Text, text, ◌==◌, truthy, truthy?, Bool, true, false, not, ◌&&◌, ◌||◌, Option, none, some,
  List, [], ◌∷◌, ◌++◌, map, any, flat_map, is_empty, Dict, lookup, if◌then◌else◌,
}
use gpt2api_image.Conversation.{
  StoredImage, ImageStatus, ImageTurn, TurnStatus, ImageConversation, is_loading, is_active,
}
use gpt2api_image.Task.{
  ImageTask, task_data_to_stored_image, map_image_tasks_by_lookup_id, derive_turn_status,
  with_images, collect_turn_loading_task_ids,
}

-- A callback of `map` that returns its argument when it has nothing to change: `none` stands for the
-- same object, which is what the source tests by `!==`.
module _ {A : Type 0} (f : A → Option A) where
  abbrev changed : Option A → Bool
  changed none = false
  changed (some _) = true

  abbrev pub or_same : A → Option A → A
  or_same a none = a
  or_same a (some b) = b

  abbrev pub any_changed : List A → Bool
  any_changed = any (λ a. changed (f a))

  abbrev pub map_changed : List A → List A
  map_changed = map (λ a. or_same a (f a))

-- The images of `syncConversationImageTasks`.
unfoldable pub sync_image : Dict ImageTask → StoredImage → Option StoredImage
unfolding task_data_to_stored_image
sync_image tasks image = elim image.task_id [
  | none ↦ none
  | some id ↦
      if not (is_loading image.status) || not (truthy id) then none else elim (lookup id tasks) [
        | none ↦ none
        | some task ↦ some (task_data_to_stored_image image task)
      ]
]

unfoldable pub sync_turn : Dict ImageTask → ImageTurn → Option ImageTurn
unfolding sync_image with_images
sync_turn tasks turn =
    if any_changed (sync_image tasks) turn.images
    then some (with_images turn.status (map_changed (sync_image tasks) turn.images) turn)
    else none

unfoldable pub sync_conversation :
    Text → Dict ImageTask → ImageConversation → Option ImageConversation
unfolding sync_turn
sync_conversation now tasks c =
    if any_changed (sync_turn tasks) c.turns
    then some (record c { turns = map_changed (sync_turn tasks) c.turns; updated_at = now })
    else none

-- The conversations to show, and those that were handed to `saveImageConversations`, if any.
pub record Outcome : Type 0 where
  pub items : List ImageConversation
  pub saved : Option (List ImageConversation)

unfoldable pub apply_task_list : Text → List ImageTask → List ImageConversation → Outcome
unfolding sync_conversation
apply_task_list now tasks items =
    let f = sync_conversation now (map_image_tasks_by_lookup_id tasks) in
    let normalized = map_changed f items in
    record { items = normalized; saved = if any_changed f items then some normalized else none }

-- The ids that `syncConversationImageTasks` asks for.
unfoldable pub loading_ids : List ImageConversation → List Text
unfolding collect_turn_loading_task_ids
loading_ids items = dedupe (flat_map (λ c. flat_map collect_turn_loading_task_ids c.turns) items)

-- What is done with the server's answer; `none` is a failed request.
unfoldable pub apply_answer : Text → Option (List ImageTask) → List ImageConversation → Outcome
unfolding apply_task_list
apply_answer now none items = record { items = items; saved = none }
apply_answer now (some tasks) items = apply_task_list now tasks items

-- `syncConversationImageTasks`; `fetch` is the server's answer to the ids.
unfoldable pub sync_conversation_image_tasks :
    Text → (List Text → Option (List ImageTask)) → List ImageConversation → Outcome
unfolding apply_answer loading_ids
sync_conversation_image_tasks now fetch items =
    let ids = loading_ids items in
    if is_empty ids
    then record { items = items; saved = none }
    else apply_answer now (fetch ids) items

abbrev pub interrupted : Text
interrupted = text "页面刷新或任务中断，未找到可恢复的任务 ID"

-- The images of `recoverConversationHistory`.
unfoldable pub recover_image : StoredImage → Option StoredImage
recover_image image =
    if not (is_loading image.status) || truthy? image.task_id
    then none
    else some (record image { status = some ImageStatus.error; error = some interrupted })

abbrev same_status : TurnStatus → TurnStatus → Bool
same_status TurnStatus.queued TurnStatus.queued = true
same_status TurnStatus.generating TurnStatus.generating = true
same_status TurnStatus.success TurnStatus.success = true
same_status TurnStatus.error TurnStatus.error = true
same_status _ _ = false

abbrev same_text : Option Text → Option Text → Bool
same_text none none = true
same_text (some s) (some t) = s == t
same_text _ _ = false

unfoldable pub recover_turn : ImageTurn → Option ImageTurn
unfolding recover_image with_images derive_turn_status
recover_turn turn =
    if not (is_active turn.status)
    then none
    else let images = map_changed recover_image turn.images in
      let derived = derive_turn_status turn.status images in
      if not (any_changed recover_image turn.images)
        && same_status derived.0 turn.status
        && same_text derived.1 turn.error
      then none
      else some (with_images turn.status images turn)

unfoldable pub recover_conversation : Text → ImageConversation → Option ImageConversation
unfolding recover_turn
recover_conversation now c =
    if any_changed recover_turn c.turns
    then some (record c { turns = map_changed recover_turn c.turns; updated_at = now })
    else none

-- `recoverConversationHistory`, with both outcomes: its own, and that of the request that follows.
unfoldable pub recover_conversation_history :
    Text → Text → (List Text → Option (List ImageTask)) → List ImageConversation → Outcome × Outcome
unfolding recover_conversation sync_conversation_image_tasks
recover_conversation_history now later fetch items =
    let f = recover_conversation now in
    let normalized = map_changed f items in
    (
      record { items = normalized; saved = if any_changed f items then some normalized else none },
      sync_conversation_image_tasks later fetch normalized,
    )
