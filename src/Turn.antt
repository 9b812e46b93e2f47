-- ===== src/Turn.antt =====
-- web/src/app/image/page.tsx, `runConversationQueue`: what a run makes of its turn, and what it asks the
-- server for.
use gpt2api_image.Base.{
  join_lines, Text, text, truthy, trim, not, ◌||◌, Option, none, some, List, [], ◌∷◌, ◌++◌, map,
  filter, filter_map, is_empty, Dict, lookup, insert, if◌then◌else◌,
}
use gpt2api_image.Conversation.{StoredImage, ImageStatus, ImageTurn, TurnStatus, is_loading}
use gpt2api_image.Task.{ImageTask, task_data_to_stored_image, with_images}

-- `image.taskId || image.id`
abbrev pub task_key : StoredImage → Text
task_key image = elim image.task_id [
  | none ↦ image.id
  | some id ↦ if truthy id then id else image.id
]

-- A task's news of an image, in `applyTasks`.
unfoldable pub apply_to_image : Dict ImageTask → StoredImage → StoredImage
unfolding task_data_to_stored_image lookup
apply_to_image tasks image = elim (lookup (task_key image) tasks) [
  | none ↦ image
  | some task ↦ task_data_to_stored_image (record image { task_id = some (task_key image) }) task
]

unfoldable pub apply_to_turn : Dict ImageTask → ImageTurn → ImageTurn
unfolding with_images apply_to_image
apply_to_turn tasks turn =
    with_images TurnStatus.generating (map (apply_to_image tasks) turn.images) turn

-- A task that could not be created: its id and the message.
pub record CreationFailure : Type 0 where
  pub task_id : Text
  pub message : Text

-- `new Map(failures.map(...))`: a later entry of the same key wins.
unfoldable pub failures_by_task_id : Dict Text → List CreationFailure → Dict Text
unfolding insert
failures_by_task_id m [] = m
failures_by_task_id m (f ∷ fs) = failures_by_task_id (insert f.task_id f.message m) fs

abbrev pub give_message : Option Text → StoredImage → StoredImage
give_message none image = image
give_message (some message) image =
    if not (truthy message) || not (is_loading image.status) then image else record image {
      task_id = some (task_key image);
      status = some ImageStatus.error;
      error = some message;
    }

unfoldable pub mark_turn_failures : Dict Text → ImageTurn → ImageTurn
unfolding with_images lookup
mark_turn_failures messages turn =
    with_images turn.status
      (map (λ image. give_message (lookup (task_key image) messages) image) turn.images) turn

abbrev pub start_image : StoredImage → StoredImage
start_image image =
    if is_loading image.status then record image { task_id = some (task_key image) } else image

-- The first update of a run.
abbrev pub start_turn : ImageTurn → ImageTurn
start_turn turn = record turn {
  status = TurnStatus.generating;
  error = none;
  images = map start_image turn.images;
}

abbrev pub fail_loading : Text → StoredImage → StoredImage
fail_loading message image =
    if is_loading image.status
    then record image { status = some ImageStatus.error; error = some message }
    else image

-- The update of the `catch`.
unfoldable pub fail_turn : Text → ImageTurn → ImageTurn
fail_turn message turn = record turn {
  status = TurnStatus.error;
  error = some message;
  images = map (fail_loading message) turn.images;
}

abbrev line_of : Text → Text → List Text
line_of label body = if is_empty (trim body) then [] else (label ++ trim body) ∷ []

-- `apiPrompt`
unfoldable pub api_prompt : ImageTurn → Text
unfolding trim
api_prompt turn = elim turn.reply_context [
  | none ↦ turn.prompt
  | some context ↦ join_lines (
      line_of (text "[上一轮我的请求] ") context.source_prompt
      ++ (line_of (text "[你上一轮的反问] ") context.ai_message ++ (text "[我的回答] " ++ turn.prompt) ∷ []))
]

-- The ids of the tasks that are asked for: those of `pendingImages`
abbrev pub pending_keys : ImageTurn → List Text
pending_keys turn = map task_key (filter (λ image. is_loading image.status) turn.images)

-- What the creation of a task comes to.
pub data Creation : Type 0 where
  created : ImageTask → Creation
  refused : Text → Text → Creation

abbrev pub created_task : Creation → Option ImageTask
created_task (created task) = some task
created_task (refused id message) = none

-- An empty message gives way to the fallback.
abbrev pub failure_of : Text → Creation → Option CreationFailure
failure_of fallback (created task) = none
failure_of fallback (refused id message) =
    some (record { task_id = id; message = if truthy message then message else fallback })

abbrev pub first_message : Text → List CreationFailure → Text
first_message fallback [] = fallback
first_message fallback (f ∷ fs) = if truthy f.message then f.message else fallback

abbrev pub failures_of : Text → List Creation → List CreationFailure
failures_of fallback = filter_map (failure_of fallback)

abbrev pub could_not_create : Text
could_not_create = text "创建图片任务失败"

abbrev pub could_not_recreate : Text
could_not_recreate = text "重新创建图片任务失败"
