-- ===== src/Task.antt =====
-- web/src/app/image/page.tsx: how the tasks that the server reports change the images of a turn.
pub mod Lookup
pub mod Known
pub mod Status
use gpt2api_image.Base.{
  ℕ, suc, Text, text, ◌==◌, truthy, truthy?, ◌or?◌, show, Bool, true, false, not, ◌&&◌, ◌||◌,
  Option, none, some, List, [], ◌∷◌, ◌++◌, map, length, filter, filter_map, flat_map, head, Dict,
  lookup, insert, ltb, if◌then◌else◌,
}
use gpt2api_image.Conversation.{
  StoredImage, ImageStatus, TurnStatus, ImageTurn, ImageConversation, ConversationMode, is_loading,
  is_failed, is_success,
}

-- web/src/lib/api.ts
pub data TaskStatus : Type 0 where
  queued running success error canceled : TaskStatus

pub record TaskDatum : Type 0 where
  pub b64_json : Option Text
  pub url : Option Text
  pub revised_prompt : Option Text

-- The fields that the client reads.
pub record ImageTask : Type 0 where
  pub id : Text
  pub client_task_id : Option Text
  pub status : TaskStatus
  pub items : Option (List TaskDatum)
  pub error : Option Text

abbrev pub no_image_data : Text
no_image_data = text "未返回图片数据"

-- `task.data?.[0]`
abbrev pub first_datum : Option (List TaskDatum) → Option TaskDatum
first_datum none = none
first_datum (some ds) = head ds

-- The branch of a successful task.
unfoldable pub finish_image : StoredImage → ImageTask → Option TaskDatum → StoredImage
finish_image image task none = record image {
  task_id = some task.id;
  status = some ImageStatus.error;
  error = some no_image_data;
}
finish_image image task (some first) =
    if not (truthy? first.b64_json) && not (truthy? first.url)
    then record image {
      task_id = some task.id;
      status = some ImageStatus.error;
      error = some no_image_data;
    }
    else record image {
      task_id = some task.id;
      status = some ImageStatus.success;
      b64_json = first.b64_json;
      url = first.url;
      revised_prompt = first.revised_prompt;
      error = none;
    }

fail_image : StoredImage → ImageTask → Text → StoredImage
fail_image image task message = record image {
  task_id = some task.id;
  status = some ImageStatus.error;
  error = some message;
}

-- `taskDataToStoredImage`
unfoldable pub task_data_to_stored_image : StoredImage → ImageTask → StoredImage
unfolding finish_image fail_image
task_data_to_stored_image image task = elim task.status [
  | TaskStatus.success ↦ finish_image image task (first_datum task.items)
  | TaskStatus.error ↦ fail_image image task (task.error or? text "生成失败")
  | TaskStatus.canceled ↦ fail_image image task (task.error or? text "已取消")
  | _ ↦ record image { task_id = some task.id; status = some ImageStatus.loading; error = none }
]

put_client_id : Option Text → ImageTask → Dict ImageTask → Dict ImageTask
put_client_id none task m = m
put_client_id (some id) task m = if truthy id then insert id task m else m

-- One round of `mapImageTasksByLookupId`.
unfoldable pub put_task : Dict ImageTask → ImageTask → Dict ImageTask
unfolding put_client_id
put_task m task = put_client_id task.client_task_id task (insert task.id task m)

unfoldable pub map_tasks_from : Dict ImageTask → List ImageTask → Dict ImageTask
unfolding put_task
map_tasks_from m [] = m
map_tasks_from m (task ∷ tasks) = map_tasks_from (put_task m task) tasks

-- `mapImageTasksByLookupId`
unfoldable pub map_image_tasks_by_lookup_id : List ImageTask → Dict ImageTask
unfolding map_tasks_from
map_image_tasks_by_lookup_id tasks = map_tasks_from [] tasks

abbrev pub count_images : (StoredImage → Bool) → List StoredImage → ℕ
count_images p images = length (filter p images)

abbrev pub failed_message : ℕ → Text
failed_message n = text "其中 " ++ (show n ++ text " 张未成功生成")

abbrev pub keep_queued : TurnStatus → TurnStatus
keep_queued TurnStatus.queued = TurnStatus.queued
keep_queued _ = TurnStatus.generating

-- `deriveTurnStatus`, of the two fields of a turn that it reads
unfoldable pub derive_turn_status : TurnStatus → List StoredImage → TurnStatus × Option Text
derive_turn_status status images =
    let loading_count = count_images (λ image. is_loading image.status) images in
    let failed_count = count_images (λ image. is_failed image.status) images in
    let success_count = count_images (λ image. is_success image.status) images in
    if ltb 0 loading_count
    then (keep_queued status, none)
    else if ltb 0 failed_count
    then (TurnStatus.error, some (failed_message failed_count))
    else if ltb 0 success_count
    then (TurnStatus.success, none)
    else (TurnStatus.queued, none)

-- `{ ...turn, ...derived, images }`
unfoldable pub with_images : TurnStatus → List StoredImage → ImageTurn → ImageTurn
with_images status images turn =
    let (derived, message) = derive_turn_status status images in
    record turn { status = derived; error = message; images = images }

-- The task of an image that waits for one.
abbrev pub loading_task_id : StoredImage → Option Text
loading_task_id image = elim image.task_id [
  | none ↦ none
  | some id ↦ if is_loading image.status && truthy id then some id else none
]

-- `collectTurnLoadingTaskIds`
unfoldable pub collect_turn_loading_task_ids : ImageTurn → List Text
collect_turn_loading_task_ids turn =
    if turn.results_deleted then [] else filter_map loading_task_id turn.images

-- `collectLoadingTaskIds`
unfoldable pub collect_loading_task_ids : ImageConversation → List Text
unfolding collect_turn_loading_task_ids
collect_loading_task_ids conversation = flat_map collect_turn_loading_task_ids conversation.turns
