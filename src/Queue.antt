-- ===== src/Queue.antt =====
-- web/src/app/image/page.tsx: `runConversationQueue`, which submits the images of one turn as tasks
-- and polls them to their ends. A run is cut at its `await`s: `begin` is the code up to the first one,
-- and each further function is the code between two of them, on the page as it then is. The answers of
-- the server and the readings of the clock are arguments.
pub mod Frame
pub mod Agreement
pub mod Waiting
pub mod Failure
pub mod Polling
pub mod Schedule
pub mod Tasks
use gpt2api_image.Base.{
  join_lines, Text, text, ◌==◌, truthy, trim, show, length, Bool, true, false, not, ◌&&◌, ◌||◌,
  Option, none, some, List, [], ◌∷◌, ◌++◌, map, any, filter, filter_map, find, head, is_empty, Dict,
  lookup, insert, if◌then◌else◌,
}
use gpt2api_image.Base.Host.{Host}
use gpt2api_image.Conversation.{
  StoredImage, ImageStatus, ImageTurn, TurnStatus, ImageConversation, ConversationMode,
  ReplyContext, is_active, is_loading,
}
use gpt2api_image.Conversation.Ordering.{find_conversation}
use gpt2api_image.Task.{
  ImageTask, derive_turn_status, loading_task_id, map_image_tasks_by_lookup_id,
  task_data_to_stored_image, with_images,
}
use gpt2api_image.Page.{Page, Effect, emit, find_turn, run, toast, update_conversation}
use gpt2api_image.Turn.{
  task_key, apply_to_image, apply_to_turn, CreationFailure, failures_by_task_id, give_message,
  mark_turn_failures, start_image, start_turn, fail_loading, fail_turn, api_prompt, pending_keys,
  Creation, created_task, failure_of, first_message, failures_of, could_not_create,
  could_not_recreate,
}

-- What a run keeps in its closure.
pub record Run : Type 0 where
  pub conversation_id : Text
  pub turn : ImageTurn  -- `activeTurn`, as it was at the start

-- A turn that a run would take.
abbrev pub needs_run : ImageTurn → Bool
needs_run turn = is_active turn.status && any (λ image. is_loading image.status) turn.images

abbrev pub member : Text → List Text → Bool
member id = any (λ other. other == id)

-- The guards of `runConversationQueue`, and the id put among the active ones.
unfoldable pub begin : Text → Page → Option (Run × Page)
begin id page =
    if member id page.active then none else elim (find_conversation id page.conversations) [
      | none ↦ none
      | some snapshot ↦ elim (find needs_run snapshot.turns) [
        | none ↦ none
        | some turn ↦ some (
          record { conversation_id = id; turn = turn },
          record page { active = page.active ++ id ∷ [] },
        )
      ]
    ]

-- An updater of a conversation that changes the turn of the run.
abbrev pub on_turn : Text → Text → (ImageTurn → ImageTurn) → ImageConversation → ImageConversation
on_turn now turn_id f c = record c {
  updated_at = now;
  turns = map (λ turn. if turn.id == turn_id then f turn else turn) c.turns;
}

-- Why the submission throws before it asks the server: `broken` is the message of a reference image
-- that `dataUrlToFile` cannot decode.
unfoldable pub preparation_error : Run → Option Text → Option Text
preparation_error r (some broken) = some broken
preparation_error r none = elim r.turn.mode [
  | ConversationMode.generate ↦ none
  | ConversationMode.edit ↦
      if is_empty r.turn.reference_images then some (text "未找到可用于继续编辑的参考图") else none
]

-- What the answers to the submission end in: the error that is thrown when no task was created, and
-- the toast when some were.
unfoldable pub submission_error : List Creation → Option Text
submission_error answers =
    if not (is_empty (failures_of could_not_create answers))
      && is_empty (filter_map created_task answers)
    then some (first_message could_not_create (failures_of could_not_create answers))
    else none

unfoldable pub submission_toast : List Creation → Page → Page
unfolding show
submission_toast answers page =
    let failures = failures_of could_not_create answers in
    if is_empty failures || is_empty (filter_map created_task answers)
    then page
    else emit
        (toast
          (show (length failures) ++ (text " 个任务创建失败：" ++ first_message could_not_create failures)))
        page

-- `latestTurn`
abbrev pub latest_turn : Run → Page → Option ImageTurn
latest_turn r page = elim (find_conversation r.conversation_id page.conversations) [
  | none ↦ none
  | some c ↦ find_turn r.turn.id c.turns
]

-- `loadingTaskIds` of the loop; the loop ends when there are none.
unfoldable pub poll_ids : Run → Page → List Text
poll_ids r page = elim (latest_turn r page) [
  | none ↦ []
  | some turn ↦ filter_map loading_task_id turn.images
]

-- The keys that are asked for again, of `latestTurn` as it was before the answer.
unfoldable pub missing_keys : List Text → ImageTurn → List Text
missing_keys missing turn =
    filter (λ id. member id missing) (filter_map loading_task_id turn.images)

unfoldable pub resubmission_toast : List Creation → Page → Page
unfolding show
resubmission_toast answers page =
    let failures = failures_of could_not_recreate answers in
    if is_empty failures
    then page
    else emit
        (toast (
          show (length failures)
          ++ (text " 个任务重试失败：" ++ first_message could_not_recreate failures)))
        page

module _ (host : Host) (r : Run) where
  abbrev pub update_turn : Text → (ImageTurn → ImageTurn) → Page → Page
  update_turn now f page = update_conversation host r.conversation_id (on_turn now r.turn.id f) page

  -- The first update, before the server is asked.
  unfoldable pub start : Text → Page → Page
  unfolding update_conversation
  start now page = update_turn now start_turn page

  -- `applyTasks`, where the callers skip an empty list
  unfoldable pub apply_tasks : Text → List ImageTask → Page → Page
  unfolding update_conversation apply_to_turn map_image_tasks_by_lookup_id
  apply_tasks now [] page = page
  apply_tasks now (task ∷ tasks) page =
      update_turn now (apply_to_turn (map_image_tasks_by_lookup_id (task ∷ tasks))) page

  -- `markTaskCreationFailures`
  unfoldable pub mark_task_creation_failures : Text → List CreationFailure → Page → Page
  unfolding update_conversation mark_turn_failures failures_by_task_id
  mark_task_creation_failures now [] page = page
  mark_task_creation_failures now (f ∷ fs) page =
      update_turn now (mark_turn_failures (failures_by_task_id [] (f ∷ fs))) page

  -- The `catch`
  unfoldable pub fail : Text → Text → Page → Page
  unfolding update_conversation fail_turn
  fail now message page = emit (toast message) (update_turn now (fail_turn message) page)

abbrev run_next : List Text → List ImageConversation → List Effect
run_next active cs =
    map (λ c. run c.id) (filter (λ c. not (member c.id active) && any needs_run c.turns) cs)

-- The `finally`
unfoldable pub finish : Run → Page → Page
finish r page =
    let active = filter (λ id. not (id == r.conversation_id)) page.active in
    record page { active = active; effects = page.effects ++ run_next active page.conversations }

-- The effect that runs after each change of the conversations that are shown
unfoldable pub start_shown : Page → Page
start_shown page =
    let waiting =
      filter
        (λ c.
          not (member c.id page.active)
          && any (λ turn. not turn.results_deleted && needs_run turn) c.turns)
        page.shown in
    record page { effects = page.effects ++ map (λ c. run c.id) waiting }

-- What a run does between two awaits, with what it has been answered.
pub data Event : Type 0 where
  started : Text → Event
  answered : Text → List ImageTask → Event
  submitted : Text → List Creation → Event
  resubmitted : Text → List Creation → Event
  failed : Text → Text → Event

unfoldable pub perform : Host → Run → Event → Page → Page
unfolding start apply_tasks mark_task_creation_failures fail submission_toast resubmission_toast
perform host r (started now) page = start host r now page
perform host r (answered now tasks) page = apply_tasks host r now tasks page
perform host r (submitted now answers) page =
    submission_toast answers
      (mark_task_creation_failures host r now (failures_of could_not_create answers) page)
perform host r (resubmitted now answers) page =
    resubmission_toast answers
      (mark_task_creation_failures host r now (failures_of could_not_recreate answers) page)
perform host r (failed now message) page = fail host r now message page
