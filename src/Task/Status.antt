-- ===== src/Task/Status.antt =====
-- What a task makes of an image, and what the images of a turn make of its status.
use gpt2api_image.Base.{
  truthy?, ◌≡◌, ◌≢◌, refl, Bool, true, false, ◌||◌, none, some, List, [], ◌∷◌, any, All, ltb,
  if◌then◌else◌, arith,
}
use gpt2api_image.Conversation.{
  StoredImage, TurnStatus, is_loading, is_failed, is_success, is_active,
}
use gpt2api_image.Task.{
  ImageTask, TaskStatus, task_data_to_stored_image, count_images, derive_turn_status, keep_queued,
  failed_message,
}

abbrev pub is_pending : TaskStatus → Bool
is_pending TaskStatus.queued = true
is_pending TaskStatus.running = true
is_pending _ = false

abbrev pub has_source : StoredImage → Bool
has_source image = truthy? image.b64_json || truthy? image.url

-- The image keeps its id and takes the task's; it goes on loading exactly while the task is queued
-- or running; it succeeds only with a source to show, and fails only with a message.
pub task_data_to_stored_image_lem :
    (image : StoredImage) (task : ImageTask)
    → let r = task_data_to_stored_image image task in
      (r.id ≡ image.id)
      × (r.task_id ≡ some task.id)
      × (is_loading r.status ≡ is_pending task.status)
      × (is_success r.status ≡ true → has_source r ≡ true)
      × (is_failed r.status ≡ true → truthy? r.error ≡ true)
      × (r.status ≢ none)
unfolding task_data_to_stored_image
task_data_to_stored_image_lem image task = ground arith

ltb-count_images :
    (p : StoredImage → Bool) (images : List StoredImage)
    → ltb 0 (count_images p images) ≡ any p images
ltb-count_images p [] = refl
ltb-count_images p (image ∷ images) = ground (arith, ltb-count_images p images)

-- Counting is only a way to ask whether there is such an image.
pub derive_turn_status_lem :
    (status : TurnStatus) (images : List StoredImage)
    → derive_turn_status status images ≡ (
        if any (λ image. is_loading image.status) images
        then (keep_queued status, none)
        else if any (λ image. is_failed image.status) images
        then (
          TurnStatus.error,
          some (failed_message (count_images (λ image. is_failed image.status) images)),
        )
        else if any (λ image. is_success image.status) images
        then (TurnStatus.success, none)
        else (TurnStatus.queued, none))
unfolding derive_turn_status
derive_turn_status_lem status images =
    rw (ltb-count_images (λ image. is_loading image.status) images) (
      rw (ltb-count_images (λ image. is_failed image.status) images)
        (rw (ltb-count_images (λ image. is_success image.status) images)))

abbrev pub HasStatus : StoredImage → Type 0
HasStatus image = image.status ≢ none

status_cases :
    (images : List StoredImage)
    → All HasStatus images
    → images ≢ []
    → (any (λ image. is_loading image.status) images
        || any (λ image. is_failed image.status) images
        || any (λ image. is_success image.status) images)
      ≡ true
status_cases [] h n = absurd (n refl)
status_cases (image ∷ images) h n = ground arith

-- With a status on every image the turn is at work exactly while one of them loads.
pub is_active-derive :
    (status : TurnStatus) (images : List StoredImage)
    → All HasStatus images
    → images ≢ []
    → is_active (derive_turn_status status images).0 ≡ any (λ image. is_loading image.status) images
is_active-derive status images h n =
    rw (derive_turn_status_lem status images) (ground (arith, status_cases images h n))
