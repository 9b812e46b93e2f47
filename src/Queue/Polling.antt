-- ===== src/Queue/Polling.antt =====
-- web/src/app/image/page.tsx, `runConversationQueue`: what is polled, what the answers make of the
-- turn, and when the loop ends.
use gpt2api_image.Base.{
  Text, truthy, truthy?, ◌≡◌, ◌≢◌, refl, some-eq, subst, ap₂, ◌∙◌, Bool, true, false, not, ◌||◌,
  Option, none, some, List, [], ◌∷◌, map, any, All, Dict, lookup, AllEntries, lookup-AllEntries,
  filter, filter_map, is_empty, inl, inr, Option-cases, Bool-cases, arith,
}
use gpt2api_image.Conversation.{StoredImage, ImageTurn, TurnStatus, is_loading, is_active}
use gpt2api_image.Task.{ImageTask, loading_task_id, with_images}
use gpt2api_image.Task.Status.{
  HasStatus, is_active-derive, is_pending, task_data_to_stored_image_lem,
}
use gpt2api_image.Page.{Page, delete_turn_part, deleted_image, TurnPart}
use gpt2api_image.Page.Deletion.{delete_results-loads, loads}
use gpt2api_image.Queue.{Run, latest_turn, poll_ids}
use gpt2api_image.Turn.{
  give_message, mark_turn_failures, apply_to_image, apply_to_turn, pending_keys, task_key,
  start_turn, start_image,
}

-- The id under which the task of an image is asked for is not empty.
abbrev pub HasKey : StoredImage → Type 0
HasKey image = truthy (task_key image) ≡ true

keys-start :
    (images : List StoredImage)
    → All HasKey images
    → filter_map loading_task_id (map start_image images)
      ≡ map task_key (filter (λ image. is_loading image.status) images)
keys-start [] h = refl
keys-start (x ∷ xs) h = ground (arith, keys-start xs h.1)

-- Once a run has started, it polls exactly the tasks that it asks the server to create, in the order
-- of the images.
pub start-pending_keys :
    (turn : ImageTurn)
    → All HasKey turn.images
    → filter_map loading_task_id (start_turn turn).images ≡ pending_keys turn
start-pending_keys turn h = keys-start turn.images h

-- An image that loads has a task to ask for.
abbrev pub HasTask : StoredImage → Type 0
HasTask image = is_loading image.status ≡ true → truthy? image.task_id ≡ true

images-poll :
    (images : List StoredImage)
    → All HasTask images
    → is_empty (filter_map loading_task_id images)
      ≡ not (any (λ image. is_loading image.status) images)
images-poll [] h = refl
images-poll (x ∷ xs) h = ground (arith, images-poll xs h.1, h.0)

-- The loop of a run, which ends when it has nothing to ask for, ends exactly when no image of its turn
-- loads, if those that load have a task; and when the turn is gone.
pub poll_ids-loads :
    (r : Run) (page : Page)
    → ((turn : ImageTurn)
        → latest_turn r page ≡ some turn
        → All HasTask turn.images
        → is_empty (poll_ids r page) ≡ not (loads turn))
      × (latest_turn r page ≡ none → poll_ids r page ≡ [])
unfolding poll_ids
poll_ids-loads r page = (
  (λ turn found h. rw (found, poll_ids) (images-poll turn.images h)),
  (λ missing. rw (missing, poll_ids) refl),
)

start_image-HasTask : (x : StoredImage) → HasKey x → HasTask (start_image x)
start_image-HasTask x h = ground arith

images_start-HasTask : (xs : List StoredImage) → All HasKey xs → All HasTask (map start_image xs)
images_start-HasTask [] h = tt
images_start-HasTask (x ∷ xs) h = (start_image-HasTask x h.0, images_start-HasTask xs h.1)

apply_to_image-HasTask :
    (tasks : Dict ImageTask) (x : StoredImage)
    → AllEntries (λ k task. truthy task.id ≡ true) tasks
    → HasTask x
    → HasTask (apply_to_image tasks x)
unfolding apply_to_image
apply_to_image-HasTask tasks x known h = elim (Option-cases (lookup (task_key x) tasks)) [
  | inl unknown ↦ rw (unknown, HasTask, apply_to_image) h
  | inr (t, found) ↦
      rw (found, HasTask, apply_to_image)
        (λ _.
          rw (task_data_to_stored_image_lem (record x { task_id = some (task_key x) }) t).1
            (lookup-AllEntries (λ k task. truthy task.id ≡ true) (task_key x) tasks known found))
]

images_apply-HasTask :
    (tasks : Dict ImageTask) (xs : List StoredImage)
    → AllEntries (λ k task. truthy task.id ≡ true) tasks
    → All HasTask xs
    → All HasTask (map (apply_to_image tasks) xs)
images_apply-HasTask tasks [] known h = tt
images_apply-HasTask tasks (x ∷ xs) known h =
    (apply_to_image-HasTask tasks x known h.0, images_apply-HasTask tasks xs known h.1)

give_message-HasTask :
    (message : Option Text) (x : StoredImage) → HasTask x → HasTask (give_message message x)
give_message-HasTask none x h = h
give_message-HasTask (some message) x h = ground (arith, h)

images_mark-HasTask :
    (messages : Dict Text) (xs : List StoredImage)
    → All HasTask xs
    → All HasTask (map (λ image. give_message (lookup (task_key image) messages) image) xs)
images_mark-HasTask messages [] h = tt
images_mark-HasTask messages (x ∷ xs) h =
    (give_message-HasTask (lookup (task_key x) messages) x h.0, images_mark-HasTask messages xs h.1)

-- The start gives a task to ask for to each loading image that has a key; an answer whose tasks have ids, and
-- the marks of the tasks that could not be created, take none away.
pub turn-HasTask :
    (tasks : Dict ImageTask) (messages : Dict Text) (turn : ImageTurn)
    → AllEntries (λ k task. truthy task.id ≡ true) tasks
    → (All HasKey turn.images → All HasTask (start_turn turn).images)
      × (All HasTask turn.images
          → All HasTask (apply_to_turn tasks turn).images
            × All HasTask (mark_turn_failures messages turn).images)
unfolding apply_to_turn mark_turn_failures with_images
turn-HasTask tasks messages turn known = (
  images_start-HasTask turn.images,
  (λ h.
      (images_apply-HasTask tasks turn.images known h, images_mark-HasTask messages turn.images h)),
)

-- An image waits for the task that has news of it, or, without news, as it did before.
abbrev waits_after : Option ImageTask → StoredImage → Bool
waits_after none image = is_loading image.status
waits_after (some task) image = is_pending task.status

abbrev pub waits : Dict ImageTask → StoredImage → Bool
waits tasks image = waits_after (lookup (task_key image) tasks) image

apply_to_image-waits :
    (tasks : Dict ImageTask) (x : StoredImage)
    → is_loading (apply_to_image tasks x).status ≡ waits tasks x
unfolding apply_to_image
apply_to_image-waits tasks x = elim (Option-cases (lookup (task_key x) tasks)) [
  | inl unknown ↦ rw (unknown, apply_to_image) refl
  | inr (t, known) ↦
      rw (known, apply_to_image)
        (task_data_to_stored_image_lem (record x { task_id = some (task_key x) }) t).2
]

apply_to_image-HasStatus :
    (tasks : Dict ImageTask) (x : StoredImage) → HasStatus x → HasStatus (apply_to_image tasks x)
unfolding apply_to_image
apply_to_image-HasStatus tasks x h = elim (Option-cases (lookup (task_key x) tasks)) [
  | inl unknown ↦ rw (unknown, HasStatus, apply_to_image) h
  | inr (t, known) ↦
      rw (known, HasStatus, apply_to_image)
        (task_data_to_stored_image_lem (record x { task_id = some (task_key x) }) t).5
]

images-HasStatus :
    (tasks : Dict ImageTask) (xs : List StoredImage)
    → All HasStatus xs
    → All HasStatus (map (apply_to_image tasks) xs)
images-HasStatus tasks [] h = tt
images-HasStatus tasks (x ∷ xs) h =
    (apply_to_image-HasStatus tasks x h.0, images-HasStatus tasks xs h.1)

images-waits :
    (tasks : Dict ImageTask) (xs : List StoredImage)
    → any (λ image. is_loading image.status) (map (apply_to_image tasks) xs) ≡ any (waits tasks) xs
images-waits tasks [] = refl
images-waits tasks (x ∷ xs) =
    ap₂ (λ a b. a || b) (apply_to_image-waits tasks x) (images-waits tasks xs)

map-nonempty : (f : StoredImage → StoredImage) (xs : List StoredImage) → xs ≢ [] → map f xs ≢ []
map-nonempty f [] n e = n refl
map-nonempty f (x ∷ xs) n e = absurd (ground (arith, e))

-- A turn that has images, all with a status, loads after an answer exactly if the task of one of its images is
-- queued or running, or an image of which there is no news loaded; and the turn is at work exactly then.
pub apply_to_turn-waits :
    (tasks : Dict ImageTask) (turn : ImageTurn)
    → All HasStatus turn.images
    → turn.images ≢ []
    → let t = apply_to_turn tasks turn in
      (loads t ≡ any (waits tasks) turn.images)
      × (is_active t.status ≡ any (waits tasks) turn.images)
unfolding apply_to_turn with_images
apply_to_turn-waits tasks turn h n = (
  images-waits tasks turn.images,
  is_active-derive TurnStatus.generating (map (apply_to_image tasks) turn.images)
        (images-HasStatus tasks turn.images h) (map-nonempty (apply_to_image tasks) turn.images n)
      ∙ images-waits tasks turn.images,
)

abbrev pub is_pending? : Option ImageTask → Bool
is_pending? none = false
is_pending? (some task) = is_pending task.status

waits-deleted_images :
    (tasks : Dict ImageTask) (xs : List StoredImage)
    → any (waits tasks) (map (λ image. deleted_image image.id) xs)
      ≡ any (λ image. is_pending? (lookup image.id tasks)) xs
waits-deleted_images tasks [] = refl
waits-deleted_images tasks (x ∷ xs) =
    ap₂ (λ a b. a || b)
      (elim (Option-cases (lookup x.id tasks)) [
        | inl unknown ↦ rw unknown refl
        | inr (t, known) ↦ rw known refl
      ])
      (waits-deleted_images tasks xs)

deleted-loads :
    (tasks : Dict ImageTask) (x y : ImageTurn)
    → delete_turn_part TurnPart.results x ≡ some y
    → (y.results_deleted ≡ true)
      × (any (waits tasks) y.images ≡ any (λ image. is_pending? (lookup image.id tasks)) x.images)
unfolding delete_turn_part
deleted-loads tasks x y = elim (Bool-cases x.prompt_deleted) [
  | inl gone ↦ rw gone (λ e. absurd (ground (arith, e)))
  | inr kept ↦ rw kept (λ e.
      subst
        (λ t.
          (t.results_deleted ≡ true)
          × (any (waits tasks) t.images
              ≡ any (λ image. is_pending? (lookup image.id tasks)) x.images))
        (some-eq e) (refl, waits-deleted_images tasks x.images))
]

-- An answer that comes after the results of the turn were deleted is applied to it all the same: the
-- turn, which stays marked as deleted and loaded nothing, loads again exactly if a task known by the
-- id of one of its images is queued or running.
pub deleted_results-wait :
    (tasks : Dict ImageTask) (x y : ImageTurn)
    → delete_turn_part TurnPart.results x ≡ some y
    → (loads y ≡ false)
      × ((apply_to_turn tasks y).results_deleted ≡ true)
      × (loads (apply_to_turn tasks y)
          ≡ any (λ image. is_pending? (lookup image.id tasks)) x.images)
unfolding apply_to_turn with_images
deleted_results-wait tasks x y e = (
  delete_results-loads x y e,
  (deleted-loads tasks x y e).0,
  images-waits tasks y.images ∙ (deleted-loads tasks x y e).1,
)
