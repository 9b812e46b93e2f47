-- ===== src/Recovery/Synced.antt =====
-- What the recovery guarantees once it has asked the server for the tasks.
use gpt2api_image.Base.{
  Text, truthy, not, ◌||◌, if◌then◌else◌, ◌≡◌, true, false, Option, none, some, List, All, Dict,
  lookup, AllEntries,
}
use gpt2api_image.Conversation.{StoredImage, ImageTurn, ImageConversation, is_loading, is_active}
use gpt2api_image.Task.{task_data_to_stored_image, ImageTask}
use gpt2api_image.Task.Known.{HasId}
use gpt2api_image.Recovery.Resume.{IsSettled, IsWaiting}

-- A turn can go on: every loading image has a task to ask for, and if the turn is at work and its images all
-- have a status, one of them loads.
abbrev pub CanGoOn : ImageTurn → Type 0
CanGoOn turn = All IsWaiting turn.images × IsSettled turn

abbrev EachTurn : (ImageTurn → Type 0) → List ImageConversation → Type 0
EachTurn P = All (λ c. All P c.turns)

-- A turn that is not at work leaves no image loading without a task to ask for.
abbrev pub IsIdleWaiting : ImageTurn → Type 0
IsIdleWaiting turn = is_active turn.status ≡ false → All IsWaiting turn.images

module _ (tasks : Dict ImageTask) (known : AllEntries (λ k task. truthy task.id ≡ true) tasks) where
  -- What becomes of an image that has a task id, or none
  abbrev synced_as : StoredImage → Option Text → Option StoredImage
  synced_as x o = elim o [
    | none ↦ none
    | some id ↦
        if not (is_loading x.status) || not (truthy id) then none else elim (lookup id tasks) [
          | none ↦ none
          | some task ↦ some (task_data_to_stored_image x task)
        ]
  ]

-- The tasks that the server answers with have ids.
abbrev pub IsServed : (List Text → Option (List ImageTask)) → Type 0
IsServed fetch =
    (ids : List Text) (tasks : List ImageTask) → fetch ids ≡ some tasks → All HasId tasks
