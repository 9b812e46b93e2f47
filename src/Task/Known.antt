-- ===== src/Task/Known.antt =====
-- The lookup table of `mapImageTasksByLookupId` holds the tasks of its list.
use gpt2api_image.Base.{
  Text, truthy, ◌≡◌, true, Bool-cases, inl, inr, Option, none, some, List, [], ◌∷◌, All, Dict,
  insert, AllEntries, insert-AllEntries,
}
use gpt2api_image.Task.{
  ImageTask, put_client_id, put_task, map_tasks_from, map_image_tasks_by_lookup_id,
}

-- A task of the server with an id
abbrev pub HasId : ImageTask → Type 0
HasId task = truthy task.id ≡ true

abbrev HaveIds : Dict ImageTask → Type 0
HaveIds = AllEntries (λ k task. HasId task)

put_client_id-HaveIds :
    (client : Option Text) (task : ImageTask) (m : Dict ImageTask)
    → HasId task
    → HaveIds m
    → HaveIds (put_client_id client task m)
unfolding put_client_id
put_client_id-HaveIds none task m known h = h
put_client_id-HaveIds (some id) task m known h = elim (Bool-cases (truthy id)) [
  | inl filled ↦ rw filled (insert-AllEntries (λ k task. HasId task) id task m known h)
  | inr bare ↦ rw bare h
]

map_tasks_from-HaveIds :
    (m : Dict ImageTask) (tasks : List ImageTask)
    → All HasId tasks
    → HaveIds m
    → HaveIds (map_tasks_from m tasks)
unfolding map_tasks_from put_task
map_tasks_from-HaveIds m [] known h = h
map_tasks_from-HaveIds m (task ∷ tasks) known h =
    map_tasks_from-HaveIds (put_task m task) tasks known.1 (
      put_client_id-HaveIds task.client_task_id task (insert task.id task m) known.0
        (insert-AllEntries (λ k task. HasId task) task.id task m known.0 h))

pub map_image_tasks-HaveIds :
    (tasks : List ImageTask)
    → All HasId tasks
    → AllEntries (λ k task. truthy task.id ≡ true) (map_image_tasks_by_lookup_id tasks)
unfolding map_image_tasks_by_lookup_id
map_image_tasks-HaveIds tasks known = map_tasks_from-HaveIds [] tasks known tt
