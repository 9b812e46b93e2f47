-- ===== src/Task/Lookup.antt =====
-- The lookup table of `mapImageTasksByLookupId` against a search of the list of tasks.
use gpt2api_image.Base.{
  Text, ◌==◌, truthy, ◌≡◌, refl, Bool, false, ◌&&◌, ◌||◌, Option, none, some, List, [], ◌∷◌, Dict,
  lookup, lookup-insert, insert, if◌then◌else◌, arith,
}
use gpt2api_image.Task.{
  ImageTask, put_client_id, put_task, map_tasks_from, map_image_tasks_by_lookup_id,
}

abbrev has_client_id : Option Text → Text → Bool
has_client_id none k = false
has_client_id (some id) k = truthy id && id == k

-- A task answers to its own id and to a client id that is not empty.
abbrev pub answers_to : Text → ImageTask → Bool
answers_to k task = task.id == k || has_client_id task.client_task_id k

abbrev or_else {ℓ} : {A : Type ℓ} → Option A → Option A → Option A
or_else (some a) b = some a
or_else none b = b

abbrev pub find_last {ℓ} : {A : Type ℓ} → (A → Bool) → List A → Option A
find_last p [] = none
find_last p (x ∷ xs) = or_else (find_last p xs) (if p x then some x else none)

lookup-put_client_id :
    (k : Text) (client : Option Text) (task : ImageTask) (m : Dict ImageTask)
    → lookup k (put_client_id client task m)
      ≡ (if has_client_id client k then some task else lookup k m)
unfolding put_client_id
lookup-put_client_id k none task m = refl
lookup-put_client_id k (some id) task m = ground (arith, lookup-insert id k task m)

lookup-put_task :
    (k : Text) (m : Dict ImageTask) (task : ImageTask)
    → lookup k (put_task m task) ≡ (if answers_to k task then some task else lookup k m)
unfolding put_task
lookup-put_task k m task = ground (
  arith,
  lookup-insert task.id k task m,
  lookup-put_client_id k task.client_task_id task (insert task.id task m),
)

lookup-map_tasks_from :
    (k : Text) (m : Dict ImageTask) (tasks : List ImageTask)
    → lookup k (map_tasks_from m tasks) ≡ or_else (find_last (answers_to k) tasks) (lookup k m)
unfolding map_tasks_from
lookup-map_tasks_from k m [] = refl
lookup-map_tasks_from k m (task ∷ tasks) =
    ground (arith, lookup-map_tasks_from k (put_task m task) tasks, lookup-put_task k m task)

-- The table gives, for every key, the last task of the list that answers to it.
pub lookup-map_image_tasks :
    (k : Text) (tasks : List ImageTask)
    → lookup k (map_image_tasks_by_lookup_id tasks) ≡ find_last (answers_to k) tasks
unfolding map_image_tasks_by_lookup_id lookup
lookup-map_image_tasks k tasks = ground (arith, lookup-map_tasks_from k [] tasks)
