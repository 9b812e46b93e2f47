-- ===== src/Tests/Tasks.antt =====
-- web/src/app/image/page.tsx: tasks and the recovery at the two images of the sample turn.
use gpt2api_image.Base.{Text, text, Option, some, List, [], ◌∷◌, Dict}
use gpt2api_image.Task.{ImageTask}
use gpt2api_image.Recovery.{recover_conversation_history}
use gpt2api_image.Recovery.Consistency.{IsConsistent, recover-IsConsistent}
use gpt2api_image.Tests.Data.{both, finished_task, running_task}

abbrev tasks : List ImageTask
tasks = running_task ∷ finished_task ∷ []

abbrev fetch : List Text → Option (List ImageTask)
fetch ids = some tasks

recover-IsConsistent_example :
    let r = recover_conversation_history (text "6") (text "7") fetch both in
    IsConsistent (text "6") both r.0 × IsConsistent (text "7") r.0.items r.1
recover-IsConsistent_example = recover-IsConsistent (text "6") (text "7") fetch both

abbrev known : Dict ImageTask
known = (text "t1-0", finished_task) ∷ []
