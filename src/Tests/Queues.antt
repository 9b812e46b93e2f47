-- ===== src/Tests/Queues.antt =====
-- web/src/app/image/page.tsx, `runConversationQueue`: a run of the sample turn.
use gpt2api_image.Base.{
  All, List, subst, some-eq, none, text, ◌==◌, ◌≡◌, ◌≢◌, refl, not, true, false, some, [], ◌∷◌,
  ◌&&◌, Dict, any, lookup, is_empty,
}
use gpt2api_image.Conversation.{ImageConversation, ImageTurn, TurnStatus, is_active}
use gpt2api_image.Conversation.Ordering.{find_conversation, sort_image_conversations}
use gpt2api_image.Task.{ImageTask, map_image_tasks_by_lookup_id}
use gpt2api_image.Page.{Page, TurnPart, delete_turn_part, deleted_image}
use gpt2api_image.Page.Deletion.{loads}
use gpt2api_image.Queue.Agreement.{perform-IsSynced}
use gpt2api_image.Queue.Waiting.{StartsWaiting, run-StartsWaiting}
use gpt2api_image.Page.Agreement.{IsSynced}
use gpt2api_image.Queue.{
  needs_run, start_shown, finish, latest_turn, poll_ids, Run, begin, Event, started, answered,
  resubmitted, perform,
}
use gpt2api_image.Turn.{
  failures_by_task_id, mark_turn_failures, refused, start_turn, apply_to_turn, fail_turn,
}
use gpt2api_image.Queue.Schedule.{
  IsExclusive, Reaches, World, begins, here, Reaches-IsExclusive, then_step,
}
use gpt2api_image.Queue.Failure.{IsFailedWith, Pointwise, fail_turn-IsFailedWith}
use gpt2api_image.Queue.Frame.{IsFramed, IsToasted, perform-IsFramed, perform_missing}
use gpt2api_image.Queue.Polling.{
  apply_to_turn-waits, deleted_results-wait, is_pending?, HasTask, poll_ids-loads, waits,
}
use gpt2api_image.Queue.Tasks.{IsKeyed, TurnHas, perform_all, perform_all-HasTask}
use gpt2api_image.Tests.Data.{
  blank, both, noon, cats-IsPast, cat_images, cat_turn, finished_task, home, home-IsOrderly,
  plain_host, running_task,
}

abbrev cat_run : Run
cat_run = record { conversation_id = text "c1"; turn = cat_turn }

abbrev empty_home : Page
empty_home = record home { conversations = []; shown = [] }

perform_missing_example :
    IsToasted empty_home
      (perform plain_host cat_run (answered (text "6") (finished_task ∷ [])) empty_home)
perform_missing_example =
    perform_missing plain_host cat_run (answered (text "6") (finished_task ∷ [])) empty_home refl

blank_shown : find_conversation (text "c2") both ≡ some blank
unfolding ◌==◌
blank_shown = refl

perform-IsFramed_example :
    (d : ImageConversation) × (find_conversation
        (text "c2")
        (perform plain_host cat_run (answered (text "6") (finished_task ∷ [])) home).conversations
      ≡ some d)
    × (IsFramed plain_host cat_run blank d)
    × (text "c1" ≢ text "c2" → d ≡ blank)
perform-IsFramed_example =
    perform-IsFramed plain_host cat_run (answered (text "6") (finished_task ∷ [])) home blank
      (text "c2") home-IsOrderly blank_shown

fail_turn-IsFailedWith_example :
    let t = fail_turn (text "no answer") cat_turn in
    (t.status ≡ TurnStatus.error)
    × (t.error ≡ some (text "no answer"))
    × (loads t ≡ false)
    × Pointwise (IsFailedWith (text "no answer")) cat_images t.images
fail_turn-IsFailedWith_example = fail_turn-IsFailedWith (text "no answer") cat_turn

poll_ids-loads_example :
    ((turn : ImageTurn)
      → latest_turn cat_run home ≡ some turn
      → All HasTask turn.images
      → is_empty (poll_ids cat_run home) ≡ not (loads turn))
    × (latest_turn cat_run home ≡ none → poll_ids cat_run home ≡ [])
poll_ids-loads_example = poll_ids-loads cat_run home

abbrev news : Dict ImageTask
news = (text "t1-0", finished_task) ∷ (text "t1-1", running_task) ∷ []

apply_to_turn-waits_example :
    let t = apply_to_turn news cat_turn in
    (loads t ≡ any (waits news) cat_images) × (is_active t.status ≡ any (waits news) cat_images)
apply_to_turn-waits_example =
    apply_to_turn-waits news cat_turn ((λ e. cc), ((λ e. cc), tt)) (λ e. cc)

abbrev cat_events : List Event
cat_events =
    answered (text "6") (running_task ∷ [])
    ∷ resubmitted (text "7") (refused (text "t1-1") (text "busy") ∷ [])
    ∷ answered (text "8") (finished_task ∷ [])
    ∷ []

home-IsKeyed : TurnHas plain_host cat_run (IsKeyed plain_host cat_run) home
unfolding ◌==◌
home-IsKeyed turn e = subst (IsKeyed plain_host cat_run) (some-eq e) (refl, (refl, tt))

-- The turn after the events: one image has come, and one could not be created again.
abbrev late_turn : ImageTurn
late_turn =
    let began =
      apply_to_turn (map_image_tasks_by_lookup_id (running_task ∷ [])) (start_turn cat_turn) in
    let messages =
      failures_by_task_id [] (record { task_id = text "t1-1"; message = text "busy" } ∷ []) in
    apply_to_turn (map_image_tasks_by_lookup_id (finished_task ∷ []))
      (mark_turn_failures messages began)

late_turn-found :
    latest_turn cat_run (perform_all plain_host cat_run (started (text "5") ∷ cat_events) home)
    ≡ some late_turn
unfolding perform ◌==◌ sort_image_conversations
late_turn-found = refl

perform_all-HasTask_example : All HasTask late_turn.images
perform_all-HasTask_example =
    perform_all-HasTask plain_host cat_run (text "5") cat_events home home-IsOrderly home-IsKeyed
      ((refl, tt), (tt, ((refl, tt), tt))) late_turn late_turn-found

abbrev deleted_turn : ImageTurn
deleted_turn = record cat_turn {
  results_deleted = true;
  images = deleted_image (text "t1-0") ∷ deleted_image (text "t1-1") ∷ [];
}

deleted : delete_turn_part TurnPart.results cat_turn ≡ some deleted_turn
unfolding delete_turn_part
deleted = refl

-- The turn loads again.
deleted_results-wait_example :
    (loads deleted_turn ≡ false)
    × ((apply_to_turn news deleted_turn).results_deleted ≡ true)
    × (loads (apply_to_turn news deleted_turn)
        ≡ any (λ image. is_pending? (lookup image.id news)) cat_images)
deleted_results-wait_example = deleted_results-wait news cat_turn deleted_turn deleted

abbrev start_world : World
start_world = record { runs = []; page = home }

abbrev one_run : World
one_run = record { runs = cat_run ∷ []; page = record home { active = text "c1" ∷ [] } }

cat_run_begins : begin (text "c1") home ≡ some (cat_run, record home { active = text "c1" ∷ [] })
unfolding begin ◌==◌
cat_run_begins = refl

one_run_reached : Reaches plain_host start_world one_run
one_run_reached =
    then_step (here start_world) (begins (text "c1") start_world cat_run _ cat_run_begins)

start_world-IsExclusive : IsExclusive plain_host start_world
start_world-IsExclusive = record { distinct = tt; active = λ id. refl }

Reaches-IsExclusive_example : IsExclusive plain_host one_run
Reaches-IsExclusive_example = Reaches-IsExclusive plain_host start_world-IsExclusive one_run_reached

run-StartsWaiting_example :
    StartsWaiting (λ turn. not turn.results_deleted && needs_run turn) home (start_shown home)
    × ((r : Run) → StartsWaiting needs_run home (finish r home))
run-StartsWaiting_example = run-StartsWaiting plain_host home home-IsOrderly

perform-IsSynced_example :
    IsSynced plain_host noon home
      (perform plain_host cat_run (answered (text "6") (finished_task ∷ [])) home)
perform-IsSynced_example =
    perform-IsSynced plain_host noon cat_run (answered (text "6") (finished_task ∷ [])) home
      home-IsOrderly cats-IsPast
