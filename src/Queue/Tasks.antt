-- ===== src/Queue/Tasks.antt =====
-- web/src/app/image/page.tsx, `runConversationQueue`: the images of the turn of a run have tasks to ask for.
use gpt2api_image.Base.{
  Text, ◌==◌, eq_iff, ◌≡◌, refl, sym, ap, subst, ◌∙◌, some-eq, true, Option, none, some, List, [],
  ◌∷◌, map, All, Bool-cases, Option-cases, inl, inr, if◌then◌else◌, arith,
}
use gpt2api_image.Base.Host.{Host}
use gpt2api_image.Conversation.{StoredImage, ImageTurn, ImageConversation}
use gpt2api_image.Conversation.Ordering.{find_conversation}
use gpt2api_image.Task.{ImageTask, map_image_tasks_by_lookup_id}
use gpt2api_image.Task.Known.{HasId, map_image_tasks-HaveIds}
use gpt2api_image.Page.{Page, find_turn}
use gpt2api_image.Page.Memory.{IsOrderly, find-update, update_missing}
use gpt2api_image.Turn.{
  CreationFailure, start_turn, start_image, fail_turn, fail_loading, apply_to_turn,
  mark_turn_failures, failures_by_task_id, could_not_create, could_not_recreate, failures_of,
}
use gpt2api_image.Queue.{
  Run, Event, started, answered, submitted, resubmitted, failed, perform, update_turn, on_turn,
  latest_turn, start, apply_tasks, mark_task_creation_failures, fail,
}
use gpt2api_image.Queue.Frame.{
  IsToasted, submission-IsToasted, resubmission-IsToasted, perform-IsOrderly,
}
use gpt2api_image.Queue.Polling.{HasKey, HasTask, turn-HasTask}

restart-HasTask : (xs : List StoredImage) → All HasTask xs → All HasTask (map start_image xs)
restart-HasTask [] h = tt
restart-HasTask (x ∷ xs) h = (ground (arith, h.0), restart-HasTask xs h.1)

fail-HasTask :
    (message : Text) (xs : List StoredImage) → All HasTask (map (fail_loading message) xs)
fail-HasTask message [] = tt
fail-HasTask message (x ∷ xs) = (ground arith, fail-HasTask message xs)

module _ (host : Host) (r : Run) where
  -- The turn that the run is about has a property, if it is there.
  abbrev pub TurnHas : (ImageTurn → Type 0) → Page → Type 0
  TurnHas P page = (turn : ImageTurn) → latest_turn r page ≡ some turn → P turn

  -- The turn of the id after an update comes from the one before it.
  find-on_turn :
      (f : ImageTurn → ImageTurn)
      → ((turn : ImageTurn) → (f turn).id ≡ turn.id)
      → (xs : List ImageTurn) (u : ImageTurn)
      → find_turn r.turn.id (map (λ turn. if turn.id == r.turn.id then f turn else turn) xs)
        ≡ some u
      → (t : ImageTurn) × (find_turn r.turn.id xs ≡ some t) × (u ≡ f t)
  find-on_turn f keeps [] u e = cc
  find-on_turn f keeps (x ∷ xs) u e = elim (Bool-cases (x.id == r.turn.id)) [
    | inl here ↦
        let same : ((f x).id == r.turn.id) ≡ true = ap (λ k. k == r.turn.id) (keeps x) ∙ here in
        (x, rw here refl, sym (some-eq (rw (here, same) at e)))
    | inr away ↦
        let (t, found, same) = find-on_turn f keeps xs u (rw (away, away) at e) in
        (t, rw away found, same)
  ]

  abbrev turn_in : Option ImageConversation → Option ImageTurn
  turn_in o = elim o [ none ↦ none | some c ↦ find_turn r.turn.id c.turns ]

  latest_turn-update :
      (now : Text) (f : ImageTurn → ImageTurn) (page : Page)
      → ((turn : ImageTurn) → (f turn).id ≡ turn.id)
      → IsOrderly host page
      → (u : ImageTurn) → latest_turn r (update_turn host r now f page) ≡ some u
      → (t : ImageTurn) × (latest_turn r page ≡ some t) × (u ≡ f t)
  latest_turn-update now f page keeps h u e =
      elim (Option-cases (find_conversation r.conversation_id page.conversations)) [
        | inl missing ↦
            let gone : latest_turn r (update_turn host r now f page) ≡ none =
              ap (latest_turn r)
                (update_missing host r.conversation_id (on_turn now r.turn.id f) page missing)
              ∙ ap turn_in missing in
            absurd (ground (arith, sym gone ∙ e))
        | inr (c, found) ↦
            let at : find_conversation r.conversation_id
                  (update_turn host r now f page).conversations
                ≡ some (on_turn now r.turn.id f c) =
              find-update host r.conversation_id (on_turn now r.turn.id f) page r.conversation_id
                (λ c. refl) h
              ∙ rw ((eq_iff r.conversation_id r.conversation_id).1 refl, found) refl in
            let (t, here, same) = find-on_turn f keeps c.turns u (ap turn_in (sym at) ∙ e) in
            (t, ap turn_in found ∙ here, same)
      ]

  TurnHas-update :
      (P Q : ImageTurn → Type 0) (now : Text) (f : ImageTurn → ImageTurn) (page : Page)
      → ((turn : ImageTurn) → (f turn).id ≡ turn.id)
      → IsOrderly host page
      → ((turn : ImageTurn) → P turn → Q (f turn))
      → TurnHas P page
      → TurnHas Q (update_turn host r now f page)
  TurnHas-update P Q now f page keeps h gives had u e =
      let (t, before, same) = latest_turn-update now f page keeps h u e in
      subst Q (sym same) (gives t (had t before))

  TurnHas-toasted :
      (P : ImageTurn → Type 0) (page next : Page)
      → IsToasted page next
      → TurnHas P page
      → TurnHas P next
  TurnHas-toasted P page next (ts, _, same) had = subst (TurnHas P) (sym same) had

  -- Every loading image of a turn has a task to ask for.
  abbrev pub IsPolled : ImageTurn → Type 0
  IsPolled turn = All HasTask turn.images

  abbrev pub IsKeyed : ImageTurn → Type 0
  IsKeyed turn = All HasKey turn.images

  -- The tasks of an answer have ids.
  abbrev pub IsKnown : Event → Type 0
  IsKnown (answered now tasks) = All HasId tasks
  IsKnown (started now) = Unit
  IsKnown (submitted now answers) = Unit
  IsKnown (resubmitted now answers) = Unit
  IsKnown (failed now message) = Unit

  mark-TurnHas :
      (now : Text) (fs : List CreationFailure) (page : Page)
      → IsOrderly host page
      → TurnHas IsPolled page
      → TurnHas IsPolled (mark_task_creation_failures host r now fs page)
  unfolding mark_task_creation_failures mark_turn_failures
  mark-TurnHas now [] page h had = had
  mark-TurnHas now (f ∷ fs) page h had =
      let messages = failures_by_task_id [] (f ∷ fs) in
      TurnHas-update IsPolled IsPolled now (mark_turn_failures messages) page (λ turn. refl) h
        (λ turn polled. ((turn-HasTask [] messages turn tt).1 polled).1) had

  answer-TurnHas :
      (now : Text) (tasks : List ImageTask) (page : Page)
      → IsOrderly host page
      → All HasId tasks
      → TurnHas IsPolled page
      → TurnHas IsPolled (apply_tasks host r now tasks page)
  unfolding apply_tasks apply_to_turn
  answer-TurnHas now [] page h known had = had
  answer-TurnHas now (task ∷ tasks) page h known had =
      let table = map_image_tasks_by_lookup_id (task ∷ tasks) in
      let ids = map_image_tasks-HaveIds (task ∷ tasks) known in
      TurnHas-update IsPolled IsPolled now (apply_to_turn table) page (λ turn. refl) h
        (λ turn polled. ((turn-HasTask table [] turn ids).1 polled).0) had

  fail-TurnHas :
      (now message : Text) (page : Page)
      → IsOrderly host page
      → TurnHas IsPolled page
      → TurnHas IsPolled (fail host r now message page)
  unfolding fail fail_turn
  fail-TurnHas now message page h had =
      TurnHas-update IsPolled IsPolled now (fail_turn message) page (λ turn. refl) h
        (λ turn polled. fail-HasTask message turn.images) had

  perform-TurnHas :
      (e : Event) (page : Page)
      → IsOrderly host page
      → IsKnown e
      → TurnHas IsPolled page
      → TurnHas IsPolled (perform host r e page)
  unfolding perform start
  perform-TurnHas (started now) page h known had =
      TurnHas-update IsPolled IsPolled now start_turn page (λ turn. refl) h
        (λ turn polled. restart-HasTask turn.images polled) had
  perform-TurnHas (answered now tasks) page h known had = answer-TurnHas now tasks page h known had
  perform-TurnHas (submitted now answers) page h known had =
      TurnHas-toasted IsPolled _ _ (submission-IsToasted host r answers _)
        (mark-TurnHas now (failures_of could_not_create answers) page h had)
  perform-TurnHas (resubmitted now answers) page h known had =
      TurnHas-toasted IsPolled _ _ (resubmission-IsToasted host r answers _)
        (mark-TurnHas now (failures_of could_not_recreate answers) page h had)
  perform-TurnHas (failed now message) page h known had = fail-TurnHas now message page h had

  -- The page after some steps of the run
  abbrev pub perform_all : List Event → Page → Page
  perform_all [] page = page
  perform_all (e ∷ events) page = perform_all events (perform host r e page)

  perform_all-TurnHas :
      (events : List Event) (page : Page)
      → IsOrderly host page
      → All IsKnown events
      → TurnHas IsPolled page
      → TurnHas IsPolled (perform_all events page)
  perform_all-TurnHas [] page h known had = had
  perform_all-TurnHas (e ∷ events) page h (first, rest) had =
      perform_all-TurnHas events (perform host r e page) (perform-IsOrderly host r e page h) rest
        (perform-TurnHas e page h first had)

  -- If on an orderly page every image of the turn that a run is about has a task id or an id of its own that is not empty,
  -- then after the start of the run, and after any further steps of it, every image of the turn that loads has a
  -- task to ask for, as long as the tasks that the server answers with have ids.
  pub perform_all-HasTask :
      (now : Text) (events : List Event) (page : Page)
      → IsOrderly host page
      → TurnHas IsKeyed page
      → All IsKnown events
      → (turn : ImageTurn) → latest_turn r (perform_all (started now ∷ events) page) ≡ some turn
      → All HasTask turn.images
  unfolding perform start
  perform_all-HasTask now events page h keyed known =
      perform_all-TurnHas events (perform host r (started now) page)
        (perform-IsOrderly host r (started now) page h) known
        (TurnHas-update IsKeyed IsPolled now start_turn page (λ turn. refl) h
          (λ turn keys. (turn-HasTask [] [] turn tt).0 keys) keyed)
