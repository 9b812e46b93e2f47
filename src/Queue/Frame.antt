-- ===== src/Queue/Frame.antt =====
-- web/src/app/image/page.tsx, `runConversationQueue`: what a run can change, and what it leaves alone.
use gpt2api_image.Base.{
  append_nil, Text, Dict, ◌==◌, eq_iff, ◌≡◌, ◌≢◌, refl, sym, ap, subst, ◌∙◌, none, some, List, [],
  ◌∷◌, ◌++◌, map, All, Bool-cases, inl, inr, ◌⊎◌, if◌then◌else◌, is_empty, filter_map, ◌||◌,
}
use gpt2api_image.Base.Host.{Host}
use gpt2api_image.Conversation.{ImageConversation, ImageTurn}
use gpt2api_image.Conversation.Ordering.{find_conversation}
use gpt2api_image.Page.{Page, Effect, toast, emit}
use gpt2api_image.Page.Memory.{IsOrderly, find-update, update-IsOrderly, update_missing}
use gpt2api_image.Task.{ImageTask, map_image_tasks_by_lookup_id}
use gpt2api_image.Queue.{
  Run, Event, started, answered, submitted, resubmitted, failed, perform, update_turn, on_turn,
  start, apply_tasks, mark_task_creation_failures, fail, submission_toast, resubmission_toast,
}
use gpt2api_image.Turn.{
  apply_to_turn, failures_by_task_id, mark_turn_failures, fail_turn, start_turn, CreationFailure,
  Creation, created_task, failures_of, could_not_create, could_not_recreate,
}

-- An effect that neither stores nor cancels nor runs anything.
abbrev pub IsToast : Effect → Type 0
IsToast e = (message : Text) × (e ≡ toast message)

-- The page after some toasts.
abbrev pub IsToasted : Page → Page → Type 0
IsToasted page next =
    (ts : List Effect) × All IsToast ts × (next ≡ record page { effects = page.effects ++ ts })

no_toast : (page : Page) → IsToasted page page
no_toast page = ([], tt, ap (λ es. record page { effects = es }) (sym (append_nil page.effects)))

one_toast : (message : Text) (page : Page) → IsToasted page (emit (toast message) page)
one_toast message page = (toast message ∷ [], ((message, refl), tt), refl)

-- An update of the turn of the run, and then toasts.
module _ (host : Host) (r : Run) where
  abbrev pub KeepsId : (ImageTurn → ImageTurn) → Type 0
  KeepsId f = (turn : ImageTurn) → (f turn).id ≡ turn.id

  abbrev pub IsUpdate : Text → Page → Page → Type 0
  IsUpdate now page middle =
      (middle ≡ page)
      ⊎ ((f : ImageTurn → ImageTurn) × KeepsId f × (middle ≡ update_turn host r now f page))

  keeps_apply : (tasks : Dict ImageTask) → KeepsId (apply_to_turn tasks)
  unfolding apply_to_turn
  keeps_apply tasks turn = refl

  keeps_mark : (messages : Dict Text) → KeepsId (mark_turn_failures messages)
  unfolding mark_turn_failures
  keeps_mark messages turn = refl

  keeps_fail : (message : Text) → KeepsId (fail_turn message)
  unfolding fail_turn
  keeps_fail message turn = refl

  mark-IsUpdate :
      (now : Text) (fs : List CreationFailure) (page : Page)
      → IsUpdate now page (mark_task_creation_failures host r now fs page)
  unfolding mark_task_creation_failures
  mark-IsUpdate now [] page = inl refl
  mark-IsUpdate now (f ∷ fs) page = inr (
    mark_turn_failures (failures_by_task_id [] (f ∷ fs)),
    keeps_mark (failures_by_task_id [] (f ∷ fs)),
    refl,
  )

  pub submission-IsToasted :
      (answers : List Creation) (page : Page) → IsToasted page (submission_toast answers page)
  unfolding submission_toast
  submission-IsToasted answers page =
      elim (Bool-cases (
        is_empty (failures_of could_not_create answers)
        || is_empty (filter_map created_task answers))) [
          | inl none_failed ↦ rw none_failed (no_toast page)
          | inr some_failed ↦ rw some_failed (one_toast _ page)
        ]

  pub resubmission-IsToasted :
      (answers : List Creation) (page : Page) → IsToasted page (resubmission_toast answers page)
  unfolding resubmission_toast
  resubmission-IsToasted answers page =
      elim (Bool-cases (is_empty (failures_of could_not_recreate answers))) [
        | inl none_failed ↦ rw none_failed (no_toast page)
        | inr some_failed ↦ rw some_failed (one_toast _ page)
      ]

  -- The date that a step gives to what it updates.
  abbrev pub time_of : Event → Text
  time_of (started now) = now
  time_of (answered now tasks) = now
  time_of (submitted now answers) = now
  time_of (resubmitted now answers) = now
  time_of (failed now message) = now

  pub perform-cases :
      (e : Event) (page : Page)
      → (middle : Page) × IsUpdate (time_of e) page middle
        × IsToasted middle (perform host r e page)
  unfolding perform start apply_tasks fail
  perform-cases (started now) page = (_, inr (start_turn, (λ turn. refl), refl), no_toast _)
  perform-cases (answered now []) page = (page, inl refl, no_toast page)
  perform-cases (answered now (task ∷ tasks)) page =
      (_, inr (_, keeps_apply (map_image_tasks_by_lookup_id (task ∷ tasks)), refl), no_toast _)
  perform-cases (submitted now answers) page =
      (_, mark-IsUpdate now _ page, submission-IsToasted answers _)
  perform-cases (resubmitted now answers) page =
      (_, mark-IsUpdate now _ page, resubmission-IsToasted answers _)
  perform-cases (failed now message) page =
      (_, inr (_, keeps_fail message, refl), one_toast message _)

  IsOrderly-toasted :
      {page next : Page} → IsOrderly host page → IsToasted page next → IsOrderly host next
  IsOrderly-toasted h (ts, _, same) =
      subst (IsOrderly host) (sym same)
        (record { sorted = h.sorted; nodup = h.nodup; shown = h.shown })

  IsOrderly-update :
      (now : Text) {page middle : Page}
      → IsOrderly host page
      → IsUpdate now page middle
      → IsOrderly host middle
  IsOrderly-update now h (inl same) = subst (IsOrderly host) (sym same) h
  IsOrderly-update now {page} h (inr (f, keeps, same)) =
      subst (IsOrderly host) (sym same)
        (update-IsOrderly host r.conversation_id (on_turn now r.turn.id f) page (λ c. refl) h)

  -- Whatever the server answers, a step of a run keeps the list in memory sorted and free of
  -- duplicates.
  pub perform-IsOrderly :
      (e : Event) (page : Page) → IsOrderly host page → IsOrderly host (perform host r e page)
  perform-IsOrderly e page h =
      let (middle, updated, toasted) = perform-cases e page in
      IsOrderly-toasted (IsOrderly-update (time_of e) h updated) toasted

  missing-update :
      (now : Text) {page middle : Page}
      → find_conversation r.conversation_id page.conversations ≡ none
      → IsUpdate now page middle
      → middle ≡ page
  missing-update now missing (inl same) = same
  missing-update now {page} missing (inr (f, keeps, same)) =
      same ∙ update_missing host r.conversation_id (on_turn now r.turn.id f) page missing

  -- Once the conversation of a run is deleted, no step of the run shows or stores anything: all that
  -- it can do is to say something in a toast.
  pub perform_missing :
      (e : Event) (page : Page)
      → find_conversation r.conversation_id page.conversations ≡ none
      → IsToasted page (perform host r e page)
  perform_missing e page missing =
      let (middle, updated, toasted) = perform-cases e page in
      subst (λ p. IsToasted p (perform host r e page)) (missing-update (time_of e) missing updated)
        toasted

  -- The same turns in the same places, and those of another id as they were.
  abbrev pub SameOthers : List ImageTurn → List ImageTurn → Type 0
  SameOthers [] ys = ys ≡ []
  SameOthers (x ∷ xs) [] = ⊥
  SameOthers (x ∷ xs) (y ∷ ys) = (y.id ≡ x.id) × (x.id ≢ r.turn.id → y ≡ x) × SameOthers xs ys

  SameOthers-refl : (xs : List ImageTurn) → SameOthers xs xs
  SameOthers-refl [] = refl
  SameOthers-refl (x ∷ xs) = (refl, λ _. refl, SameOthers-refl xs)

  SameOthers-map :
      (f : ImageTurn → ImageTurn)
      → KeepsId f
      → (xs : List ImageTurn)
      → SameOthers xs (map (λ turn. if turn.id == r.turn.id then f turn else turn) xs)
  SameOthers-map f keeps [] = refl
  SameOthers-map f keeps (x ∷ xs) = elim (Bool-cases (x.id == r.turn.id)) [
    | inl same ↦ (
      rw same (keeps x),
      (λ other. absurd (other ((eq_iff x.id r.turn.id).0 same))),
      SameOthers-map f keeps xs,
    )
    | inr other ↦ (rw other refl, (λ _. rw other refl), SameOthers-map f keeps xs)
  ]

  -- A conversation after a step: its id, title and date of creation stay, and of its turns only that of
  -- the run may change.
  abbrev pub IsFramed : ImageConversation → ImageConversation → Type 0
  IsFramed c d =
      (d.id ≡ c.id)
      × (d.title ≡ c.title)
      × (d.created_at ≡ c.created_at)
      × SameOthers c.turns d.turns

  IsFramed-update :
      (now : Text) {page middle : Page} (c : ImageConversation) (j : Text)
      → IsOrderly host page
      → IsUpdate now page middle
      → find_conversation j page.conversations ≡ some c
      → (d : ImageConversation) × (find_conversation j middle.conversations ≡ some d)
        × (IsFramed c d)
        × (r.conversation_id ≢ j → d ≡ c)
  IsFramed-update now c j h (inl same) found = (
    c,
    ap (λ p. find_conversation j p.conversations) same ∙ found,
    (refl, refl, refl, SameOthers-refl c.turns),
    λ _. refl,
  )
  IsFramed-update now {page} c j h (inr (f, keeps, same)) found =
      let at =
        ap (λ p. find_conversation j p.conversations) same
        ∙ find-update host r.conversation_id (on_turn now r.turn.id f) page j (λ c. refl) h in
      elim (Bool-cases (r.conversation_id == j)) [
        | inl here ↦
            let e = (eq_iff r.conversation_id j).0 here in
            (
              on_turn now r.turn.id f c,
              at ∙ rw (here, ap (λ k. find_conversation k page.conversations) e ∙ found) refl,
              (refl, refl, refl, SameOthers-map f keeps c.turns),
              λ other. absurd (other e),
            )
        | inr away ↦ (c, at ∙ rw away found, (refl, refl, refl, SameOthers-refl c.turns), λ _. refl)
      ]

  -- A step of a run drops no conversation, changes none but its own, and of that one nothing but the
  -- turn of the run and the date of the update.
  pub perform-IsFramed :
      (e : Event) (page : Page) (c : ImageConversation) (j : Text)
      → IsOrderly host page
      → find_conversation j page.conversations ≡ some c
      → (d : ImageConversation) × (find_conversation j (perform host r e page).conversations
          ≡ some d)
        × (IsFramed c d)
        × (r.conversation_id ≢ j → d ≡ c)
  perform-IsFramed e page c j h found =
      let (middle, updated, (ts, _, same)) = perform-cases e page in
      let (d, at, framed, others) = IsFramed-update (time_of e) c j h updated found in
      (d, ap (λ p. find_conversation j p.conversations) same ∙ at, framed, others)
