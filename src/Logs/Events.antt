-- ===== src/Logs/Events.antt =====
-- web/src/app/logs/page.tsx: what the user and the server can do to the page, in whatever order.
use gpt2api_image.Base.{ℕ, Text, Bool, Option, none, some, List, [], ◌∷◌, map, head, drop}
use gpt2api_image.Selection.{Outcome}
use gpt2api_image.Logs.{SystemLog, LogFilters, LogsPage, current_logs}
use gpt2api_image.Logs.Handlers.{
  Request, load_logs, logs_loaded, choose_filters, clear_filters, open_detail, toggle_ids,
  ask_selected, ask_row, confirm_delete, logs_deleted, delete_finished, next_page, previous_page,
  id_of,
}

-- A row is named by its place on the page that is shown.
pub data Event : Type 0 where
  load : Bool → Event
  loaded : LogFilters → Bool → Outcome (List SystemLog) → Event
  choose : LogFilters → Event
  clear next previous : Event
  select_page select_all : Bool → Event
  select_at : ℕ → Bool → Event
  delete_selected confirm cancel finished : Event
  delete_row open_row : ℕ → Event
  deleted : LogFilters → List Text → Option SystemLog → Outcome ℕ → Event

abbrev pub row_at : ℕ → LogsPage → Option SystemLog
row_at index page = head (drop index (current_logs page))

abbrev pub on_row : Option SystemLog → (SystemLog → LogsPage) → LogsPage → LogsPage
on_row none f page = page
on_row (some item) f page = f item

unfoldable pub step : Event → LogsPage → List Request × LogsPage
step (load silent) page = load_logs silent page
step (loaded filters silent answer) page = ([], logs_loaded filters silent answer page)
step (choose filters) page = choose_filters filters page
step clear page = clear_filters page
step next page = ([], next_page page)
step previous page = ([], previous_page page)
step (select_page checked) page = ([], toggle_ids (map id_of (current_logs page)) checked page)
step (select_all checked) page = ([], toggle_ids (map id_of page.items) checked page)
step (select_at index checked) page =
    ([], on_row (row_at index page) (λ item. toggle_ids (item.id ∷ []) checked page) page)
step delete_selected page = ([], ask_selected page)
step (delete_row index) page = ([], on_row (row_at index page) (λ item. ask_row item page) page)
step (open_row index) page = ([], on_row (row_at index page) (λ item. open_detail item page) page)
step confirm page = confirm_delete page
step cancel page = ([], record page { deleting_items = [] })
step (deleted filters ids seen answer) page = logs_deleted filters ids seen answer page
step finished page = ([], delete_finished page)

unfoldable pub run_events : List Event → LogsPage → LogsPage
unfolding step
run_events [] page = page
run_events (event ∷ events) page = run_events events (step event page).1
