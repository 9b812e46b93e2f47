-- ===== src/Logs/Handlers.antt =====
-- web/src/app/logs/page.tsx: the handlers, each up to its request and after it, and what can happen to the
-- page in any order. What the closure of a handler has seen is an argument of what comes after its
-- request.
use gpt2api_image.Base.{
  ℕ, ◌+◌, ◌-◌, Text, text, ◌==◌, show, Bool, true, false, not, ◌&&◌, ◌||◌, Option, none, some, List,
  [], ◌∷◌, ◌++◌, map, filter, contains, is_empty, length, if◌then◌else◌,
}
use gpt2api_image.Selection.{
  Outcome, answered, failed, message_of, Toast, success, error, toggle, retain,
}
use gpt2api_image.Paging.{max, min, page_count}
use gpt2api_image.Logs.{SystemLog, LogFilters, LogsPage}

pub data Request : Type 0 where
  fetch_logs : LogFilters → Request
  delete_logs : List Text → Request

abbrev pub show_toast : Toast → LogsPage → LogsPage
show_toast toast page = record page { toasts = page.toasts ++ toast ∷ [] }

abbrev pub id_of : SystemLog → Text
id_of item = item.id

-- `setItems`, which also writes the cache, with the filters of its closure
unfoldable pub set_items : LogFilters → List SystemLog → LogsPage → LogsPage
set_items filters next page = record page {
  items = next;
  cached_logs = some (record { items = next; filters = filters });
}

-- `loadLogs`
unfoldable pub load_logs : Bool → LogsPage → List Request × LogsPage
load_logs silent page =
    (fetch_logs page.filters ∷ [], if silent then page else record page { is_loading = true })

unfoldable pub logs_loaded : LogFilters → Bool → Outcome (List SystemLog) → LogsPage → LogsPage
unfolding set_items retain
logs_loaded filters silent (answered items) page = record (set_items filters items page) {
  selected_ids = retain id_of items page.selected_ids;
  page = 1;
  is_loading = if silent then page.is_loading else false;
}
logs_loaded filters silent (failed message) page =
    if silent then page else record (show_toast (error (message_of message (text "加载日志失败"))) page) {
      is_loading = false;
    }

abbrev pub same_filters : LogFilters → LogFilters → Bool
same_filters a b =
    a.chosen_type == b.chosen_type && a.start_date == b.start_date && a.end_date == b.end_date

-- Changing a filter loads the logs again, by an effect that runs after a change.
unfoldable pub choose_filters : LogFilters → LogsPage → List Request × LogsPage
unfolding load_logs
choose_filters filters page =
    let chosen = record page { filters = filters } in
    if same_filters filters page.filters then ([], chosen) else load_logs false chosen

unfoldable pub clear_filters : LogsPage → List Request × LogsPage
unfolding choose_filters
clear_filters page =
    choose_filters
      (record { chosen_type = page.filters.chosen_type; start_date = []; end_date = [] }) page

unfoldable pub open_detail : SystemLog → LogsPage → LogsPage
open_detail item page = record page { detail_log = some item; detail_open = true }

unfoldable pub open_log_image : SystemLog → ℕ → LogsPage → LogsPage
open_log_image item index page = record page {
  detail_log = some item;
  lightbox_index = index;
  lightbox_open = true;
}

unfoldable pub toggle_ids : List Text → Bool → LogsPage → LogsPage
unfolding toggle
toggle_ids ids checked page = record page { selected_ids = toggle ids checked page.selected_ids }

-- The button that asks whether to delete the selected logs, where it is not disabled, and that of a row
unfoldable pub ask_selected : LogsPage → LogsPage
ask_selected page = if is_empty page.selected_ids || page.is_deleting then page else record page {
  deleting_items = filter (λ item. contains item.id page.selected_ids) page.items;
}

unfoldable pub ask_row : SystemLog → LogsPage → LogsPage
ask_row item page = record page { deleting_items = item ∷ [] }

-- `confirmDelete`
unfoldable pub confirm_delete : LogsPage → List Request × LogsPage
confirm_delete page =
    let ids = map id_of page.deleting_items in
    if is_empty ids then ([], page) else (delete_logs ids ∷ [], record page { is_deleting = true })

abbrev is_deleted : List Text → Option SystemLog → Bool
is_deleted ids none = false
is_deleted ids (some item) = contains item.id ids

-- The answer is the number of logs removed. The logs are then loaded again, and the deletion is over when
-- they are.
unfoldable pub logs_deleted :
    LogFilters → List Text → Option SystemLog → Outcome ℕ → LogsPage → List Request × LogsPage
unfolding show
logs_deleted filters ids seen (answered removed) page =
    let gone = is_deleted ids seen in
    (
      fetch_logs filters ∷ [],
      record (show_toast (success (text "已删除 " ++ (show removed ++ text " 条日志"))) page) {
        deleting_items = [];
        selected_ids = filter (λ id. not (contains id ids)) page.selected_ids;
        detail_open = if gone then false else page.detail_open;
        detail_log = if gone then none else page.detail_log;
        is_loading = true;
      },
    )
logs_deleted filters ids seen (failed message) page = (
  [],
  record (show_toast (error (message_of message (text "删除日志失败"))) page) { is_deleting = false },
)

unfoldable pub delete_finished : LogsPage → LogsPage
delete_finished page = record page { is_deleting = false }

unfoldable pub next_page : LogsPage → LogsPage
unfolding page_count
next_page page = record page { page = min (page_count (length page.items) 10) (page.page + 1) }

unfoldable pub previous_page : LogsPage → LogsPage
previous_page page = record page { page = max 1 (page.page - 1) }
