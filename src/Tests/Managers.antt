-- ===== src/Tests/Managers.antt =====
-- web/src/app/image-manager/page.tsx, web/src/app/logs/page.tsx and
-- web/src/app/keys/components/user-keys-card.tsx at a few rows.
use gpt2api_image.Base.{
  ℕ, Text, text, ◌==◌, true, false, not, ◌&&◌, ◌≡◌, refl, Option, none, some, List, [], ◌∷◌, All,
  contains, length, map,
}
use mathlib.Core.List.{Mem}
use gpt2api_image.Selection.{answered}
use gpt2api_image.Images.{
  ManagedImage, Filters, ImageManager, tags_of, has_tags, filtered_items, selected_count,
  has_active_bulk_filter,
}
use gpt2api_image.Images.Handlers.{
  Loaded, delete_matching, images_loaded, ask_filtered, confirm_delete, items_of, all_tags_of,
}
use gpt2api_image.Images.Tagging.{tag_deleted, without_tag}
use gpt2api_image.Images.Tags.{tag_deleted_lem}
use gpt2api_image.Images.Filtered.{matching, confirm_delete-images_loaded}
use gpt2api_image.Logs.{SystemLog, LogFilters, LogsCache, mount}
use gpt2api_image.Logs.Handlers as LogHandlers
use gpt2api_image.Logs.Events
use gpt2api_image.Logs.Selected.{IsConsistent, confirm_delete-run_events}
use gpt2api_image.Keys.{UserKey, UserKeysCard}
use gpt2api_image.Keys.Handlers as KeyHandlers
use gpt2api_image.Keys.Asked.{IsAsked, handlers-IsAsked}

abbrev image : Text → List Text → ManagedImage
image rel tags = record { rel = rel; url = text "/x"; tags = some tags; owner_id = none }

abbrev of_owner : Text → Filters
of_owner owner = record { start_date = []; end_date = []; owner = owner }

abbrev manager : ImageManager
manager = record {
  cached = none;
  items = image (text "1.png") (text "a" ∷ text "b" ∷ []) ∷ image (text "2.png") [] ∷ [];
  all_tags = text "a" ∷ text "b" ∷ [];
  owners = [];
  filters = of_owner (text "u2");
  selected_tags = text "a" ∷ [];
  selected_paths = [];
  page = 1;
  tag_input = [];
  delete_target = none;
  delete_mode = none;
  is_loading = false;
  is_deleting = false;
  is_downloading = false;
  toasts = [];
}

tag_deleted_lem_example :
    let page' = tag_deleted manager.filters (text "a") (answered 1) manager in
    All (λ item. contains (text "a") (tags_of item) ≡ false) page'.items
    × (contains (text "a") page'.all_tags ≡ false)
    × ((t : Text)
        → contains t page'.selected_tags
          ≡ (contains t manager.selected_tags && not (t == text "a")))
    × (page'.items ≡ map (without_tag (text "a")) manager.items)
    × All
        (λ item. Mem item (filtered_items page'))
        (map (without_tag (text "a")) (filtered_items manager))
    × (items_of page'.cached ≡ page'.items)
    × (all_tags_of page'.cached ≡ page'.all_tags)
tag_deleted_lem_example = tag_deleted_lem manager.filters (text "a") 1 manager

abbrev stale : Loaded
stale = record { items = image (text "3.png") (text "a" ∷ []) ∷ []; tags = []; owners = [] }

-- The images of another owner are counted, and those of the chosen one are deleted.
confirm_delete-images_loaded_example :
    let shown = images_loaded (of_owner (text "u1")) false (answered stale) manager in
    let opened = ask_filtered shown in
    (shown.items ≡ stale.items)
    × (shown.is_loading ≡ false)
    × (selected_count opened ≡ length (matching (text "a" ∷ []) stale.items))
    × ((confirm_delete opened).0 ≡ delete_matching (of_owner (text "u2")) (text "a" ∷ []) ∷ [])
unfolding ◌==◌ has_tags has_active_bulk_filter
confirm_delete-images_loaded_example =
    confirm_delete-images_loaded (of_owner (text "u1")) stale manager refl refl refl

abbrev log : Text → SystemLog
log id = record { id = id; log_type = text "call"; detail = none }

abbrev calls : LogFilters
calls = record { chosen_type = text "call"; start_date = []; end_date = [] }

abbrev some_logs : LogsCache
some_logs = record { items = log (text "a") ∷ log (text "b") ∷ []; filters = calls }

abbrev log_events : List Events.Event
log_events = Events.select_all true ∷ Events.load true ∷ []

confirm_delete-run_events_example :
    let page = Events.run_events log_events (mount (some some_logs)) in
    let asked = LogHandlers.ask_selected page in
    let ids = map LogHandlers.id_of asked.deleting_items in
    IsConsistent page
    × ((mount page.cached_logs).items ≡ page.items)
    × ((LogHandlers.confirm_delete asked).0 ≡ LogHandlers.delete_logs ids ∷ [])
    × ((id : Text) → contains id ids ≡ contains id page.selected_ids)
    × ((filters : LogFilters) (seen : Option SystemLog) (removed : ℕ) (id : Text)
        → contains id
            (LogHandlers.logs_deleted filters ids seen (answered removed) asked).1.selected_ids
          ≡ false)
unfolding Events.run_events mount LogHandlers.toggle_ids LogHandlers.load_logs ◌==◌
confirm_delete-run_events_example = confirm_delete-run_events log_events (some some_logs) refl refl

abbrev key : UserKey
key = record { id = text "k"; name = text "n"; enabled = true; key_visible = true }

abbrev card : UserKeysCard
card = record {
  cached_items = none;
  items = key ∷ [];
  is_loading = false;
  query = [];
  page = 1;
  create_open = true;
  create_name = text "  ";
  create_key = text " sk-1 ";
  edit_item = some key;
  edit_name = text " m ";
  reset_item = none;
  reset_key = [];
  delete_item = some key;
  plain_dialog = none;
  busy_id = none;
  is_submitting = false;
  toasts = [];
}

handlers-IsAsked_example :
    All (IsAsked card) (KeyHandlers.handle_create card).0
    × All (IsAsked card) (KeyHandlers.handle_edit card).0
    × All (IsAsked card) (KeyHandlers.handle_reset card).0
    × All (IsAsked card) (KeyHandlers.handle_delete card).0
handlers-IsAsked_example = handlers-IsAsked card
