-- ===== src/Logs.antt =====
-- web/src/app/logs/page.tsx: what is read from a log, and the state of the page.
pub mod Handlers
pub mod Events
pub mod Selected
use gpt2api_image.Base.{
  ℕ, zero, Text, text, ◌==◌, trim, truthy, is_empty, Bool, true, false, not, ◌&&◌, Option, none,
  some, List, [], ◌∷◌, all, map, filter_map, contains, if◌then◌else◌,
}
use gpt2api_image.Base.Host.{Host}
use gpt2api_image.Conversation.Raw.{Value, undefined, null, boolean, number, string, object}
use gpt2api_image.Selection.{Toast}
use gpt2api_image.Paging.{current_rows}

-- A value of the detail: an array, or anything else.
pub data DetailValue : Type 0 where
  array : List Value → DetailValue
  plain : Value → DetailValue

-- The fields that the page computes with; the detail is given by the values of its keys.
pub record SystemLog : Type 0 where
  pub id : Text
  pub log_type : Text
  pub detail : Option (Text → DetailValue)

-- `item.detail?.[key]`
abbrev pub detail_of : SystemLog → Text → DetailValue
detail_of item key = elim item.detail [ none ↦ plain undefined | some values ↦ values key ]

abbrev shown_text : Host → DetailValue → Text
shown_text host (plain (string s)) = s
shown_text host (plain (number n)) = host.show_num n
shown_text host _ = text "-"

unfoldable pub get_detail_text : Host → SystemLog → Text → Text
get_detail_text host item key = shown_text host (detail_of item key)

unfoldable pub get_log_key_name : Host → SystemLog → Text
unfolding get_detail_text
get_log_key_name host item =
    if not (get_detail_text host item (text "key_name") == text "-")
    then get_detail_text host item (text "key_name")
    else if not (get_detail_text host item (text "name") == text "-")
    then get_detail_text host item (text "name")
    else get_detail_text host item (text "subject_id")

abbrev text_in : Value → Option Text
text_in (string s) = some s
text_in _ = none

abbrev filled_text_in : Value → Option Text
filled_text_in (string s) = if truthy (trim s) then some s else none
filled_text_in _ = none

abbrev values_in : DetailValue → List Value
values_in (array values) = values
values_in (plain value) = []

abbrev detail_if : Option SystemLog → Text → DetailValue
detail_if none key = plain undefined
detail_if (some item) key = detail_of item key

unfoldable pub get_urls : Option SystemLog → List Text
get_urls item = filter_map text_in (values_in (detail_if item (text "urls")))

unfoldable pub get_emails : Option SystemLog → List Text
unfolding trim
get_emails item = filter_map filled_text_in (values_in (detail_if item (text "emails")))

abbrev status_text : DetailValue → Text
status_text (plain (string s)) =
    if s == text "success" then text "成功" else if s == text "failed" then text "失败" else text "-"
status_text _ = text "-"

unfoldable pub get_status : SystemLog → Text
get_status item = status_text (detail_of item (text "status"))

-- What the server is asked for.
pub record LogFilters : Type 0 where
  pub chosen_type : Text
  pub start_date : Text
  pub end_date : Text

pub record LogsCache : Type 0 where
  pub items : List SystemLog
  pub filters : LogFilters

-- The state of the page, with what the module caches.
pub record LogsPage : Type 0 where
  pub cached_logs : Option LogsCache
  pub items : List SystemLog
  pub filters : LogFilters
  pub detail_log : Option SystemLog
  pub detail_open : Bool
  pub lightbox_index : ℕ
  pub lightbox_open : Bool
  pub page : ℕ
  pub is_loading : Bool
  pub is_deleting : Bool
  pub selected_ids : List Text
  pub deleting_items : List SystemLog
  pub toasts : List Toast

abbrev pub items_of : Option LogsCache → List SystemLog
items_of none = []
items_of (some cache) = cache.items

abbrev filters_of : Option LogsCache → LogFilters
filters_of none = record { chosen_type = text "call"; start_date = []; end_date = [] }
filters_of (some cache) = cache.filters

-- The page when it is mounted, where logs may have been cached.
unfoldable pub mount : Option LogsCache → LogsPage
mount cached = record {
  cached_logs = cached;
  items = items_of cached;
  filters = filters_of cached;
  detail_log = none;
  detail_open = false;
  lightbox_index = 0;
  lightbox_open = false;
  page = 1;
  is_loading = elim cached [ none ↦ true | some cache ↦ false ];
  is_deleting = false;
  selected_ids = [];
  deleting_items = [];
  toasts = [];
}

unfoldable pub current_logs : LogsPage → List SystemLog
unfolding current_rows
current_logs page = current_rows page.items page.page 10

-- `currentPageSelected` and `allSelected`
unfoldable pub logs_selected : List SystemLog → List Text → Bool
logs_selected rows ids = not (is_empty rows) && all (λ item. contains item.id ids) rows
