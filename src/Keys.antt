-- ===== src/Keys.antt =====
-- web/src/app/keys/components/user-keys-card.tsx: the state of the card and what it shows.
pub mod Handlers
pub mod Asked
use gpt2api_image.Base.{
  ℕ, zero, Text, text, ◌==◌, ◌++◌, trim, truthy, includes, Bool, true, false, not, ◌&&◌, Option,
  none, some, List, [], ◌∷◌, filter, length, if◌then◌else◌,
}
use gpt2api_image.Base.Host.{Host}
use gpt2api_image.Selection.{Toast}
use gpt2api_image.Paging.{current_rows, page_count}

-- The fields that the card computes with, but for the quotas.
pub record UserKey : Type 0 where
  pub id : Text
  pub name : Text
  pub enabled : Bool
  pub key_visible : Bool

-- A key in the clear, as it is shown once.
pub record KeyDialogState : Type 0 where
  pub item : UserKey
  pub value : Text

-- The state of the card, with what the module caches.
pub record UserKeysCard : Type 0 where
  pub cached_items : Option (List UserKey)
  pub items : List UserKey
  pub is_loading : Bool
  pub query : Text
  pub page : ℕ
  pub create_open : Bool
  pub create_name : Text
  pub create_key : Text
  pub edit_item : Option UserKey
  pub edit_name : Text
  pub reset_item : Option UserKey
  pub reset_key : Text
  pub delete_item : Option UserKey
  pub plain_dialog : Option KeyDialogState
  pub busy_id : Option Text
  pub is_submitting : Bool
  pub toasts : List Toast

abbrev pub items_of : Option (List UserKey) → List UserKey
items_of none = []
items_of (some items) = items

unfoldable pub mount : Option (List UserKey) → UserKeysCard
mount cached = record {
  cached_items = cached;
  items = items_of cached;
  is_loading = elim cached [ none ↦ true | some items ↦ false ];
  query = [];
  page = 1;
  create_open = false;
  create_name = [];
  create_key = [];
  edit_item = none;
  edit_name = [];
  reset_item = none;
  reset_key = [];
  delete_item = none;
  plain_dialog = none;
  busy_id = none;
  is_submitting = false;
  toasts = [];
}

-- What the search looks at: the name, the id and the state, with blanks between them
unfoldable pub search_text : UserKey → Text
search_text item =
    item.name
    ++ (text " " ++ (item.id ++ (text " " ++ (if item.enabled then text "启用" else text "停用"))))

-- `filteredItems`
unfoldable pub filtered_keys : Host → UserKeysCard → List UserKey
unfolding search_text includes trim
filtered_keys host card =
    let keyword = host.lower_case (trim card.query) in
    if not (truthy keyword)
    then card.items
    else filter (λ item. includes keyword (host.lower_case (search_text item))) card.items

-- `pageCount` and `pageItems`
unfoldable pub keys_page_count : Host → UserKeysCard → ℕ
unfolding filtered_keys page_count
keys_page_count host card = page_count (length (filtered_keys host card)) 8

unfoldable pub page_items : Host → UserKeysCard → List UserKey
unfolding filtered_keys current_rows
page_items host card = current_rows (filtered_keys host card) card.page 8
