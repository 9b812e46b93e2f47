-- ===== src/Accounts/Events.antt =====
-- web/src/app/accounts/page.tsx: what the user and the server can do to the page, in whatever order.
use gpt2api_image.Base.{
  ℕ, Text, Bool, true, false, Option, none, some, List, [], ◌∷◌, map, drop, head,
}
use gpt2api_image.Base.Host.{Host}
use gpt2api_image.Selection.{Outcome}
use gpt2api_image.Paging.{PageItem, number, dots, pagination_items, safe_page}
use gpt2api_image.Accounts.{Account, AccountStatus}
use gpt2api_image.Accounts.Table.{
  AccountsPage, PageSize, accounts_page_count, current_accounts, selected_tokens, abnormal_tokens,
}
use gpt2api_image.Accounts.Handlers.{
  Request, Deletion, Refresh, load_accounts, accounts_loaded, handle_delete_tokens, tokens_deleted,
  handle_refresh_accounts, accounts_refreshed, open_edit_dialog, handle_update_account,
  account_updated, toggle_select_all, select_row, imported, set_query, set_type_filter,
  set_status_filter, set_page_size, previous_page, next_page, go_to_page,
}

-- A row is named by its place in the table, and an item of the pager by its place there. Closing the
-- dialog is `setEditingAccount(null)`.
pub data Event : Type 0 where
  load : Bool → Event
  loaded : Bool → Outcome (List Account) → Event
  delete_selected delete_abnormal refresh_selected refresh_all : Event
  delete_row refresh_row edit_row : ℕ → Event
  deleted : Outcome Deletion → Event
  refreshed : Outcome Refresh → Event
  choose_status : AccountStatus → Event
  update close_dialog : Event
  updated : Outcome (List Account) → Event
  select_all : Bool → Event
  select_at : ℕ → Bool → Event
  import_done : List Account → Event
  search_for filter_type : Text → Event
  filter_status : Option AccountStatus → Event
  choose_page_size : PageSize → Event
  previous next : Event
  pick_page : ℕ → Event

abbrev pub Step : Type 0
Step = List Request × AccountsPage

abbrev pub silently : AccountsPage → Step
silently page = ([], page)

abbrev pub on_row : Option Account → (Account → Step) → AccountsPage → Step
on_row none f page = silently page
on_row (some account) f page = f account

abbrev pub on_item : Option PageItem → AccountsPage → AccountsPage
on_item (some (number page_number)) page = go_to_page page_number page
on_item (some dots) page = page
on_item none page = page

abbrev pub row_at : Host → ℕ → AccountsPage → Option Account
row_at host index page = head (drop index (current_accounts host page))

abbrev pub item_at : Host → ℕ → AccountsPage → Option PageItem
item_at host index page =
    let pages = accounts_page_count host page in
    head (drop index (pagination_items pages (safe_page page.page pages)))

unfoldable pub step : Host → Event → AccountsPage → Step
step host (load silent) page = load_accounts silent page
step host (loaded silent answer) page = silently (accounts_loaded silent answer page)
step host delete_selected page = handle_delete_tokens (selected_tokens page) false page
step host delete_abnormal page = handle_delete_tokens (abnormal_tokens page) true page
step host (delete_row index) page =
    on_row (row_at host index page)
      (λ account. handle_delete_tokens (account.access_token ∷ []) false page) page
step host (deleted answer) page = silently (tokens_deleted host answer page)
step host refresh_selected page = handle_refresh_accounts (selected_tokens page) page
step host refresh_all page =
    handle_refresh_accounts (map (λ item. item.access_token) page.accounts) page
step host (refresh_row index) page =
    on_row (row_at host index page)
      (λ account. handle_refresh_accounts (account.access_token ∷ []) page) page
step host (refreshed answer) page = silently (accounts_refreshed host answer page)
step host (edit_row index) page =
    on_row (row_at host index page) (λ account. silently (open_edit_dialog account page)) page
step host (choose_status status) page = silently (record page { edit_status = status })
step host update page = handle_update_account page
step host close_dialog page = silently (record page { editing_account = none })
step host (updated answer) page = silently (account_updated answer page)
step host (select_all checked) page = silently (toggle_select_all host checked page)
step host (select_at index checked) page =
    on_row (row_at host index page) (λ account. silently (select_row account checked page)) page
step host (import_done items) page = silently (imported items page)
step host (search_for value) page = silently (set_query value page)
step host (filter_type value) page = silently (set_type_filter value page)
step host (filter_status value) page = silently (set_status_filter value page)
step host (choose_page_size value) page = silently (set_page_size value page)
step host previous page = silently (previous_page page)
step host next page = silently (next_page host page)
step host (pick_page index) page = silently (on_item (item_at host index page) page)

-- The page after a series of events.
unfoldable pub run_events : Host → List Event → AccountsPage → AccountsPage
unfolding step
run_events host [] page = page
run_events host (event ∷ events) page = run_events host events (step host event page).1
