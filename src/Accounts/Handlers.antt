-- ===== src/Accounts/Handlers.antt =====
-- web/src/app/accounts/page.tsx: the handlers, each up to its request and after it.
use gpt2api_image.Base.{
  ℕ, ◌+◌, ◌-◌, Text, text, truthy, show, Bool, true, false, not, ◌||◌, Option, none, some, List, [],
  ◌∷◌, ◌++◌, map, length, is_empty, if◌then◌else◌,
}
use gpt2api_image.Base.Num.{Num, num, lt_num}
use gpt2api_image.Base.Host.{Host}
use gpt2api_image.Selection.{
  Outcome, answered, failed, message_of, Toast, success, warning, error, toggle, retain,
}
use gpt2api_image.Paging.{max, min}
use gpt2api_image.Accounts.{Account, AccountStatus}
use gpt2api_image.Accounts.Table.{AccountsPage, PageSize, current_accounts, accounts_page_count}

-- The requests of the page: `fetchAccounts`, `deleteAccountsWithOptions`, `refreshAccounts` and
-- `updateAccount`. `deleteAccounts` deletes without the mailboxes.
pub data Request : Type 0 where
  fetch_accounts : Request
  delete_accounts : List Text → Bool → Request
  refresh_accounts : List Text → Request
  update_account : Text → AccountStatus → Request

abbrev pub show_toast : Toast → AccountsPage → AccountsPage
show_toast toast page = record page { toasts = page.toasts ++ toast ∷ [] }

abbrev pub token_of : Account → Text
token_of account = account.access_token

-- `setAccounts`, and the selection kept to the accounts that are left
unfoldable pub receive : List Account → AccountsPage → AccountsPage
unfolding retain
receive items page = record page {
  cached_accounts = some items;
  accounts = items;
  selected_ids = retain token_of items page.selected_ids;
}

-- `loadAccounts`
unfoldable pub load_accounts : Bool → AccountsPage → List Request × AccountsPage
load_accounts silent page =
    (fetch_accounts ∷ [], if silent then page else record page { is_loading = true })

unfoldable pub accounts_loaded : Bool → Outcome (List Account) → AccountsPage → AccountsPage
unfolding receive
accounts_loaded silent (answered items) page =
    let received = receive items page in
    if silent then received else record received { is_loading = false }
accounts_loaded silent (failed message) page =
    if silent then page else record (show_toast (error (message_of message (text "加载账户失败"))) page) {
      is_loading = false;
    }

-- `handleDeleteTokens`
unfoldable pub handle_delete_tokens : List Text → Bool → AccountsPage → List Request × AccountsPage
handle_delete_tokens [] mailboxes page = ([], show_toast (error (text "请先选择要删除的账户")) page)
handle_delete_tokens (token ∷ tokens) mailboxes page =
    (delete_accounts (token ∷ tokens) mailboxes ∷ [], record page { is_deleting = true })

-- The answer: the accounts left and `removed`
pub record Deletion : Type 0 where
  pub items : List Account
  pub removed : Option Num

-- `value ?? 0`
abbrev pub or_zero : Option Num → Num
or_zero none = num 0
or_zero (some n) = n

unfoldable pub tokens_deleted : Host → Outcome Deletion → AccountsPage → AccountsPage
unfolding receive
tokens_deleted host (answered answer) page =
    record (show_toast
      (success (text "删除 " ++ (host.show_num (or_zero answer.removed) ++ text " 个账户")))
      (receive answer.items page)) { is_deleting = false }
tokens_deleted host (failed message) page =
    record (show_toast (error (message_of message (text "删除账户失败"))) page) { is_deleting = false }

-- `handleRefreshAccounts`
unfoldable pub handle_refresh_accounts : List Text → AccountsPage → List Request × AccountsPage
handle_refresh_accounts [] page = ([], show_toast (error (text "没有需要刷新的账户")) page)
handle_refresh_accounts (token ∷ tokens) page =
    (refresh_accounts (token ∷ tokens) ∷ [], record page { is_refreshing = true })

-- The answer; of the errors only the messages are read.
pub record Refresh : Type 0 where
  pub items : List Account
  pub refreshed : Num
  pub removed_unusable : Option Num
  pub cleanup_removed : Option Num
  pub errors : List Text

unfoldable pub cleanup_summary : Host → Refresh → Text
unfolding lt_num
cleanup_summary host answer =
    let removed_unusable = or_zero answer.removed_unusable in
    let cleanup_removed = or_zero answer.cleanup_removed in
    if lt_num (num 0) removed_unusable || lt_num (num 0) cleanup_removed
    then text "，本次清理不可用 "
      ++ (host.show_num removed_unusable
          ++ (text " 个，历史清理 " ++ (host.show_num cleanup_removed ++ text " 个")))
    else []

abbrev pub first_error : List Text → Text
first_error [] = []
first_error (message ∷ messages) = if truthy message then text "，首个错误：" ++ message else []

unfoldable pub refresh_toast : Host → Refresh → Toast
unfolding cleanup_summary show
refresh_toast host answer =
    let cleanup = cleanup_summary host answer in
    if not (is_empty answer.errors)
    then error (
        text "刷新成功 "
        ++ (host.show_num answer.refreshed
            ++ (text " 个，失败 "
                ++ (show (length answer.errors)
                    ++ (text " 个" ++ (cleanup ++ first_error answer.errors))))))
    else if truthy cleanup
    then warning (text "刷新成功 " ++ (host.show_num answer.refreshed ++ (text " 个账户" ++ cleanup)))
    else success (text "刷新成功 " ++ (host.show_num answer.refreshed ++ text " 个账户"))

unfoldable pub accounts_refreshed : Host → Outcome Refresh → AccountsPage → AccountsPage
unfolding receive refresh_toast
accounts_refreshed host (answered answer) page =
    record (show_toast (refresh_toast host answer) (receive answer.items page)) {
      is_refreshing = false;
    }
accounts_refreshed host (failed message) page =
    record (show_toast (error (message_of message (text "刷新账户失败"))) page) { is_refreshing = false }

unfoldable pub open_edit_dialog : Account → AccountsPage → AccountsPage
open_edit_dialog account page = record page {
  editing_account = some account;
  edit_status = account.status;
}

-- `handleUpdateAccount`
unfoldable pub handle_update_account : AccountsPage → List Request × AccountsPage
handle_update_account page = elim page.editing_account [
  | none ↦ ([], page)
  | some account ↦ (
    update_account account.access_token page.edit_status ∷ [],
    record page { is_updating = true },
  )
]

unfoldable pub account_updated : Outcome (List Account) → AccountsPage → AccountsPage
unfolding receive
account_updated (answered items) page =
    record (show_toast (success (text "账号信息已更新")) (receive items page)) {
      editing_account = none;
      is_updating = false;
    }
account_updated (failed message) page =
    record (show_toast (error (message_of message (text "更新账号失败"))) page) { is_updating = false }

-- `toggleSelectAll`
unfoldable pub toggle_select_all : Host → Bool → AccountsPage → AccountsPage
unfolding current_accounts toggle
toggle_select_all host checked page = record page {
  selected_ids = toggle (map token_of (current_accounts host page)) checked page.selected_ids;
}

-- The box of one row
unfoldable pub select_row : Account → Bool → AccountsPage → AccountsPage
unfolding toggle
select_row account checked page = record page {
  selected_ids = toggle (account.access_token ∷ []) checked page.selected_ids;
}

-- `onImported`
unfoldable pub imported : List Account → AccountsPage → AccountsPage
imported items page = record page {
  cached_accounts = some items;
  accounts = items;
  selected_ids = [];
  page = 1;
}

-- The fields above the table and the pager below it
unfoldable pub set_query : Text → AccountsPage → AccountsPage
set_query value page = record page { query = value; page = 1 }

unfoldable pub set_type_filter : Text → AccountsPage → AccountsPage
set_type_filter value page = record page { type_filter = value; page = 1 }

unfoldable pub set_status_filter : Option AccountStatus → AccountsPage → AccountsPage
set_status_filter value page = record page { status_filter = value; page = 1 }

unfoldable pub set_page_size : PageSize → AccountsPage → AccountsPage
set_page_size value page = record page { page_size = value; page = 1 }

unfoldable pub previous_page : AccountsPage → AccountsPage
previous_page page = record page { page = max 1 (page.page - 1) }

unfoldable pub next_page : Host → AccountsPage → AccountsPage
unfolding accounts_page_count
next_page host page = record page { page = min (accounts_page_count host page) (page.page + 1) }

unfoldable pub go_to_page : ℕ → AccountsPage → AccountsPage
go_to_page number page = record page { page = number }
