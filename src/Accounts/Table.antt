-- ===== src/Accounts/Table.antt =====
-- web/src/app/accounts/page.tsx: the state of the page, and what it shows of the accounts.
use gpt2api_image.Base.{
  ℕ, Text, text, ◌==◌, ◌or?◌, trim, includes, is_empty, dedupe, Bool, true, false, not, ◌&&◌, ◌||◌,
  Option, none, some, List, [], ◌∷◌, map, filter, all, contains, length,
}
use gpt2api_image.Base.Host.{Host}
use gpt2api_image.Paging.{current_rows, page_count}
use gpt2api_image.Selection.{Toast}
use gpt2api_image.Accounts.{
  Account, AccountStatus, normal, limited, abnormal, disabled, same_status, is_usable_account,
  display_account_type,
}

-- The values of the selector below the table.
pub data PageSize : Type 0 where
  ten twenty fifty hundred : PageSize

abbrev pub size_of : PageSize → ℕ
size_of ten = 10
size_of twenty = 20
size_of fifty = 50
size_of hundred = 100

-- The state of the page, with the accounts that the module caches. The status filter "all" is `none`.
pub record AccountsPage : Type 0 where
  pub cached_accounts : Option (List Account)
  pub accounts : List Account
  pub selected_ids : List Text
  pub query : Text
  pub type_filter : Text
  pub status_filter : Option AccountStatus
  pub page : ℕ
  pub page_size : PageSize
  pub editing_account : Option Account
  pub edit_status : AccountStatus
  pub is_loading : Bool
  pub is_refreshing : Bool
  pub is_deleting : Bool
  pub is_updating : Bool
  pub toasts : List Toast

abbrev pub accounts_of : Option (List Account) → List Account
accounts_of none = []
accounts_of (some accounts) = accounts

-- The page when it is mounted, where the accounts may have been cached.
unfoldable pub mount : Option (List Account) → AccountsPage
mount cached = record {
  cached_accounts = cached;
  accounts = accounts_of cached;
  selected_ids = [];
  query = [];
  type_filter = text "all";
  status_filter = none;
  page = 1;
  page_size = ten;
  editing_account = none;
  edit_status = normal;
  is_loading = elim cached [ none ↦ true | some accounts ↦ false ];
  is_refreshing = false;
  is_deleting = false;
  is_updating = false;
  toasts = [];
}

-- The test of `filteredAccounts`
unfoldable pub is_matched : Host → AccountsPage → Account → Bool
unfolding trim includes display_account_type
is_matched host page account =
    let normalized_query = host.lower_case (trim page.query) in
    (is_empty normalized_query
      || includes normalized_query (host.lower_case (account.email or? [])))
    && (page.type_filter == text "all" || display_account_type account == page.type_filter)
    && elim page.status_filter [ none ↦ true | some status ↦ same_status account.status status ]

unfoldable pub filtered_accounts : Host → AccountsPage → List Account
unfolding is_matched
filtered_accounts host page = filter (is_matched host page) page.accounts

-- `pageCount`
unfoldable pub accounts_page_count : Host → AccountsPage → ℕ
unfolding filtered_accounts page_count
accounts_page_count host page =
    page_count (length (filtered_accounts host page)) (size_of page.page_size)

-- `currentRows`
unfoldable pub current_accounts : Host → AccountsPage → List Account
unfolding filtered_accounts current_rows
current_accounts host page =
    current_rows (filtered_accounts host page) page.page (size_of page.page_size)

unfoldable pub all_current_selected : Host → AccountsPage → Bool
unfolding current_accounts
all_current_selected host page =
    let rows = current_accounts host page in
    not (is_empty rows) && all (λ row. contains row.access_token page.selected_ids) rows

-- The tokens that the buttons above the table send.
unfoldable pub selected_tokens : AccountsPage → List Text
selected_tokens page =
    map (λ item. item.access_token)
      (filter (λ item. contains item.access_token page.selected_ids) page.accounts)

unfoldable pub abnormal_tokens : AccountsPage → List Text
abnormal_tokens page =
    map (λ item. item.access_token)
      (filter (λ item. same_status item.status abnormal) page.accounts)

-- The counts of `summary`
pub record Summary : Type 0 where
  pub total : ℕ
  pub active : ℕ
  pub limited_accounts : ℕ
  pub abnormal_accounts : ℕ
  pub disabled_accounts : ℕ

abbrev count_status : AccountStatus → List Account → ℕ
count_status status accounts = length (filter (λ item. same_status item.status status) accounts)

unfoldable pub summary : List Account → Summary
unfolding is_usable_account
summary accounts = record {
  total = length accounts;
  active = length (filter is_usable_account accounts);
  limited_accounts = count_status limited accounts;
  abnormal_accounts = count_status abnormal accounts;
  disabled_accounts = count_status disabled accounts;
}

-- The values of `accountTypeOptions`
unfoldable pub account_type_options : List Account → List Text
unfolding display_account_type
account_type_options accounts = text "all" ∷ dedupe (map display_account_type accounts)
