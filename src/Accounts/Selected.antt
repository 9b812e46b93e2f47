-- ===== src/Accounts/Selected.antt =====
-- web/src/app/accounts/page.tsx: which accounts are selected.
use gpt2api_image.Base.{
  ℕ, Text, ◌==◌, Bool, true, false, Option, none, some, List, [], ◌∷◌, map, any, head, ◌≡◌, refl,
  arith, Option-cases, inl, inr,
}
use gpt2api_image.Base.Host.{Host}
use gpt2api_image.Selection.{
  answered, failed, IsWithin, has_key, toggle, has_key-map, retain-IsWithin, toggle-IsWithin,
  any-filter, any-drop,
}
use gpt2api_image.Paging.Whole.{current_rows-any}
use gpt2api_image.Accounts.Table.{size_of, filtered_accounts}
use gpt2api_image.Paging.{PageItem, number, dots}
use gpt2api_image.Accounts.{Account}
use gpt2api_image.Accounts.Table.{AccountsPage, accounts_of, mount, current_accounts, is_matched}
use gpt2api_image.Accounts.Handlers.{
  token_of, receive, load_accounts, accounts_loaded, handle_delete_tokens, tokens_deleted,
  handle_refresh_accounts, accounts_refreshed, open_edit_dialog, handle_update_account,
  account_updated, toggle_select_all, select_row, imported, set_query, set_type_filter,
  set_status_filter, set_page_size, previous_page, next_page, go_to_page,
}
use gpt2api_image.Accounts.Events

-- Whatever is found among the rows of the table is among the accounts.
pub current_accounts-any :
    (host : Host) (page : AccountsPage) (p : Account → Bool)
    → any p (current_accounts host page) ≡ true
    → any p page.accounts ≡ true
unfolding current_accounts
current_accounts-any host page p h =
    any-filter p (is_matched host page) page.accounts
      (current_rows-any p (filtered_accounts host page) page.page (size_of page.page_size) h)

-- The selected accounts are shown accounts, and the cache of the module holds what is shown.
pub record IsConsistent (page : AccountsPage) : Type 0 where
  pub selected_shown : IsWithin token_of page.accounts page.selected_ids
  pub cached_shown : page.accounts ≡ accounts_of page.cached_accounts

pub mount-IsConsistent : (cached : Option (List Account)) → IsConsistent (mount cached)
unfolding mount
mount-IsConsistent cached = record { selected_shown = λ id h. cc; cached_shown = refl }

kept :
    (page page' : AccountsPage)
    → page'.accounts ≡ page.accounts
    → page'.cached_accounts ≡ page.cached_accounts
    → page'.selected_ids ≡ page.selected_ids
    → IsConsistent page
    → IsConsistent page'
kept page page' a b s c = record {
  selected_shown = rw (a, s) c.selected_shown;
  cached_shown = rw (a, b) c.cached_shown;
}

received : (items : List Account) (page : AccountsPage) → IsConsistent (receive items page)
unfolding receive
received items page = record {
  selected_shown = retain-IsWithin token_of items page.selected_ids;
  cached_shown = refl;
}

toggled :
    (ids : List Text) (checked : Bool) (page : AccountsPage)
    → IsWithin token_of page.accounts ids
    → IsConsistent page
    → IsConsistent (record page { selected_ids = toggle ids checked page.selected_ids })
toggled ids checked page own c = record {
  selected_shown =
      toggle-IsWithin token_of page.accounts ids checked page.selected_ids own c.selected_shown;
  cached_shown = c.cached_shown;
}

-- What is asked for a row leaves the three alone, or selects a row of the table.
on_row-IsConsistent :
    (row : Option Account) (f : Account → Events.Step) (page : AccountsPage)
    → ((account : Account) → row ≡ some account → IsConsistent (f account).1)
    → IsConsistent page
    → IsConsistent (Events.on_row row f page).1
on_row-IsConsistent none f page h c = c
on_row-IsConsistent (some account) f page h c = h account refl

on_item-IsConsistent :
    (item : Option PageItem) (page : AccountsPage)
    → IsConsistent page
    → IsConsistent (Events.on_item item page)
unfolding go_to_page
on_item-IsConsistent none page c = c
on_item-IsConsistent (some dots) page c = c
on_item-IsConsistent (some (number n)) page c = kept page _ refl refl refl c

handle_delete-IsConsistent :
    (tokens : List Text) (mailboxes : Bool) (page : AccountsPage)
    → IsConsistent page
    → IsConsistent (handle_delete_tokens tokens mailboxes page).1
unfolding handle_delete_tokens
handle_delete-IsConsistent [] mailboxes page c = kept page _ refl refl refl c
handle_delete-IsConsistent (token ∷ tokens) mailboxes page c = kept page _ refl refl refl c

handle_refresh-IsConsistent :
    (tokens : List Text) (page : AccountsPage)
    → IsConsistent page
    → IsConsistent (handle_refresh_accounts tokens page).1
unfolding handle_refresh_accounts
handle_refresh-IsConsistent [] page c = kept page _ refl refl refl c
handle_refresh-IsConsistent (token ∷ tokens) page c = kept page _ refl refl refl c

-- A row that is looked up in the table is an account.
any_head :
    (id : Text) (rows : List Account) (account : Account)
    → head rows ≡ some account
    → account.access_token == id ≡ true
    → has_key token_of id rows ≡ true
any_head id [] account h e = cc
any_head id (row ∷ rows) account h e = ground (arith, h, e)

pub row_shown :
    (host : Host) (index : ℕ) (page : AccountsPage) (account : Account)
    → Events.row_at host index page ≡ some account
    → IsWithin token_of page.accounts (account.access_token ∷ [])
row_shown host index page account h id e =
    current_accounts-any host page (λ item. item.access_token == id)
      (any-drop (λ item. item.access_token == id) index (current_accounts host page)
        (any_head id _ account h (ground (arith, e))))

rows_shown :
    (host : Host) (page : AccountsPage)
    → IsWithin token_of page.accounts (map token_of (current_accounts host page))
rows_shown host page id e =
    current_accounts-any host page (λ item. item.access_token == id)
      (rw (has_key-map token_of id (current_accounts host page)) at e)

step-IsConsistent :
    (host : Host) (event : Events.Event) (page : AccountsPage)
    → IsConsistent page
    → IsConsistent (Events.step host event page).1
unfolding Events.step load_accounts accounts_loaded tokens_deleted accounts_refreshed
    open_edit_dialog handle_update_account account_updated toggle_select_all select_row imported
    set_query set_type_filter set_status_filter set_page_size previous_page next_page
step-IsConsistent host (Events.load true) page c = c
step-IsConsistent host (Events.load false) page c = kept page _ refl refl refl c
step-IsConsistent host (Events.loaded true (answered items)) page c = received items page
step-IsConsistent host (Events.loaded false (answered items)) page c =
    kept (receive items page) _ refl refl refl (received items page)
step-IsConsistent host (Events.loaded true (failed message)) page c = c
step-IsConsistent host (Events.loaded false (failed message)) page c = kept page _ refl refl refl c
step-IsConsistent host Events.delete_selected page c = handle_delete-IsConsistent _ false page c
step-IsConsistent host Events.delete_abnormal page c = handle_delete-IsConsistent _ true page c
step-IsConsistent host (Events.delete_row index) page c =
    on_row-IsConsistent (Events.row_at host index page) _ page
      (λ account h. handle_delete-IsConsistent _ false page c) c
step-IsConsistent host (Events.deleted (answered answer)) page c =
    kept (receive answer.items page) _ refl refl refl (received answer.items page)
step-IsConsistent host (Events.deleted (failed message)) page c = kept page _ refl refl refl c
step-IsConsistent host Events.refresh_selected page c = handle_refresh-IsConsistent _ page c
step-IsConsistent host Events.refresh_all page c = handle_refresh-IsConsistent _ page c
step-IsConsistent host (Events.refresh_row index) page c =
    on_row-IsConsistent (Events.row_at host index page) _ page
      (λ account h. handle_refresh-IsConsistent _ page c) c
step-IsConsistent host (Events.refreshed (answered answer)) page c =
    kept (receive answer.items page) _ refl refl refl (received answer.items page)
step-IsConsistent host (Events.refreshed (failed message)) page c = kept page _ refl refl refl c
step-IsConsistent host (Events.edit_row index) page c =
    on_row-IsConsistent (Events.row_at host index page) _ page
      (λ account h. kept page _ refl refl refl c) c
step-IsConsistent host (Events.choose_status status) page c = kept page _ refl refl refl c
step-IsConsistent host Events.update page c = elim (Option-cases page.editing_account) [
  | inl nothing ↦ rw (nothing, handle_update_account) c
  | inr (account, e) ↦ rw (e, handle_update_account) (kept page _ refl refl refl c)
]
step-IsConsistent host Events.close_dialog page c = kept page _ refl refl refl c
step-IsConsistent host (Events.updated (answered items)) page c =
    kept (receive items page) _ refl refl refl (received items page)
step-IsConsistent host (Events.updated (failed message)) page c = kept page _ refl refl refl c
step-IsConsistent host (Events.select_all checked) page c =
    toggled _ checked page (rows_shown host page) c
step-IsConsistent host (Events.select_at index checked) page c =
    on_row-IsConsistent (Events.row_at host index page) _ page
      (λ account h. toggled _ checked page (row_shown host index page account h) c) c
step-IsConsistent host (Events.import_done items) page c = record {
  selected_shown = λ id h. cc;
  cached_shown = refl;
}
step-IsConsistent host (Events.pick_page index) page c =
    on_item-IsConsistent (Events.item_at host index page) page c
step-IsConsistent host event page c = kept page _ refl refl refl c

pub run_events-IsConsistent :
    (host : Host) (events : List Events.Event) (page : AccountsPage)
    → IsConsistent page
    → IsConsistent (Events.run_events host events page)
unfolding Events.run_events
run_events-IsConsistent host [] page c = c
run_events-IsConsistent host (event ∷ events) page c =
    run_events-IsConsistent host events (Events.step host event page).1
      (step-IsConsistent host event page c)
