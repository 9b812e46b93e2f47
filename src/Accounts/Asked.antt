-- ===== src/Accounts/Asked.antt =====
-- web/src/app/accounts/page.tsx: which accounts the buttons ask for.
use gpt2api_image.Base.{
  ◌<◌, Text, eq_iff, Bool, true, false, not, ◌&&◌, Option, none, some, List, [], ◌∷◌, map, filter,
  All, all, contains, length, ◌≡◌, refl, sym, ap, ◌∙◌, arith, Option-cases, inl, inr, if◌then◌else◌,
  is_empty,
}
use gpt2api_image.Base.Host.{Host}
use gpt2api_image.Selection.{
  IsWithin, has_key, toggle, contains-chosen, contains-toggle, has_key-map,
}
use gpt2api_image.Accounts.{Account, abnormal, same_status}
use gpt2api_image.Accounts.Table.{
  AccountsPage, mount, current_accounts, selected_tokens, abnormal_tokens, all_current_selected,
}
use gpt2api_image.Accounts.Handlers.{
  Request, fetch_accounts, delete_accounts, refresh_accounts, update_account, token_of,
  load_accounts, handle_delete_tokens, handle_refresh_accounts, handle_update_account,
  toggle_select_all,
}
use gpt2api_image.Accounts.Events
use gpt2api_image.Accounts.Selected.{
  IsConsistent, run_events-IsConsistent, row_shown, mount-IsConsistent,
}

-- Whatever the user and the server did since the page was mounted, and in whatever order: only shown
-- accounts are selected, the buttons for the selection send just the selected tokens, and a remount
-- shows the same accounts.
pub run_events-selected_tokens :
    (host : Host) (events : List Events.Event) (cached : Option (List Account))
    → let page = Events.run_events host events (mount cached) in
      IsConsistent page
      × ((id : Text) → contains id (selected_tokens page) ≡ contains id page.selected_ids)
      × ((mount page.cached_accounts).accounts ≡ page.accounts)
unfolding selected_tokens mount
run_events-selected_tokens host events cached =
    let page = Events.run_events host events (mount cached) in
    let c : IsConsistent page =
      run_events-IsConsistent host events (mount cached) (mount-IsConsistent cached) in
    (
      c,
      (λ id. ground (
        arith,
        contains-chosen token_of (λ k. contains k page.selected_ids) id page.accounts,
        c.selected_shown id,
      )),
      sym c.cached_shown,
    )

all-selected :
    (selected : List Text) (rows : List Account)
    → ((id : Text) → has_key token_of id rows ≡ true → contains id selected ≡ true)
    → all (λ row. contains row.access_token selected) rows ≡ true
all-selected selected [] h = refl
all-selected selected (row ∷ rows) h = ground (
  arith,
  h row.access_token,
  (eq_iff row.access_token row.access_token).1 refl,
  all-selected selected rows (λ id e. h id (ground (arith, e))),
)

box-checked :
    (rows : List Account) (checked : Bool) (old selected : List Text)
    → ((id : Text)
        → contains id selected ≡ (if has_key token_of id rows then checked else contains id old))
    → (not (is_empty rows) && all (λ row. contains row.access_token selected) rows)
      ≡ (not (is_empty rows) && checked)
box-checked [] checked old selected h = refl
box-checked (row ∷ rows) true old selected h =
    all-selected selected (row ∷ rows)
      (λ id e. h id ∙ ap (λ b. if b then true else contains id old) e)
box-checked (row ∷ rows) false old selected h =
    ground (arith, h row.access_token, (eq_iff row.access_token row.access_token).1 refl)

-- The box above the table selects every account of the page that is shown, or none of them, and leaves the
-- selection of all other accounts as it was. It is then shown checked as it was clicked, unless the
-- table is empty.
toggle_select_all_lem :
    (host : Host) (checked : Bool) (page : AccountsPage)
    → let page' = toggle_select_all host checked page in
      let rows = current_accounts host page in
      ((id : Text)
        → contains id page'.selected_ids
          ≡ (if has_key token_of id rows then checked else contains id page.selected_ids))
      × (all_current_selected host page' ≡ (not (is_empty rows) && checked))
unfolding toggle_select_all all_current_selected
toggle_select_all_lem host checked page =
    let rows = current_accounts host page in
    let selected = toggle (map token_of rows) checked page.selected_ids in
    let chosen : (id : Text)
        → contains id selected
          ≡ (if has_key token_of id rows then checked else contains id page.selected_ids) =
      λ id.
        contains-toggle id (map token_of rows) checked page.selected_ids
        ∙ ap (λ b. if b then checked else contains id page.selected_ids)
            (has_key-map token_of id rows) in
    (chosen, box-checked rows checked page.selected_ids selected chosen)

-- A request to delete or refresh names an account at least, and only accounts of the page; with their
-- mailboxes only abnormal ones are deleted. A status is changed for the account that is edited.
abbrev pub IsAsked : AccountsPage → Request → Type 0
IsAsked page fetch_accounts = Unit
IsAsked page (delete_accounts tokens mailboxes) =
    (0 < length tokens)
    × IsWithin token_of
        (if mailboxes
          then filter (λ item. same_status item.status abnormal) page.accounts
          else page.accounts)
        tokens
IsAsked page (refresh_accounts tokens) =
    (0 < length tokens) × IsWithin token_of page.accounts tokens
IsAsked page (update_account token status) =
    (account : Account) × (page.editing_account ≡ some account)
    × (token ≡ account.access_token)
    × (status ≡ page.edit_status)

abbrev deletable : Bool → AccountsPage → List Account
deletable mailboxes page =
    if mailboxes
    then filter (λ item. same_status item.status abnormal) page.accounts
    else page.accounts

handle_delete-IsAsked :
    (tokens : List Text) (mailboxes : Bool) (page : AccountsPage)
    → IsWithin token_of (deletable mailboxes page) tokens
    → All (IsAsked page) (handle_delete_tokens tokens mailboxes page).0
unfolding handle_delete_tokens
handle_delete-IsAsked [] mailboxes page own = tt
handle_delete-IsAsked (token ∷ tokens) mailboxes page own = ((omega arith, own), tt)

handle_refresh-IsAsked :
    (tokens : List Text) (page : AccountsPage)
    → IsWithin token_of page.accounts tokens
    → All (IsAsked page) (handle_refresh_accounts tokens page).0
unfolding handle_refresh_accounts
handle_refresh-IsAsked [] page own = tt
handle_refresh-IsAsked (token ∷ tokens) page own = ((omega arith, own), tt)

on_row-IsAsked :
    (row : Option Account) (f : Account → Events.Step) (page : AccountsPage)
    → ((account : Account) → row ≡ some account → All (IsAsked page) (f account).0)
    → All (IsAsked page) (Events.on_row row f page).0
on_row-IsAsked none f page h = tt
on_row-IsAsked (some account) f page h = h account refl

selected-IsWithin : (page : AccountsPage) → IsWithin token_of page.accounts (selected_tokens page)
unfolding selected_tokens
selected-IsWithin page id h =
    ground (arith, h, contains-chosen token_of (λ k. contains k page.selected_ids) id page.accounts)

abnormal-IsWithin :
    (page : AccountsPage) → IsWithin token_of (deletable true page) (abnormal_tokens page)
unfolding abnormal_tokens
abnormal-IsWithin page id h = rw (has_key-map token_of id (deletable true page)) at h

-- Whatever the user or the server does: what is asked to be deleted or refreshed is an account of the page
-- at least, and accounts of the page only; mailboxes are deleted only with abnormal accounts; and a
-- status is set for the account that is edited.
pub step-IsAsked :
    (host : Host) (event : Events.Event) (page : AccountsPage)
    → All (IsAsked page) (Events.step host event page).0
unfolding Events.step load_accounts handle_update_account
step-IsAsked host (Events.load silent) page = (tt, tt)
step-IsAsked host Events.delete_selected page =
    handle_delete-IsAsked _ false page (selected-IsWithin page)
step-IsAsked host Events.delete_abnormal page =
    handle_delete-IsAsked _ true page (abnormal-IsWithin page)
step-IsAsked host (Events.delete_row index) page =
    on_row-IsAsked (Events.row_at host index page) _ page
      (λ account h. handle_delete-IsAsked _ false page (row_shown host index page account h))
step-IsAsked host Events.refresh_selected page =
    handle_refresh-IsAsked _ page (selected-IsWithin page)
step-IsAsked host Events.refresh_all page =
    handle_refresh-IsAsked _ page (λ id h. rw (has_key-map token_of id page.accounts) at h)
step-IsAsked host (Events.refresh_row index) page =
    on_row-IsAsked (Events.row_at host index page) _ page
      (λ account h. handle_refresh-IsAsked _ page (row_shown host index page account h))
step-IsAsked host (Events.edit_row index) page =
    on_row-IsAsked (Events.row_at host index page) _ page (λ account h. tt)
step-IsAsked host (Events.select_at index checked) page =
    on_row-IsAsked (Events.row_at host index page) _ page (λ account h. tt)
step-IsAsked host Events.update page = elim (Option-cases page.editing_account) [
  | inl nothing ↦ rw (nothing, handle_update_account) tt
  | inr (account, e) ↦ rw (e, handle_update_account) ((account, refl, refl, refl), tt)
]
step-IsAsked host event page = tt
