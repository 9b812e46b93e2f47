-- ===== src/Tests/Tables.antt =====
-- web/src/app/accounts/page.tsx and its import dialog at a few accounts.
use gpt2api_image.Base.{
  ℕ, ◌≤◌, ◌<◌, Text, text, ◌==◌, ◌++◌, true, false, ◌≡◌, refl, ◌⊎◌, none, some, List, [], ◌∷◌, All,
  contains, length, arith, if◌then◌else◌,
}
use gpt2api_image.Base.Num.{num}
use gpt2api_image.Conversation.Raw.{undefined, string}
use gpt2api_image.Selection.{answered}
use gpt2api_image.Paging.{page_count, current_rows, pagination_items}
use gpt2api_image.Paging.Whole.{rows_upto, rows_upto-all}
use gpt2api_image.Paging.Trail.{IsTrail, shows, pagination_items-IsTrail}
use gpt2api_image.Accounts.{Account, AccountStatus, normal, abnormal}
use gpt2api_image.Accounts.Table.{mount, selected_tokens}
use gpt2api_image.Accounts.Events
use gpt2api_image.Accounts.Selected.{IsConsistent}
use gpt2api_image.Accounts.Asked.{IsAsked, run_events-selected_tokens, step-IsAsked}
use gpt2api_image.Imports.{Parsed, fields, web, codex, split_tokens}
use gpt2api_image.Imports.Dialog.{ImportDialog, menu, submit_tokens}
use gpt2api_image.Imports.Handlers.{handle_import_token_text, handle_txt_selected}
use gpt2api_image.Imports.Sendable.{Submits, submit_tokens-IsSendable}
use gpt2api_image.Imports.Reading.{import_of, split_tokens-handle_txt_selected}
use gpt2api_image.Tests.Data.{plain_host}

abbrev numbers : List ℕ
numbers = 1 ∷ 2 ∷ 3 ∷ []

rows_upto-all_example :
    (rows_upto numbers 2 (page_count 3 2) ≡ numbers)
    × (length (current_rows numbers 5 2) ≤ 2)
    × ((length numbers ≡ 0) ⊎ (0 < length (current_rows numbers 5 2)))
rows_upto-all_example = rows_upto-all numbers 2 5 (omega arith) (omega arith)

pagination_items-IsTrail_example :
    IsTrail 0 (pagination_items 9 5) 9 × (shows 5 (pagination_items 9 5) ≡ true)
pagination_items-IsTrail_example = pagination_items-IsTrail 9 5 (omega arith) (omega arith)

abbrev account : Text → AccountStatus → Account
account token status = record {
  access_token = token;
  account_type = text "Plus";
  source_type = none;
  status = status;
  quota = num 3;
  initial_quota = none;
  image_quota_unknown = false;
  upload_quota = none;
  upload_quota_unknown = true;
  email = none;
  restore_at = none;
  rate_limit_reset_at = none;
  pending_delete = false;
}

abbrev two_accounts : List Account
two_accounts = account (text "a") normal ∷ account (text "b") abnormal ∷ []

abbrev some_events : List Events.Event
some_events =
    Events.select_all true ∷ Events.loaded true (answered (account (text "b") normal ∷ [])) ∷ []

run_events-selected_tokens_example :
    let page = Events.run_events plain_host some_events (mount (some two_accounts)) in
    IsConsistent page
    × ((id : Text) → contains id (selected_tokens page) ≡ contains id page.selected_ids)
    × ((mount page.cached_accounts).accounts ≡ page.accounts)
run_events-selected_tokens_example =
    run_events-selected_tokens plain_host some_events (some two_accounts)

step-IsAsked_example :
    All
      (IsAsked (mount (some two_accounts)))
      (Events.step plain_host Events.delete_abnormal (mount (some two_accounts))).0
step-IsAsked_example = step-IsAsked plain_host Events.delete_abnormal (mount (some two_accounts))

abbrev dialog : ImportDialog
dialog = record {
  open_ = true;
  method = menu;
  token_input = text "x\ny";
  session_input = [];
  source_type = web;
  is_submitting = false;
  pending_json_import = none;
  confirm_open = false;
  toasts = [];
}

abbrev codex_record : Parsed
codex_record = fields (λ key.
    if key == text "access_token"
    then string (text " t ")
    else if key == text "refresh_token"
    then string (text "r")
    else undefined)

submit_tokens-IsSendable_example :
    Submits plain_host dialog
      (submit_tokens plain_host (text "t" ∷ []) (some codex) (codex_record ∷ []) dialog)
submit_tokens-IsSendable_example =
    submit_tokens-IsSendable plain_host (text "t" ∷ []) (some codex) (codex_record ∷ []) dialog

split_tokens-handle_txt_selected_example :
    let content = text " a\r\n\nb" in
    let chosen = handle_txt_selected (text "f.txt") (answered content) dialog in
    let tokens = split_tokens (text "x\ny") ++ split_tokens content in
    (split_tokens chosen.token_input ≡ tokens)
    × ((handle_import_token_text plain_host chosen).0 ≡ import_of dialog.source_type tokens)
split_tokens-handle_txt_selected_example =
    split_tokens-handle_txt_selected plain_host (text "f.txt") (text " a\r\n\nb") dialog

-- A token typed with white space, in a text with both kinds of break.
read_tokens : split_tokens (text " a\r\n\nb ") ≡ text "a" ∷ text "b" ∷ []
unfolding split_tokens
read_tokens = refl
