-- ===== src/Imports/Dialog.antt =====
-- web/src/app/accounts/components/account-import-dialog.tsx: the state of the dialog and its handlers.
use gpt2api_image.Base.{
  ℕ, ◌+◌, ◌-◌, Text, text, ◌==◌, trim, truthy, show, Bool, true, false, not, ◌&&◌, ◌||◌, Option,
  none, some, List, [], ◌∷◌, ◌++◌, map, filter, is_empty, length, contains, ltb, if◌then◌else◌,
}
use gpt2api_image.Base.Host.{Host}
use gpt2api_image.Selection.{Outcome, answered, failed, message_of, Toast, success, warning, error}
use gpt2api_image.Accounts.{Account}
use gpt2api_image.Imports.{
  Parsed, AccountSourceType, web, codex, get_account_access_token, get_account_refresh_token,
  get_account_source_type,
}

pub data ImportMethod : Type 0 where
  menu token session json : ImportMethod

pub record PendingJsonImport : Type 0 where
  pub tokens : List Text
  pub records : List Parsed
  pub parsed_file_count : ℕ
  pub error_count : ℕ

-- The state of the dialog, with the toasts that were shown.
pub record ImportDialog : Type 0 where
  pub open_ : Bool
  pub method : ImportMethod
  pub token_input : Text
  pub session_input : Text
  pub source_type : AccountSourceType
  pub is_submitting : Bool
  pub pending_json_import : Option PendingJsonImport
  pub confirm_open : Bool
  pub toasts : List Toast

abbrev pub show_toast : Toast → ImportDialog → ImportDialog
show_toast toast dialog = record dialog { toasts = dialog.toasts ++ toast ∷ [] }

unfoldable pub reset_state : ImportDialog → ImportDialog
reset_state dialog = record dialog {
  method = menu;
  token_input = [];
  session_input = [];
  source_type = web;
  pending_json_import = none;
  confirm_open = false;
}

unfoldable pub handle_open_change : Bool → ImportDialog → ImportDialog
unfolding reset_state
handle_open_change next_open dialog =
    let changed = record dialog { open_ = next_open } in
    if next_open then changed else reset_state changed

-- The request: the arguments of `createAccounts`
pub record Import : Type 0 where
  pub tokens : List Text
  pub source_type : AccountSourceType
  pub records : List Parsed

abbrev pub is_codex : AccountSourceType → Bool
is_codex codex = true
is_codex web = false

abbrev pub or_source : Option AccountSourceType → AccountSourceType → AccountSourceType
or_source none source = source
or_source (some own) source = own

-- `submitTokens`: the tokens and records that count
unfoldable pub normalized_tokens : List Text → List Text
unfolding trim
normalized_tokens tokens = filter truthy (map trim tokens)

unfoldable pub normalized_records : List Parsed → List Parsed
unfolding get_account_access_token
normalized_records = filter (λ item. truthy (get_account_access_token item))

-- `submitTokens`: the tokens that no record has
unfoldable pub token_only : List Text → List Parsed → List Text
unfolding get_account_access_token
token_only tokens records =
    let record_tokens = map get_account_access_token records in
    filter (λ item. not (contains item record_tokens)) tokens

-- `submitTokens`: a Codex record without a refresh token
unfoldable pub misses_refresh : Host → AccountSourceType → Parsed → Bool
unfolding get_account_source_type get_account_refresh_token
misses_refresh host source item =
    is_codex (or_source (get_account_source_type host item) source)
    && not (truthy (get_account_refresh_token item))

-- `submitTokens`, before its request: what is sent, if nothing is wrong
unfoldable pub submit_tokens :
    Host
    → List Text
    → Option AccountSourceType
    → List Parsed
    → ImportDialog
    → Option Import × ImportDialog
unfolding normalized_tokens normalized_records token_only misses_refresh show
submit_tokens host tokens override account_records dialog =
    let given = normalized_tokens tokens in
    let records = normalized_records account_records in
    let source = or_source override dialog.source_type in
    let missing = filter (misses_refresh host source) records in
    if is_empty given && is_empty records
    then (none, show_toast (error (text "请先提供至少一个可用 Token")) dialog)
    else if is_codex source && not (is_empty (token_only given records))
    then (
      none,
      show_toast (error (text "Codex account import requires account JSON with refresh_token"))
          dialog,
    )
    else if not (is_empty missing)
    then (
      none,
      show_toast
          (error (text "Codex account JSON missing refresh_token: " ++ show (length missing)))
          dialog,
    )
    else (
      some (record { tokens = given; source_type = source; records = records }),
      record dialog { is_submitting = true },
    )

-- The answer; of the errors only the messages are read.
pub record Created : Type 0 where
  pub items : List Account
  pub status : Option Text
  pub added : Option ℕ
  pub skipped : Option ℕ
  pub write_attempted : Option ℕ
  pub saved : Option ℕ
  pub validated_saved : Option ℕ
  pub refreshed : Option ℕ
  pub errors : Option (List Text)
  pub refresh_failed : Option ℕ

-- `value ?? other`
abbrev count_or : Option ℕ → ℕ → ℕ
count_or none other = other
count_or (some n) other = n

abbrev errors_of : Option (List Text) → List Text
errors_of none = []
errors_of (some errors) = errors

abbrev is_partial : Option Text → Bool
is_partial none = false
is_partial (some status) = status == text "partial"

abbrev first_error : List Text → Text
first_error [] = []
first_error (message ∷ messages) = if truthy message then text "，首个错误：" ++ message else []

unfoldable pub created_toast : Text → Created → Toast
unfolding show
created_toast success_text answer =
    let attempted =
      count_or answer.write_attempted (count_or answer.added 0 + count_or answer.skipped 0) in
    let saved = count_or answer.saved attempted in
    let validated_saved = count_or answer.validated_saved saved in
    let errors = errors_of answer.errors in
    let refresh_failed = count_or answer.refresh_failed (length errors) in
    let unavailable = attempted - validated_saved in
    if ltb 0 (length errors) || ltb 0 unavailable || is_partial answer.status
    then warning (
        success_text
        ++ (text "，已保存 "
            ++ (show saved
                ++ (text " 个，可用 "
                    ++ (show validated_saved
                        ++ (text " 个，新增 "
                            ++ (show (count_or answer.added 0)
                                ++ (text " 个，已刷新 "
                                    ++ (show (count_or answer.refreshed 0)
                                        ++ (text " 个，刷新失败 "
                                            ++ (show refresh_failed
                                                ++ (text " 个"
                                                    ++ ((if ltb 0 unavailable
                                                          then text "，不可用/已清理 "
                                                            ++ (show unavailable ++ text " 个")
                                                          else [])
                                                        ++ first_error errors)))))))))))))
    else success (
        success_text
        ++ (text "，新增 "
            ++ (show (count_or answer.added 0)
                ++ (text " 个，跳过 "
                    ++ (show (count_or answer.skipped 0)
                        ++ (text " 个重复项，可用 " ++ (show validated_saved ++ text " 个，已自动刷新账号信息")))))))

-- `submitTokens`, after its request: the accounts that the page is given, and the dialog
unfoldable pub tokens_submitted :
    Text → Outcome Created → ImportDialog → Option (List Account) × ImportDialog
unfolding reset_state created_toast
tokens_submitted success_text (answered answer) dialog = (
  some answer.items,
  record (show_toast (created_toast success_text answer)
      (reset_state (record dialog { open_ = false }))) { is_submitting = false },
)
tokens_submitted success_text (failed message) dialog = (
  none,
  record (show_toast (error (message_of message (text "导入账户失败"))) dialog) { is_submitting = false },
)
