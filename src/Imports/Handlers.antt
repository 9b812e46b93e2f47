-- ===== src/Imports/Handlers.antt =====
-- web/src/app/accounts/components/account-import-dialog.tsx: the buttons and the file inputs. A file is its
-- name and its content; reading a file and `JSON.parse` are arguments, which may throw.
use gpt2api_image.Base.{
  join_lines, ◌-◌, Text, text, ◌==◌, trim, truthy, show, true, not, Option, none, some, List, [],
  ◌∷◌, ◌++◌, map, filter, filter_map, is_empty, length, if◌then◌else◌,
}
use gpt2api_image.Base.Host.{Host}
use gpt2api_image.Conversation.Raw.{string}
use gpt2api_image.Selection.{Outcome, answered, failed, message_of, success, error}
use gpt2api_image.Imports.{
  Parsed, fields, primitive, web, split_tokens, get_session_access_token, get_account_access_token,
}
use gpt2api_image.Imports.Dialog.{
  ImportDialog, PendingJsonImport, Import, show_toast, submit_tokens,
}

unfoldable pub handle_import_token_text : Host → ImportDialog → Option Import × ImportDialog
unfolding submit_tokens split_tokens
handle_import_token_text host dialog =
    submit_tokens host (split_tokens dialog.token_input) none [] dialog

-- `handleTxtSelected`, once the file has been read
unfoldable pub handle_txt_selected : Text → Outcome Text → ImportDialog → ImportDialog
unfolding split_tokens show
handle_txt_selected name (answered content) dialog =
    let tokens = split_tokens content in
    if is_empty tokens
    then show_toast (error (text "TXT 文件里没有读取到有效 Token")) dialog
    else record (show_toast
        (success
          (text "已从 " ++ (name ++ (text " 读取 " ++ (show (length tokens) ++ text " 个 Token")))))
        dialog) { token_input = join_lines (split_tokens dialog.token_input ++ tokens) }
handle_txt_selected name (failed message) dialog =
    show_toast (error (message_of message (text "读取 TXT 文件失败"))) dialog

unfoldable pub handle_import_session_json :
    Host → (Text → Outcome Parsed) → ImportDialog → Option Import × ImportDialog
unfolding submit_tokens get_session_access_token
handle_import_session_json host parse dialog =
    if not (truthy (trim dialog.session_input))
    then (none, show_toast (error (text "请先粘贴完整 Session JSON")) dialog)
    else elim (parse dialog.session_input) [
      | failed message ↦
          (none, show_toast (error (message_of message (text "Session JSON 解析失败"))) dialog)
      | answered payload ↦
          let token = get_session_access_token payload in
          if not (truthy token)
          then (none, show_toast (error (text "未从 Session JSON 中提取到 accessToken")) dialog)
          else submit_tokens host (token ∷ []) (some web) [] dialog
    ]

-- `{ ...parsed, import_file_name: file.name }` of an object, and `null` of anything else
unfoldable pub named_record : Text × Parsed → Option Parsed
named_record (name, fields f) =
    some (fields (λ key. if key == text "import_file_name" then string name else f key))
named_record (name, primitive value) = none

-- `handleJsonSelected`: what is kept of the files that were parsed
unfoldable pub pending_import : List (Text × Parsed) → PendingJsonImport
unfolding named_record get_account_access_token
pending_import results =
    let records =
      filter (λ item. truthy (get_account_access_token item)) (filter_map named_record results) in
    record {
      tokens = filter truthy (map (λ file. get_account_access_token file.1) results);
      records = records;
      parsed_file_count = length records;
      error_count = length results - length records;
    }

-- `handleJsonSelected`, once the files have been read and parsed
unfoldable pub handle_json_selected : Outcome (List (Text × Parsed)) → ImportDialog → ImportDialog
unfolding pending_import
handle_json_selected (answered []) dialog = dialog
handle_json_selected (answered (file ∷ files)) dialog =
    let pending = pending_import (file ∷ files) in
    if is_empty pending.records
    then show_toast (error (text "这些 JSON 文件里没有读取到可用 access_token")) dialog
    else record dialog { pending_json_import = some pending; confirm_open = true }
handle_json_selected (failed message) dialog =
    show_toast (error (message_of message (text "读取 JSON 文件失败"))) dialog

abbrev pending_tokens : Option PendingJsonImport → List Text
pending_tokens none = []
pending_tokens (some pending) = pending.tokens

abbrev pending_records : Option PendingJsonImport → List Parsed
pending_records none = []
pending_records (some pending) = pending.records

-- The button that confirms the import
unfoldable pub confirm_import : Host → ImportDialog → Option Import × ImportDialog
unfolding submit_tokens
confirm_import host dialog =
    submit_tokens host (pending_tokens dialog.pending_json_import) (some dialog.source_type)
      (pending_records dialog.pending_json_import) dialog
