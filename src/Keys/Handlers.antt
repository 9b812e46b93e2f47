-- ===== src/Keys/Handlers.antt =====
-- web/src/app/keys/components/user-keys-card.tsx: the handlers, each up to its request and after it. The item
-- that a handler was called with, or that its closure has seen, is an argument of what comes after.
use gpt2api_image.Base.{
  Text, text, ◌or◌, trim, truthy, Bool, true, false, not, ◌||◌, Option, none, some, List, [], ◌∷◌,
  ◌++◌, if◌then◌else◌,
}
use gpt2api_image.Selection.{Outcome, answered, failed, message_of, Toast, success, error}
use gpt2api_image.Keys.{UserKey, UserKeysCard}

-- The requests: `createUserKey`, `updateUserKey` with a flag or a name, `fetchUserKeyPlaintext`,
-- `regenerateUserKey` and `deleteUserKey`. A key that is left out is made by the server.
pub data Request : Type 0 where
  fetch_user_keys : Request
  create_user_key : Text → Option Text → Request
  enable_user_key : Text → Bool → Request
  rename_user_key : Text → Text → Request
  fetch_user_key_plaintext : Text → Request
  regenerate_user_key : Text → Option Text → Request
  delete_user_key : Text → Request

abbrev pub show_toast : Toast → UserKeysCard → UserKeysCard
show_toast toast card = record card { toasts = card.toasts ++ toast ∷ [] }

abbrev show_failure : Option Text → Text → UserKeysCard → UserKeysCard
show_failure message fallback = show_toast (error (message_of message fallback))

-- `cachedItems = data.items; setItems(data.items);`
unfoldable pub show_items : List UserKey → UserKeysCard → UserKeysCard
show_items items card = record card { cached_items = some items; items = items }

-- `text || undefined`
abbrev pub or_undefined : Text → Option Text
or_undefined [] = none
or_undefined (c ∷ s) = some (c ∷ s)

-- `loadItems`
unfoldable pub load_items : Bool → UserKeysCard → List Request × UserKeysCard
load_items show_loading card =
    (fetch_user_keys ∷ [], if show_loading then record card { is_loading = true } else card)

unfoldable pub items_loaded : Bool → Outcome (List UserKey) → UserKeysCard → UserKeysCard
unfolding show_items
items_loaded show_loading (answered items) card =
    let shown = show_items items card in
    if show_loading then record shown { is_loading = false } else shown
items_loaded show_loading (failed message) card =
    let shown = show_failure message (text "加载 API 密钥失败") card in
    if show_loading then record shown { is_loading = false } else shown

-- An answer with one key: the key, its text in the clear and all keys
pub record WithKey : Type 0 where
  pub item : UserKey
  pub key : Text
  pub items : List UserKey

unfoldable pub handle_create : UserKeysCard → List Request × UserKeysCard
unfolding trim
handle_create card = (
  create_user_key (trim card.create_name or text "API 密钥") (or_undefined (trim card.create_key))
      ∷ [],
  record card { is_submitting = true },
)

unfoldable pub key_created : Outcome WithKey → UserKeysCard → UserKeysCard
unfolding show_items
key_created (answered answer) card =
    record (show_toast (success (text "API 密钥已创建")) (show_items answer.items card)) {
      create_open = false;
      create_name = [];
      create_key = [];
      plain_dialog = some (record { item = answer.item; value = answer.key });
      is_submitting = false;
    }
key_created (failed message) card = record (show_failure message (text "创建 API 密钥失败") card) {
  is_submitting = false;
}

unfoldable pub handle_toggle : UserKey → UserKeysCard → List Request × UserKeysCard
handle_toggle item card =
    (enable_user_key item.id (not item.enabled) ∷ [], record card { busy_id = some item.id })

unfoldable pub key_toggled : UserKey → Outcome (List UserKey) → UserKeysCard → UserKeysCard
unfolding show_items
key_toggled item (answered items) card =
    record (show_toast (success (if item.enabled then text "API 密钥已停用" else text "API 密钥已启用"))
      (show_items items card)) { busy_id = none }
key_toggled item (failed message) card = record (show_failure message (text "更新 API 密钥失败") card) {
  busy_id = none;
}

unfoldable pub open_edit : UserKey → UserKeysCard → UserKeysCard
open_edit item card = record card { edit_item = some item; edit_name = item.name }

unfoldable pub handle_edit : UserKeysCard → List Request × UserKeysCard
unfolding trim
handle_edit card = elim card.edit_item [
  | none ↦ ([], card)
  | some item ↦
      let name = trim card.edit_name in
      if not (truthy name)
      then ([], show_toast (error (text "名称不能为空")) card)
      else (rename_user_key item.id name ∷ [], record card { is_submitting = true })
]

unfoldable pub key_edited : Outcome (List UserKey) → UserKeysCard → UserKeysCard
unfolding show_items
key_edited (answered items) card =
    record (show_toast (success (text "API 密钥已更新")) (show_items items card)) {
      edit_item = none;
      is_submitting = false;
    }
key_edited (failed message) card = record (show_failure message (text "更新 API 密钥失败") card) {
  is_submitting = false;
}

unfoldable pub handle_show_key : UserKey → UserKeysCard → List Request × UserKeysCard
handle_show_key item card =
    (fetch_user_key_plaintext item.id ∷ [], record card { busy_id = some item.id })

-- The answer is whether the server still has the key, and the key.
unfoldable pub key_fetched : UserKey → Outcome (Bool × Text) → UserKeysCard → UserKeysCard
key_fetched item (answered (key_visible, key)) card =
    if not key_visible || not (truthy key)
    then record (show_toast (error (text "这条旧密钥没有保存原文，请重置后再复制")) card) { busy_id = none }
    else record card { plain_dialog = some (record { item = item; value = key }); busy_id = none }
key_fetched item (failed message) card = record (show_failure message (text "读取 API 密钥失败") card) {
  busy_id = none;
}

unfoldable pub handle_reset : UserKeysCard → List Request × UserKeysCard
unfolding trim
handle_reset card = elim card.reset_item [
  | none ↦ ([], card)
  | some item ↦ (
    regenerate_user_key item.id (or_undefined (trim card.reset_key)) ∷ [],
    record card { is_submitting = true },
  )
]

unfoldable pub key_reset : Outcome WithKey → UserKeysCard → UserKeysCard
unfolding show_items
key_reset (answered answer) card =
    record (show_toast (success (text "API 密钥已重置")) (show_items answer.items card)) {
      plain_dialog = some (record { item = answer.item; value = answer.key });
      reset_item = none;
      reset_key = [];
      is_submitting = false;
    }
key_reset (failed message) card = record (show_failure message (text "重置 API 密钥失败") card) {
  is_submitting = false;
}

unfoldable pub handle_delete : UserKeysCard → List Request × UserKeysCard
handle_delete card = elim card.delete_item [
  | none ↦ ([], card)
  | some item ↦ (delete_user_key item.id ∷ [], record card { is_submitting = true })
]

unfoldable pub key_deleted : Outcome (List UserKey) → UserKeysCard → UserKeysCard
unfolding show_items
key_deleted (answered items) card =
    record (show_toast (success (text "API 密钥已删除")) (show_items items card)) {
      delete_item = none;
      is_submitting = false;
    }
key_deleted (failed message) card = record (show_failure message (text "删除 API 密钥失败") card) {
  is_submitting = false;
}

-- The search, whose effect goes back to the first page
unfoldable pub search_for : Text → UserKeysCard → UserKeysCard
search_for query card = record card { query = query; page = 1 }
