-- ===== src/Settings.antt =====
-- web/src/app/settings/store.ts: the part of the store that is about the system configuration: loading,
-- editing, saving and reverting it.
pub mod Saving
use gpt2api_image.Base.{
  dedupe, Text, text, ◌==◌, trim, truthy, Bool, true, false, not, ◌&&◌, ◌||◌, Option, none, some,
  List, [], ◌∷◌, ◌++◌, map, any, filter, is_empty, if◌then◌else◌, eqb, ℕ,
}
use gpt2api_image.Base.Num.{Num, num, num_or, max_num}
use gpt2api_image.Base.Host.{Host}
use gpt2api_image.Conversation.Raw.{
  Value, boolean, is_truthy_value, null, number, string, text_of, to_number, to_text, undefined,
}
use gpt2api_image.Configuration.{
  NumberField, FlagField, SettingsConfig, default_of, least_of, list_or_empty, flag_of, string_of,
  clamp_from, text_or, read_number, normalize_config, sanitize_config,
  refresh_account_interval_minute, image_retention_days, image_max_storage_mb,
  image_poll_timeout_secs, image_poll_interval_secs, image_poll_initial_wait_secs,
  image_account_concurrency, image_account_fallback_attempts, delete_403_consecutive,
  delete_timeout_consecutive, auto_refresh_accounts_interval_minutes,
  auto_refresh_accounts_batch_size, auto_cleanup_accounts_interval_seconds,
  cleanup_protect_user_images, auto_remove_invalid_accounts, auto_remove_rate_limited_accounts,
  auto_delete_quota_zero_accounts, auto_delete_upload_quota_zero_accounts,
  auto_refresh_accounts_enabled, auto_refresh_delete_failed_accounts, auto_refresh_trigger_refill,
  auto_cleanup_accounts_enabled, auto_refill_use_effective_available,
}

-- The part of the store that is about the configuration, with the toasts that were shown.
pub record Store : Type 0 where
  pub config : Option SettingsConfig
  pub is_loading_config : Bool
  pub is_saving_config : Bool
  pub is_dirty : Bool
  pub toasts : List Text

abbrev pub show_toast : Text → Store → Store
show_toast message store = record store { toasts = store.toasts ++ message ∷ [] }

-- The answer of the server, or the message of the error.
pub data Answer : Type 0 where
  answered : SettingsConfig → Answer
  failed : Text → Answer

abbrev is_loaded : Option SettingsConfig → Bool
is_loaded none = false
is_loaded (some c) = true

abbrev receive : Host → SettingsConfig → Store → Store
receive host config store = record store {
  config = some (normalize_config host config);
  is_dirty = false;
}

-- `loadConfig`, before and after its request; what is known already is loaded again silently.
unfoldable pub load_config : Store → Bool × Store
load_config store =
    let silent = is_loaded store.config in
    (silent, if silent then store else record store { is_loading_config = true })

unfoldable pub config_loaded : Host → Bool → Answer → Store → Store
unfolding normalize_config
config_loaded host silent (answered config) store =
    let received = receive host config store in
    if silent then received else record received { is_loading_config = false }
config_loaded host silent (failed message) store =
    if silent then store else record (show_toast message store) { is_loading_config = false }

-- `revertConfig`, after its request
unfoldable pub revert_config : Host → Answer → Store → Store
unfolding normalize_config
revert_config host (answered config) store =
    show_toast (text "已撤销未保存修改") (receive host config store)
revert_config host (failed message) store = show_toast message store

-- `saveConfig`, before its request: what is sent, if there is something to send
unfoldable pub save_config : Host → Store → Option SettingsConfig × Store
unfolding sanitize_config
save_config host store = elim store.config [
  | none ↦ (none, store)
  | some config ↦ (some (sanitize_config host config), record store { is_saving_config = true })
]

-- `saveConfig`, after its request
unfoldable pub config_saved : Host → Answer → Store → Bool × Store
unfolding normalize_config
config_saved host (answered config) store = (
  true,
  record (show_toast (text "配置已保存") (receive host config store)) { is_saving_config = false },
)
config_saved host (failed message) store =
    (false, record (show_toast message store) { is_saving_config = false })

abbrev same_number : NumberField → NumberField → Bool
same_number refresh_account_interval_minute refresh_account_interval_minute = true
same_number image_retention_days image_retention_days = true
same_number image_max_storage_mb image_max_storage_mb = true
same_number image_poll_timeout_secs image_poll_timeout_secs = true
same_number image_poll_interval_secs image_poll_interval_secs = true
same_number image_poll_initial_wait_secs image_poll_initial_wait_secs = true
same_number image_account_concurrency image_account_concurrency = true
same_number image_account_fallback_attempts image_account_fallback_attempts = true
same_number delete_403_consecutive delete_403_consecutive = true
same_number delete_timeout_consecutive delete_timeout_consecutive = true
same_number auto_refresh_accounts_interval_minutes auto_refresh_accounts_interval_minutes = true
same_number auto_refresh_accounts_batch_size auto_refresh_accounts_batch_size = true
same_number auto_cleanup_accounts_interval_seconds auto_cleanup_accounts_interval_seconds = true
same_number _ _ = false

abbrev pub edit : (SettingsConfig → SettingsConfig) → Store → Store
edit f store = elim store.config [
  | none ↦ store
  | some config ↦ record store { config = some (f config); is_dirty = true }
]

-- The setters of the numbers, which take the text that was typed
unfoldable pub set_number : NumberField → Text → Store → Store
set_number field value = edit (λ config. record config {
  numbers = λ f. if same_number f field then string value else config.numbers f;
})

abbrev same_flag : FlagField → FlagField → Bool
same_flag cleanup_protect_user_images cleanup_protect_user_images = true
same_flag auto_remove_invalid_accounts auto_remove_invalid_accounts = true
same_flag auto_remove_rate_limited_accounts auto_remove_rate_limited_accounts = true
same_flag auto_delete_quota_zero_accounts auto_delete_quota_zero_accounts = true
same_flag auto_delete_upload_quota_zero_accounts auto_delete_upload_quota_zero_accounts = true
same_flag auto_refresh_accounts_enabled auto_refresh_accounts_enabled = true
same_flag auto_refresh_delete_failed_accounts auto_refresh_delete_failed_accounts = true
same_flag auto_refresh_trigger_refill auto_refresh_trigger_refill = true
same_flag auto_cleanup_accounts_enabled auto_cleanup_accounts_enabled = true
same_flag auto_refill_use_effective_available auto_refill_use_effective_available = true
same_flag _ _ = false

-- The setters of the flags
unfoldable pub set_flag : FlagField → Bool → Store → Store
set_flag field value = edit (λ config. record config {
  flags = λ f. if same_flag f field then boolean value else config.flags f;
})

pub data TextField : Type 0 where
  proxy_text image_route_strategy_text base_url_text global_system_prompt_text : TextField

abbrev pub put_text : TextField → Value → SettingsConfig → SettingsConfig
put_text proxy_text v config = record config { proxy = v }
put_text image_route_strategy_text v config = record config { image_route_strategy = v }
put_text base_url_text v config = record config { base_url = v }
put_text global_system_prompt_text v config = record config { global_system_prompt = v }

-- The setters of the texts
unfoldable pub set_text : TextField → Text → Store → Store
set_text field value = edit (put_text field (string value))

abbrev add_to_first : ℕ → List Text → List Text
add_to_first c [] = (c ∷ []) ∷ []
add_to_first c (line ∷ lines) = (c ∷ line) ∷ lines

-- `value.split("\n")`
unfoldable pub split_lines : Text → List Text
split_lines [] = [] ∷ []
split_lines (c ∷ s) =
    let lines = split_lines s in if eqb c 10 then [] ∷ lines else add_to_first c lines

-- `setSensitiveWordsText`
unfoldable pub set_sensitive_words_text : Text → Store → Store
unfolding split_lines
set_sensitive_words_text value = edit (λ config. record config {
  sensitive_words = some (map (λ line. string line) (split_lines value));
})

-- `setLogLevel`: a set, in the order of insertion
unfoldable pub set_log_level : Text → Bool → Store → Store
unfolding ◌==◌
set_log_level level enabled = edit (λ config.
    let levels = dedupe (list_or_empty config.log_levels) in
    record config {
      log_levels = some (
          if enabled
          then if any (λ l. l == level) levels then levels else levels ++ level ∷ []
          else filter (λ l. not (l == level)) levels);
    })
