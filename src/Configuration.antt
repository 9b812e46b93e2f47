-- ===== src/Configuration.antt =====
-- web/src/app/settings/store.ts: the system configuration, how an answer of the server is read and what
-- is sent when it is saved. The fields of one kind are a function of their name.
pub mod Bounds
use gpt2api_image.Base.{
  dedupe, Text, text, ◌==◌, trim, truthy, Bool, true, false, not, ◌&&◌, ◌||◌, Option, none, some,
  List, [], ◌∷◌, ◌++◌, map, any, filter, is_empty, if◌then◌else◌, eqb, ℕ,
}
use gpt2api_image.Base.Num.{Num, num, num_or, max_num}
use gpt2api_image.Base.Host.{Host}
use gpt2api_image.Conversation.Raw.{
  Value, boolean, is_truthy_value, null, number, string, text_of, to_number, to_text, undefined,
}

pub data NumberField : Type 0 where
  refresh_account_interval_minute image_retention_days image_max_storage_mb
        image_poll_timeout_secs :
      NumberField
  image_poll_interval_secs image_poll_initial_wait_secs image_account_concurrency : NumberField
  image_account_fallback_attempts delete_403_consecutive delete_timeout_consecutive : NumberField
  auto_refresh_accounts_interval_minutes auto_refresh_accounts_batch_size : NumberField
  auto_cleanup_accounts_interval_seconds : NumberField

pub data FlagField : Type 0 where
  cleanup_protect_user_images auto_remove_invalid_accounts auto_remove_rate_limited_accounts :
      FlagField
  auto_delete_quota_zero_accounts auto_delete_upload_quota_zero_accounts
        auto_refresh_accounts_enabled :
      FlagField
  auto_refresh_delete_failed_accounts auto_refresh_trigger_refill auto_cleanup_accounts_enabled :
      FlagField
  auto_refill_use_effective_available : FlagField

-- `none` in a list is what is no array.
pub record SettingsConfig : Type 0 where
  pub numbers : NumberField → Value
  pub flags : FlagField → Value
  pub log_levels : Option (List Text)
  pub proxy : Value
  pub image_route_strategy : Value
  pub base_url : Value
  pub global_system_prompt : Value
  pub sensitive_words : Option (List Value)
  pub backup : Value
  pub backup_state : Value

-- What stands behind the `||` of a number.
abbrev pub default_of : NumberField → ℕ
default_of refresh_account_interval_minute = 60
default_of image_retention_days = 15
default_of image_max_storage_mb = 0
default_of image_poll_timeout_secs = 120
default_of image_poll_interval_secs = 4
default_of image_poll_initial_wait_secs = 0
default_of image_account_concurrency = 3
default_of image_account_fallback_attempts = 3
default_of delete_403_consecutive = 2
default_of delete_timeout_consecutive = 2
default_of auto_refresh_accounts_interval_minutes = 60
default_of auto_refresh_accounts_batch_size = 0
default_of auto_cleanup_accounts_interval_seconds = 60

-- The least number that is sent.
abbrev pub least_of : NumberField → ℕ
least_of image_max_storage_mb = 0
least_of image_poll_initial_wait_secs = 0
least_of auto_refresh_accounts_batch_size = 0
least_of auto_cleanup_accounts_interval_seconds = 10
least_of _ = 1

abbrev pub list_or_empty {ℓ} : {A : Type ℓ} → Option (List A) → List A
list_or_empty none = []
list_or_empty (some xs) = xs

-- `Boolean(v ?? true)`
abbrev pub flag_of : Value → Bool
flag_of undefined = true
flag_of null = true
flag_of v = is_truthy_value v

-- `typeof v === "string" ? v : ""`
abbrev pub string_of : Value → Value
string_of (string s) = string s
string_of _ = string []

module _ (host : Host) where
  -- `Math.max(least, Number(v) || d)`
  unfoldable pub clamp_from : ℕ → ℕ → Value → Num
  unfolding max_num num_or to_number
  clamp_from least d v = max_num (num least) (num_or (to_number host v) (num d))

  -- `String(v || d)`
  abbrev pub text_or : Value → Text → Text
  text_or v d = if is_truthy_value v then to_text host v else d

  -- `Number(v || d)`, but for the storage limit
  unfoldable pub read_number : NumberField → Value → Num
  unfolding is_truthy_value to_number clamp_from
  read_number image_max_storage_mb v = clamp_from 0 0 v
  read_number field v = if is_truthy_value v then to_number host v else num (default_of field)

  -- `normalizeConfig`
  unfoldable pub normalize_config : SettingsConfig → SettingsConfig
  unfolding read_number is_truthy_value to_text
  normalize_config config = record config {
    numbers = λ field. number (read_number field (config.numbers field));
    flags = λ field. boolean (flag_of (config.flags field));
    log_levels = some (list_or_empty config.log_levels);
    proxy = string_of config.proxy;
    image_route_strategy = string (text_or config.image_route_strategy (text "web_first"));
    base_url = string_of config.base_url;
    global_system_prompt = string (text_or config.global_system_prompt []);
    sensitive_words = some (list_or_empty config.sensitive_words);
  }

  -- `sanitized` of `saveConfig`
  unfoldable pub sanitize_config : SettingsConfig → SettingsConfig
  unfolding clamp_from is_truthy_value to_text trim
  sanitize_config config = record config {
    numbers =
        λ field. number (clamp_from (least_of field) (default_of field) (config.numbers field));
    flags = λ field. boolean (flag_of (config.flags field));
    proxy = string (trim (text_or config.proxy []));
    image_route_strategy = string (trim (text_or config.image_route_strategy (text "web_first")));
    base_url = string (trim (text_or config.base_url []));
    global_system_prompt = string (trim (text_or config.global_system_prompt []));
    sensitive_words = some (
        map (λ word. string word)
          (filter truthy
            (map (λ word. trim (to_text host word)) (list_or_empty config.sensitive_words))));
    backup = undefined;
    backup_state = undefined;
  }
