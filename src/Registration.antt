-- ===== src/Registration.antt =====
-- web/src/app/settings/store.ts: the store around the registration: how an answer is read, and the
-- operations, each cut at its request. The counters of the statistics and the log are left
-- aside, and so are loading silently and the automatic refill before an answer was read.
pub mod Setters
pub mod Runtime
use gpt2api_image.Base.{
  ℕ, zero, suc, insert, remove_at, Text, text, ◌==◌, trim, Bool, true, false, not, Option, none,
  some, List, [], ◌∷◌, ◌++◌, map, if◌then◌else◌,
}
use gpt2api_image.Base.Num.{Num, num, num_or}
use gpt2api_image.Base.Host.{Host}
use gpt2api_image.Conversation.Raw.{
  Value, boolean, is_truthy_value, number, object, string, to_number, to_text, undefined,
}
use gpt2api_image.Configuration.{clamp_from, text_or}
use gpt2api_image.Register.{
  AutoRefill, Decision, Provider, RegisterConfig, RegisterMail, RegisterStats, Request,
  get_register_runtime_state, number_or, or_truthy, or_value, providers_or_empty,
  read_stall_timeout, refuse, send,
}

module _ (host : Host) where
  -- `normalizeRegister`
  unfoldable pub normalize_register : RegisterConfig → RegisterConfig
  unfolding clamp_from is_truthy_value to_number to_text read_stall_timeout
  normalize_register config = record config {
    mail = record config.mail {
      request_timeout = number (number_or host config.mail.request_timeout 30);
      wait_timeout = number (number_or host config.mail.wait_timeout 180);
      wait_interval = number (number_or host config.mail.wait_interval 5);
      providers = some (providers_or_empty config.mail.providers);
    };
    proxy = string (text_or host config.proxy []);
    task_timeout_seconds = number (clamp_from host 30 300 config.task_timeout_seconds);
    task_stall_timeout_seconds = number (read_stall_timeout host config.task_stall_timeout_seconds);
    total = number (number_or host config.total 1);
    threads = number (number_or host config.threads 1);
    mode = or_truthy config.mode (string (text "total"));
    target_quota = number (number_or host config.target_quota 1);
    target_available = number (number_or host config.target_available 1);
    check_interval = number (number_or host config.check_interval 5);
    fixed_password = string (text_or host config.fixed_password []);
    auto_refill = record {
      enabled = boolean (is_truthy_value config.auto_refill.enabled);
      min_available = number (clamp_from host 1 30 config.auto_refill.min_available);
      batch_total = number (clamp_from host 1 100 config.auto_refill.batch_total);
      check_interval = number (clamp_from host 10 300 config.auto_refill.check_interval);
    };
    stats = record config.stats {
      running = number (number_or host config.stats.running 0);
      lifecycle =
          string (text_or host (or_truthy config.stats.lifecycle config.lifecycle) (text "idle"));
      is_running = boolean (is_truthy_value (or_value config.stats.is_running config.is_running));
      is_stopping =
          boolean (is_truthy_value (or_value config.stats.is_stopping config.is_stopping));
    };
  }

-- The part of the store that is about the registration, with the toasts that were shown.
pub record RegisterStore : Type 0 where
  pub register_config : Option RegisterConfig
  pub is_loading_register : Bool
  pub is_saving_register : Bool
  pub toasts : List Text

-- The answer of the server, or the message of the error.
pub data RegisterAnswer : Type 0 where
  answered : RegisterConfig → RegisterAnswer
  failed : Text → RegisterAnswer

abbrev pub show_toast : Text → RegisterStore → RegisterStore
show_toast message store = record store { toasts = store.toasts ++ message ∷ [] }

-- What an operation does before its request: the request that it sends, if it sends one
unfoldable pub begin_operation : Decision → RegisterStore → Option Request × RegisterStore
begin_operation (refuse none) store = (none, store)
begin_operation (refuse (some warning)) store = (none, show_toast warning store)
begin_operation (send request) store = (some request, record store { is_saving_register = true })

module _ (host : Host) where
  -- `loadRegister`, when it is not silent, and when it is
  unfoldable pub register_loaded : Bool → RegisterAnswer → RegisterStore → RegisterStore
  unfolding normalize_register
  register_loaded silent (answered config) store =
      let read = record store { register_config = some (normalize_register host config) } in
      if silent then read else record read { is_loading_register = false }
  register_loaded silent (failed message) store =
      if silent then store else record (show_toast message store) { is_loading_register = false }

  -- `setRegisterConfig`
  unfoldable pub set_register_config : RegisterConfig → RegisterStore → RegisterStore
  unfolding normalize_register
  set_register_config config store = record store {
    register_config = some (normalize_register host config);
    is_loading_register = false;
  }

  -- What an operation does after its request; the toast may depend on what was answered.
  abbrev pub end_operation :
      (RegisterConfig → Text) → RegisterAnswer → RegisterStore → RegisterStore
  end_operation message (answered config) store =
      let read = normalize_register host config in
      record (show_toast (message read) store) {
        register_config = some read;
        is_saving_register = false;
      }
  end_operation message (failed error) store = record (show_toast error store) {
    is_saving_register = false;
  }

  -- `saveRegister` and `resetRegister`
  unfoldable pub register_saved : RegisterAnswer → RegisterStore → RegisterStore
  unfolding normalize_register
  register_saved = end_operation (λ config. text "注册配置已保存")

  unfoldable pub register_reset : RegisterAnswer → RegisterStore → RegisterStore
  unfolding normalize_register
  register_reset = end_operation (λ config. text "注册统计已重置")

  abbrev toggled_message : Bool → RegisterConfig → Text
  toggled_message was_running config =
      let next = get_register_runtime_state host config in
      if was_running
      then text "已请求停止注册任务"
      else if next.is_stopping
      then text "注册任务仍在停止清理中，请稍后再启动"
      else if next.is_running
      then text "已请求启动注册任务"
      else text "注册任务未启动，请检查注册执行器日志"

  -- `toggleRegister` of a registration that ran, or did not
  unfoldable pub register_toggled : Bool → RegisterAnswer → RegisterStore → RegisterStore
  unfolding normalize_register get_register_runtime_state
  register_toggled was_running = end_operation (toggled_message was_running)

  -- `repairAbnormalRegisterAccounts` of a registration that repaired, or did not
  unfoldable pub accounts_repaired : Bool → RegisterAnswer → RegisterStore → RegisterStore
  unfolding normalize_register
  accounts_repaired was_repairing =
      end_operation (λ config. if was_repairing then text "已请求停止异常账号修复" else text "已请求启动异常账号修复")

-- `loadRegister`, before its request
unfoldable pub load_register : Bool → RegisterStore → RegisterStore
load_register silent store = if silent then store else record store { is_loading_register = true }
