-- ===== src/Tests/Configurations.antt =====
-- web/src/app/settings/store.ts at a configuration with some fields typed badly, and at a registration
-- that runs.
use gpt2api_image.Base.{Text, ◌++◌, text, ◌≡◌, true, false, none, some, [], ◌∷◌, All}
use gpt2api_image.Base.Num.{Num, num}
use gpt2api_image.Conversation.Raw.{null, number, string, undefined}
use gpt2api_image.Settings.{Store}
use gpt2api_image.Configuration.{SettingsConfig, image_poll_interval_secs, sanitize_config}
use gpt2api_image.Configuration.Bounds.{IsFrom, sanitize_config-IsFrom}
use gpt2api_image.Register.{
  or_truthy, RegisterConfig, build_register_payload, decide_repair, decide_reset, decide_save,
  decide_toggle, get_register_runtime_state, repair_abnormal_accounts, reset_register,
  save_register, start_register,
}
use gpt2api_image.Registration.{RegisterAnswer, RegisterStore, register_toggled}
use gpt2api_image.Registration.Runtime.{HasText, register_toggled-decisions}
use gpt2api_image.Register.Guards.{IsGuarded, decisions-IsGuarded}
use gpt2api_image.Register.Payload.{IsTyped, build_register_payload-IsFrom, keys_kept}
use gpt2api_image.Tests.Data.{plain_host}

abbrev typed : SettingsConfig
typed = record {
  numbers = λ field. string (text "x");
  flags = λ field. null;
  log_levels = none;
  proxy = string (text " p ");
  image_route_strategy = undefined;
  base_url = undefined;
  global_system_prompt = string (text "be brief");
  sensitive_words = some (string (text " a ") ∷ string [] ∷ []);
  backup = undefined;
  backup_state = undefined;
}

sanitize_config-IsFrom_example :
    (n : Num) × ((sanitize_config plain_host typed).numbers image_poll_interval_secs ≡ number n)
    × IsFrom 1 n
sanitize_config-IsFrom_example = sanitize_config-IsFrom plain_host typed image_poll_interval_secs

abbrev store : Store
store = record {
  config = some typed;
  is_loading_config = false;
  is_saving_config = false;
  is_dirty = true;
  toasts = [];
}

abbrev registration : RegisterConfig
registration = record {
  enabled = true;
  lifecycle = undefined;
  is_running = undefined;
  is_stopping = undefined;
  mail = record {
    request_timeout = undefined;
    wait_timeout = undefined;
    wait_interval = undefined;
    providers =
        some
          (((text "type", string (text "m")) ∷ (text "mailboxes_count", number (num 3)) ∷ []) ∷ []);
  };
  proxy = string [];
  task_timeout_seconds = undefined;
  task_stall_timeout_seconds = number (num 0);
  total = string (text "x");
  threads = number (num 0);
  mode = string (text "total");
  target_quota = undefined;
  target_available = undefined;
  check_interval = undefined;
  fixed_password = undefined;
  auto_refill = record {
    enabled = undefined;
    min_available = undefined;
    batch_total = undefined;
    check_interval = undefined;
  };
  stats = record {
    lifecycle = undefined;
    job_kind = undefined;
    running = undefined;
    is_running = undefined;
    is_stopping = undefined;
  };
}

build_register_payload-IsFrom_example :
    let p = build_register_payload plain_host registration in
    IsFrom 1 p.total
    × IsFrom 1 p.threads
    × IsFrom 1 p.target_quota
    × IsFrom 1 p.target_available
    × IsFrom 1 p.check_interval
    × IsFrom 30 p.task_timeout_seconds
    × IsFrom 0 p.task_stall_timeout_seconds
    × IsFrom 1 p.min_available
    × IsFrom 1 p.batch_total
    × IsFrom 10 p.refill_check_interval
    × All (λ provider. keys_kept provider ≡ true) p.providers
    × IsTyped plain_host registration registration.mail.request_timeout 30 p.request_timeout
    × IsTyped plain_host registration registration.mail.wait_timeout 180 p.wait_timeout
    × IsTyped plain_host registration registration.mail.wait_interval 5 p.wait_interval
build_register_payload-IsFrom_example = build_register_payload-IsFrom plain_host registration

decisions-IsGuarded_example :
    let runtime = get_register_runtime_state plain_host registration in
    IsGuarded runtime (decide_save plain_host (some registration)) save_register
    × IsGuarded runtime (decide_toggle plain_host (some registration)) start_register
    × IsGuarded runtime (decide_reset plain_host (some registration)) reset_register
    × IsGuarded runtime (decide_repair plain_host (some registration)) repair_abnormal_accounts
decisions-IsGuarded_example = decisions-IsGuarded plain_host registration

abbrev register_store : RegisterStore
register_store = record {
  register_config = some registration;
  is_loading_register = false;
  is_saving_register = true;
  toasts = [];
}

register_toggled-decisions_example :
    ((message : Text)
      → let next =
          register_toggled plain_host true (RegisterAnswer.failed message) register_store in
        (next.is_saving_register ≡ false)
        × (next.register_config ≡ register_store.register_config)
        × (next.toasts ≡ register_store.toasts ++ message ∷ []))
    × ((config : RegisterConfig)
        → HasText plain_host (or_truthy config.stats.lifecycle config.lifecycle)
        → let next =
            register_toggled plain_host true (RegisterAnswer.answered config) register_store in
          (next.is_saving_register ≡ false)
          × (decide_save plain_host next.register_config ≡ decide_save plain_host (some config))
          × (decide_toggle plain_host next.register_config ≡ decide_toggle plain_host (some config))
          × (decide_reset plain_host next.register_config ≡ decide_reset plain_host (some config))
          × (decide_repair plain_host next.register_config
              ≡ decide_repair plain_host (some config)))
register_toggled-decisions_example = register_toggled-decisions plain_host true register_store
