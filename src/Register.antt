-- ===== src/Register.antt =====
-- web/src/lib/register-runtime.ts, and the registration part of web/src/app/settings/store.ts: what is
-- known of a registration, how its configuration is read and sent, and the guards of the operations. A
-- mail provider is the list of its entries.
pub mod Payload
pub mod Guards
use gpt2api_image.Base.{
  Text, text, ◌==◌, trim, to_lower, truthy, Bool, true, false, not, ◌&&◌, ◌||◌, Option, none, some,
  List, [], ◌∷◌, ◌++◌, map, filter, any, Dict, is_empty, if◌then◌else◌, ℕ,
}
use gpt2api_image.Base.Num.{Num, le_num, lt_num, max_num, num, num_or}
use gpt2api_image.Base.Host.{Host}
use gpt2api_image.Conversation.Raw.{
  Value, boolean, is_truthy_value, null, number, string, to_number, to_text, undefined,
}
use gpt2api_image.Configuration.{clamp_from, text_or}

abbrev pub Provider : Type 0
Provider = Dict Value

-- `none` for the providers is what is no array.
pub record RegisterMail : Type 0 where
  pub request_timeout : Value
  pub wait_timeout : Value
  pub wait_interval : Value
  pub providers : Option (List Provider)

pub record AutoRefill : Type 0 where
  pub enabled : Value
  pub min_available : Value
  pub batch_total : Value
  pub check_interval : Value

-- The fields of the statistics that decide what runs.
pub record RegisterStats : Type 0 where
  pub lifecycle : Value
  pub job_kind : Value
  pub running : Value
  pub is_running : Value
  pub is_stopping : Value

-- A missing object is one whose fields are all undefined.
pub record RegisterConfig : Type 0 where
  pub enabled : Bool
  pub lifecycle : Value
  pub is_running : Value
  pub is_stopping : Value
  pub mail : RegisterMail
  pub proxy : Value
  pub task_timeout_seconds : Value
  pub task_stall_timeout_seconds : Value
  pub total : Value
  pub threads : Value
  pub mode : Value
  pub target_quota : Value
  pub target_available : Value
  pub check_interval : Value
  pub fixed_password : Value
  pub auto_refill : AutoRefill
  pub stats : RegisterStats

-- `a ?? b`
abbrev pub or_value : Value → Value → Value
or_value undefined b = b
or_value null b = b
or_value a b = a

-- `a || b`
abbrev pub or_truthy : Value → Value → Value
or_truthy a b = if is_truthy_value a then a else b

-- `RegisterRuntimeState`
pub record RuntimeState : Type 0 where
  pub lifecycle : Text
  pub is_running : Bool
  pub is_stopping : Bool
  pub is_active : Bool
  pub is_repairing : Bool

abbrev pub is_text : Value → Text → Bool
is_text (string s) t = s == t
is_text _ t = false

module _ (host : Host) where
  -- `getRegisterRuntimeState` of a configuration
  unfoldable pub get_register_runtime_state : RegisterConfig → RuntimeState
  unfolding trim to_lower ◌==◌ is_truthy_value to_text to_number lt_num
  get_register_runtime_state config =
      let lifecycle =
        map to_lower (trim (text_or host (or_truthy config.stats.lifecycle config.lifecycle) [])) in
      let running_count =
        if is_truthy_value config.stats.running
        then to_number host config.stats.running
        else num 0 in
      let running_flag = is_truthy_value (or_value config.stats.is_running config.is_running) in
      let stopping_flag = is_truthy_value (or_value config.stats.is_stopping config.is_stopping) in
      let stopping =
        stopping_flag
        || lifecycle == text "stopping"
        || (not config.enabled && lt_num (num 0) running_count) in
      let repairing =
        lifecycle == text "repairing"
        || (config.enabled && is_text config.stats.job_kind (text "repair_abnormal")) in
      let running = running_flag || lifecycle == text "running" || repairing || config.enabled in
      record {
        lifecycle =
            if truthy lifecycle
            then lifecycle
            else if stopping
            then text "stopping"
            else if running
            then text "running"
            else text "idle";
        is_running = running;
        is_stopping = stopping;
        is_active = running || stopping;
        is_repairing = repairing;
      }

-- The state of no configuration at all.
abbrev pub no_runtime_state : RuntimeState
no_runtime_state = record {
  lifecycle = text "idle";
  is_running = false;
  is_stopping = false;
  is_active = false;
  is_repairing = false;
}

abbrev pub runtime_of : Host → Option RegisterConfig → RuntimeState
runtime_of host none = no_runtime_state
runtime_of host (some config) = get_register_runtime_state host config

abbrev pub is_private_key : Text → Bool
is_private_key key =
    key == text "auto_domain_blacklist"
    || key == text "auto_domain_blacklist_entries"
    || key == text "mailboxes_count"
    || key == text "mailboxes_preview"
    || key == text "mailboxes_stats"

abbrev pub providers_or_empty : Option (List Provider) → List Provider
providers_or_empty none = []
providers_or_empty (some ps) = ps

-- `sanitizeRegisterProviders`
unfoldable pub sanitize_register_providers : Option (List Provider) → List Provider
unfolding ◌==◌
sanitize_register_providers providers =
    map (λ provider. filter (λ (key, value). not (is_private_key key)) provider)
      (providers_or_empty providers)

-- What is sent to the server.
pub record RegisterPayload : Type 0 where
  pub request_timeout : Num
  pub wait_timeout : Num
  pub wait_interval : Num
  pub api_use_register_proxy : Bool
  pub providers : List Provider
  pub proxy : Text
  pub total : Num
  pub threads : Num
  pub mode : Value
  pub target_quota : Num
  pub target_available : Num
  pub check_interval : Num
  pub fixed_password : Value
  pub task_timeout_seconds : Num
  pub task_stall_timeout_seconds : Num
  pub refill_enabled : Bool
  pub min_available : Num
  pub batch_total : Num
  pub refill_check_interval : Num

module _ (host : Host) where
  -- `Number(v || d)`
  abbrev pub number_or : Value → ℕ → Num
  number_or v d = if is_truthy_value v then to_number host v else num d

  -- The argument of `updateRegisterConfig`, the same in `saveRegister` and `toggleRegister`, with
  -- `buildRegisterMailPayload`. The proxy is a text since the configuration was normalised.
  unfoldable pub build_register_payload : RegisterConfig → RegisterPayload
  unfolding clamp_from is_truthy_value to_number to_text trim sanitize_register_providers
  build_register_payload config = record {
    request_timeout = number_or config.mail.request_timeout 30;
    wait_timeout = number_or config.mail.wait_timeout 180;
    wait_interval = number_or config.mail.wait_interval 5;
    api_use_register_proxy = false;
    providers = sanitize_register_providers config.mail.providers;
    proxy = trim (to_text host config.proxy);
    total = clamp_from host 1 1 config.total;
    threads = clamp_from host 1 1 config.threads;
    mode = config.mode;
    target_quota = clamp_from host 1 1 config.target_quota;
    target_available = clamp_from host 1 1 config.target_available;
    check_interval = clamp_from host 1 5 config.check_interval;
    fixed_password = config.fixed_password;
    task_timeout_seconds = clamp_from host 30 300 config.task_timeout_seconds;
    task_stall_timeout_seconds = clamp_from host 0 60 config.task_stall_timeout_seconds;
    refill_enabled = is_truthy_value config.auto_refill.enabled;
    min_available = clamp_from host 1 30 config.auto_refill.min_available;
    batch_total = clamp_from host 1 100 config.auto_refill.batch_total;
    refill_check_interval = clamp_from host 10 300 config.auto_refill.check_interval;
  }

  -- The timeout of a stalled task, as `normalizeRegister` reads it
  unfoldable pub read_stall_timeout : Value → Num
  unfolding max_num to_number
  read_stall_timeout v = max_num (num 0) (to_number host (or_value v (number (num 60))))

-- What an operation does first: it gives up, with a warning if there is something to say, or it goes on
-- to its request.
pub data Request : Type 0 where
  save_register start_register stop_register reset_register repair_abnormal_accounts : Request

pub data Decision : Type 0 where
  refuse : Option Text → Decision
  send : Request → Decision

-- `saveRegister`
unfoldable pub decide_save : Host → Option RegisterConfig → Decision
decide_save host none = refuse none
decide_save host (some config) =
    if (get_register_runtime_state host config).is_active
    then refuse (some (text "注册任务未结束，暂不能保存配置"))
    else send save_register

-- `toggleRegister`; a start is preceded by the request of `saveRegister`.
unfoldable pub decide_toggle : Host → Option RegisterConfig → Decision
decide_toggle host none = refuse none
decide_toggle host (some config) =
    let runtime = get_register_runtime_state host config in
    if runtime.is_stopping
    then refuse (some (text "注册任务正在停止清理中，请等待完成后再启动"))
    else if runtime.is_running
    then send stop_register
    else send start_register

-- `resetRegister`
unfoldable pub decide_reset : Host → Option RegisterConfig → Decision
decide_reset host config =
    if (runtime_of host config).is_active
    then refuse (some (text "注册任务未结束，暂不能重置统计"))
    else send reset_register

-- `repairAbnormalRegisterAccounts`
unfoldable pub decide_repair : Host → Option RegisterConfig → Decision
decide_repair host none = refuse none
decide_repair host (some config) =
    let runtime = get_register_runtime_state host config in
    if runtime.is_stopping
    then refuse (some (text "注册任务正在停止清理中，请等待完成后再操作"))
    else if runtime.is_running && not runtime.is_repairing
    then refuse (some (text "注册任务运行中，不能同时启动异常账号修复"))
    else if runtime.is_repairing
    then send stop_register
    else send repair_abnormal_accounts
