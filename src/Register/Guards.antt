-- ===== src/Register/Guards.antt =====
-- web/src/app/settings/store.ts: what the operations on a registration do in each state of it.
use gpt2api_image.Base.{◌≡◌, refl, true, false, ◌||◌, some, arith}
use gpt2api_image.Base.Host.{Host}
use gpt2api_image.Register.{
  Decision, RegisterConfig, Request, RuntimeState, decide_repair, decide_reset, decide_save,
  decide_toggle, get_register_runtime_state, repair_abnormal_accounts, reset_register,
  save_register, send, start_register, stop_register,
}

-- What a decision may be in a state, for an operation with a request of its own.
abbrev pub IsGuarded : RuntimeState → Decision → Request → Type 0
IsGuarded runtime decision own =
    ((request : Request) → decision ≡ send request → runtime.is_stopping ≡ false)
    × ((request : Request)
        → decision ≡ send request
        → runtime.is_running ≡ true
        → request ≡ stop_register)
    × (runtime.is_active ≡ false → decision ≡ send own)

runtime_facts :
    (host : Host) (config : RegisterConfig)
    → let runtime = get_register_runtime_state host config in
      (runtime.is_active ≡ (runtime.is_running || runtime.is_stopping))
      × (runtime.is_repairing ≡ true → runtime.is_running ≡ true)
unfolding get_register_runtime_state
runtime_facts host config = (refl, λ h. ground (arith, h))

-- While the registration stops, none of the four operations sends a request. While it runs, the only request is the one to
-- stop. When it is idle, each operation sends its own.
pub decisions-IsGuarded :
    (host : Host) (config : RegisterConfig)
    → let runtime = get_register_runtime_state host config in
      IsGuarded runtime (decide_save host (some config)) save_register
      × IsGuarded runtime (decide_toggle host (some config)) start_register
      × IsGuarded runtime (decide_reset host (some config)) reset_register
      × IsGuarded runtime (decide_repair host (some config)) repair_abnormal_accounts
unfolding decide_save decide_toggle decide_reset decide_repair
decisions-IsGuarded host config =
    let facts = runtime_facts host config in
    (
      ground (arith, facts.0, facts.1),
      ground (arith, facts.0, facts.1),
      ground (arith, facts.0, facts.1),
      ground (arith, facts.0, facts.1),
    )
