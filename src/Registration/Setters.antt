-- ===== src/Registration/Setters.antt =====
-- web/src/app/settings/store.ts: the setters of the configuration of a registration, which was normalised
-- when it was read.
use gpt2api_image.Base.{
  ℕ, zero, suc, insert, remove_at, Text, text, Bool, true, none, some, List, [], ◌∷◌, ◌++◌,
}
use gpt2api_image.Base.Num.{num, num_or}
use gpt2api_image.Base.Host.{Host}
use gpt2api_image.Conversation.Raw.{Value, boolean, number, object, string}
use gpt2api_image.Register.{AutoRefill, Provider, RegisterConfig, RegisterMail, providers_or_empty}
use gpt2api_image.Registration.{RegisterStore}

abbrev edit : (RegisterConfig → RegisterConfig) → RegisterStore → RegisterStore
edit f store = elim store.register_config [
  | none ↦ store
  | some config ↦ record store { register_config = some (f config) }
]

abbrev edit_mail : (RegisterMail → RegisterMail) → RegisterStore → RegisterStore
edit_mail f = edit (λ config. record config { mail = f config.mail })

abbrev edit_providers : (List Provider → List Provider) → RegisterStore → RegisterStore
edit_providers f =
    edit_mail (λ mail. record mail { providers = some (f (providers_or_empty mail.providers)) })

pub data RegisterNumber : Type 0 where
  total threads target_quota target_available check_interval : RegisterNumber
  task_timeout_seconds task_stall_timeout_seconds : RegisterNumber

abbrev put_number : RegisterNumber → Value → RegisterConfig → RegisterConfig
put_number total v config = record config { total = v }
put_number threads v config = record config { threads = v }
put_number target_quota v config = record config { target_quota = v }
put_number target_available v config = record config { target_available = v }
put_number check_interval v config = record config { check_interval = v }
put_number task_timeout_seconds v config = record config { task_timeout_seconds = v }
put_number task_stall_timeout_seconds v config = record config { task_stall_timeout_seconds = v }

pub data RegisterText : Type 0 where
  proxy mode fixed_password : RegisterText

abbrev put_text : RegisterText → Value → RegisterConfig → RegisterConfig
put_text proxy v config = record config { proxy = v }
put_text mode v config = record config { mode = v }
put_text fixed_password v config = record config { fixed_password = v }

-- `setRegisterProxy`, `setRegisterMode` and `setRegisterFixedPassword`
unfoldable pub set_register_text : RegisterText → Text → RegisterStore → RegisterStore
set_register_text field value = edit (put_text field (string value))

pub data MailField : Type 0 where
  request_timeout wait_timeout wait_interval : MailField

abbrev put_mail : MailField → Value → RegisterMail → RegisterMail
put_mail request_timeout v mail = record mail { request_timeout = v }
put_mail wait_timeout v mail = record mail { wait_timeout = v }
put_mail wait_interval v mail = record mail { wait_interval = v }

pub data RefillField : Type 0 where
  min_available batch_total refill_interval : RefillField

abbrev put_refill : RefillField → Value → AutoRefill → AutoRefill
put_refill min_available v refill = record refill { min_available = v }
put_refill batch_total v refill = record refill { batch_total = v }
put_refill refill_interval v refill = record refill { check_interval = v }

-- `setRegisterAutoRefillField` of the flag
unfoldable pub set_register_auto_refill : Bool → RegisterStore → RegisterStore
set_register_auto_refill value = edit (λ config. record config {
  auto_refill = record config.auto_refill { enabled = boolean value };
})

module _ (host : Host) where
  -- `Number(value) || 0`
  abbrev typed : Text → Value
  typed value = number (num_or (host.number_of value) (num 0))

  -- The setters of the numbers
  unfoldable pub set_register_number : RegisterNumber → Text → RegisterStore → RegisterStore
  unfolding num_or
  set_register_number field value = edit (put_number field (typed value))

  -- `setRegisterMailField`
  unfoldable pub set_register_mail_field : MailField → Text → RegisterStore → RegisterStore
  unfolding num_or
  set_register_mail_field field value = edit_mail (put_mail field (typed value))

  -- `setRegisterAutoRefillField` of a number
  unfoldable pub set_register_auto_refill_field : RefillField → Text → RegisterStore → RegisterStore
  unfolding num_or
  set_register_auto_refill_field field value =
      edit (λ config. record config {
        auto_refill = put_refill field (typed value) config.auto_refill;
      })

abbrev new_provider : Provider
new_provider =
    (text "enable", boolean true)
    ∷ (text "type", string (text "tempmail_lol"))
    ∷ (text "api_key", string [])
    ∷ (text "domain", object [])
    ∷ []

-- `addRegisterProvider`
unfoldable pub add_register_provider : RegisterStore → RegisterStore
add_register_provider = edit_providers (λ providers. providers ++ new_provider ∷ [])

-- `deleteRegisterProvider`
unfoldable pub delete_register_provider : ℕ → RegisterStore → RegisterStore
delete_register_provider index = edit_providers (remove_at index)

-- `{ ...provider, ...updates }`
abbrev merge : Provider → Provider → Provider
merge provider [] = provider
merge provider ((key, value) ∷ updates) = merge (insert key value provider) updates

-- `updateRegisterProvider`, of a provider that is there or the next one
unfoldable pub update_register_provider : ℕ → Provider → RegisterStore → RegisterStore
unfolding insert
update_register_provider index updates = edit_providers (put index)
  where
    put : ℕ → List Provider → List Provider
    put index [] = merge [] updates ∷ []
    put zero (p ∷ ps) = merge p updates ∷ ps
    put (suc index) (p ∷ ps) = p ∷ put index ps
