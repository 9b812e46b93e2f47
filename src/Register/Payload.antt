-- ===== src/Register/Payload.antt =====
-- web/src/app/settings/store.ts: the bounds of what is sent to the registration.
use gpt2api_image.Base.{
  ℕ, zero, suc, ◌≡◌, refl, not, Bool, true, false, List, [], ◌∷◌, map, filter, all, All,
  if◌then◌else◌, arith,
}
use gpt2api_image.Base.Num.{Num, fin, is_truthy, le_num, pos, num, num_or, max_num}
use gpt2api_image.Base.Host.{Host}
use gpt2api_image.Conversation.Raw.{Value, is_truthy_value, number, to_number}
use gpt2api_image.Configuration.{clamp_from}
use gpt2api_image.Configuration.Bounds.{IsFrom, clamp_from-IsFrom}
use gpt2api_image.Register.{
  number_or, Provider, RegisterConfig, build_register_payload, is_private_key, providers_or_empty,
  read_stall_timeout, sanitize_register_providers,
}

abbrev pub keys_kept : Provider → Bool
keys_kept = all (λ (key, value). not (is_private_key key))

filter-kept :
    (p : Provider) → keys_kept (filter (λ (key, value). not (is_private_key key)) p) ≡ true
filter-kept [] = refl
filter-kept ((key, value) ∷ p) = ground (arith, filter-kept p)

providers-kept :
    (ps : List Provider)
    → All (λ p. keys_kept p ≡ true) (map (filter (λ (key, value). not (is_private_key key))) ps)
providers-kept [] = tt
providers-kept (p ∷ ps) = (filter-kept p, providers-kept ps)

module _ (host : Host) (config : RegisterConfig) where
  abbrev pub IsTyped : Value → ℕ → Num → Type 0
  IsTyped given default sent =
      (is_truthy_value given ≡ true → sent ≡ to_number host given)
      × (is_truthy_value given ≡ false → sent ≡ num default)

  typed : (v : Value) (d : ℕ) → IsTyped v d (number_or host v d)
  typed v d = (λ h. rw h refl, λ h. rw h refl)

  -- Whatever was typed, the counts, the targets, the two check intervals, the task timeout and the stall
  -- timeout that are sent are numbers and at least their bounds, and no provider is sent with what the server has
  -- reported of it. The three times of the mail are not bounded: each is sent as `Number` reads
  -- what was typed, or as its default where that is absent, empty, zero or NaN.
  pub build_register_payload-IsFrom :
      let p = build_register_payload host config in
      IsFrom 1 p.total
      × IsFrom 1 p.threads
      × IsFrom 1 p.target_quota
      × IsFrom 1 p.target_available
      × IsFrom 1 p.check_interval
      × IsFrom 30 p.task_timeout_seconds
      × IsFrom 0 p.task_stall_timeout_seconds
      × IsFrom 1 p.min_available
      × IsFrom 1 p.batch_total
      × IsFrom 10 p.refill_check_interval
      × All (λ provider. keys_kept provider ≡ true) p.providers
      × IsTyped config.mail.request_timeout 30 p.request_timeout
      × IsTyped config.mail.wait_timeout 180 p.wait_timeout
      × IsTyped config.mail.wait_interval 5 p.wait_interval
  unfolding build_register_payload sanitize_register_providers
  build_register_payload-IsFrom = (
    clamp_from-IsFrom host 1 1 config.total refl,
    clamp_from-IsFrom host 1 1 config.threads refl,
    clamp_from-IsFrom host 1 1 config.target_quota refl,
    clamp_from-IsFrom host 1 1 config.target_available refl,
    clamp_from-IsFrom host 1 5 config.check_interval refl,
    clamp_from-IsFrom host 30 300 config.task_timeout_seconds refl,
    clamp_from-IsFrom host 0 60 config.task_stall_timeout_seconds refl,
    clamp_from-IsFrom host 1 30 config.auto_refill.min_available refl,
    clamp_from-IsFrom host 1 100 config.auto_refill.batch_total refl,
    clamp_from-IsFrom host 10 300 config.auto_refill.check_interval refl,
    providers-kept (providers_or_empty config.mail.providers),
    typed config.mail.request_timeout 30,
    typed config.mail.wait_timeout 180,
    typed config.mail.wait_interval 5,
  )

-- A stall timeout that is a number from 0 on is read as it is, and sent as it is read, but for 0: for
-- that 60 is sent.
stall_timeout-truthy :
    (host : Host) (config : RegisterConfig) (n f : ℕ)
    → config.task_stall_timeout_seconds ≡ number (fin (pos n) f)
    → (read_stall_timeout host config.task_stall_timeout_seconds ≡ fin (pos n) f)
      × ((build_register_payload host config).task_stall_timeout_seconds
          ≡ (if is_truthy (fin (pos n) f) then fin (pos n) f else num 60))
unfolding read_stall_timeout build_register_payload clamp_from max_num num_or to_number le_num
    is_truthy
stall_timeout-truthy host config zero zero h = rw h (refl, refl)
stall_timeout-truthy host config zero (suc f) h = rw h (ground arith, ground arith)
stall_timeout-truthy host config (suc n) f h = rw h (ground arith, ground arith)
