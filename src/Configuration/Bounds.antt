-- ===== src/Configuration/Bounds.antt =====
-- web/src/app/settings/store.ts: the bounds of what `saveConfig` sends, and that reading the answer of a
-- server that keeps it changes nothing.
use gpt2api_image.Base.{ℕ, Text, truthy, ◌≡◌, refl, ap, true, false, [], if◌then◌else◌, arith, leb}
use gpt2api_image.Base.Num.{Num, is_nan, is_truthy, le_num, le_ℤ, max_num, num, num_or}
use gpt2api_image.Base.Host.{Host}
use gpt2api_image.Conversation.Raw.{Value, is_truthy_value, number, string, to_number, to_text}
use gpt2api_image.Configuration.{
  FlagField, NumberField, SettingsConfig, clamp_from, default_of, least_of, normalize_config,
  read_number, sanitize_config,
}

-- A number that is not NaN and at least the bound.
abbrev pub IsFrom : ℕ → Num → Type 0
IsFrom least n = (is_nan n ≡ false) × (le_num (num least) n ≡ true)

clamped :
    (least d : ℕ) (n : Num)
    → leb least d ≡ true
    → IsFrom least (max_num (num least) (num_or n (num d)))
unfolding max_num num_or le_num is_truthy
clamped least d n h = ground arith

pub clamp_from-IsFrom :
    (host : Host) (least d : ℕ) (v : Value)
    → leb least d ≡ true
    → IsFrom least (clamp_from host least d v)
unfolding clamp_from
clamp_from-IsFrom host least d v h = clamped least d (to_number host v) h

least_default : (field : NumberField) → leb (least_of field) (default_of field) ≡ true
least_default field = ground arith

reread :
    (host : Host) (field : NumberField) (n : Num)
    → IsFrom (least_of field) n
    → read_number host field (number n) ≡ n
unfolding read_number is_truthy_value to_number clamp_from max_num num_or le_num is_truthy le_ℤ
reread host field n h = ground (arith, h.0, h.1)

shown_again : (s : Text) → (if truthy s then s else []) ≡ s
shown_again s = ground arith

module _ (host : Host) (config : SettingsConfig) where
  -- Every number that is sent is a number, and at least its bound: what was typed is never sent as it is.
  pub sanitize_config-IsFrom :
      (field : NumberField)
      → (n : Num) × ((sanitize_config host config).numbers field ≡ number n)
        × IsFrom (least_of field) n
  unfolding sanitize_config clamp_from
  sanitize_config-IsFrom field =
      (_, refl, clamped (least_of field) (default_of field) _ (least_default field))

  -- If the server answers with what was sent, the form shows the numbers, the flags and the texts that
  -- were sent; only a blank route strategy is shown as the default.
  pub normalize-sanitize_config :
      let sent = sanitize_config host config in
      let shown = normalize_config host sent in
      ((field : NumberField) → shown.numbers field ≡ sent.numbers field)
      × ((field : FlagField) → shown.flags field ≡ sent.flags field)
      × (shown.proxy ≡ sent.proxy)
      × (shown.base_url ≡ sent.base_url)
      × (shown.global_system_prompt ≡ sent.global_system_prompt)
      × (shown.sensitive_words ≡ sent.sensitive_words)
  unfolding normalize_config sanitize_config clamp_from is_truthy_value to_text
  normalize-sanitize_config = (
    (λ field.
        ap (λ n. number n)
          (reread host field _
            (clamped (least_of field) (default_of field) _ (least_default field)))),
    (λ field. refl),
    refl,
    refl,
    ap (λ s. string s) (shown_again _),
    refl,
  )
