-- ===== src/Registration/Runtime.antt =====
-- web/src/app/settings/store.ts: what reading an answer about the registration keeps of its state.
use gpt2api_image.Base.{
  Text, text, ◌==◌, trim, to_lower, truthy, ◌≡◌, refl, ap, ◌∙◌, inl, inr, Bool, true, false, some,
  [], ◌∷◌, ◌++◌, map, Bool-cases, if◌then◌else◌, arith,
}
use gpt2api_image.Base.Num.{Num, num, is_truthy, lt_num}
use gpt2api_image.Base.Host.{Host}
use gpt2api_image.Conversation.Raw.{
  Value, boolean, is_truthy_value, number, string, to_number, to_text,
}
use gpt2api_image.Configuration.{text_or}
use gpt2api_image.Register.{
  decide_repair, decide_reset, decide_save, decide_toggle, RegisterConfig,
  get_register_runtime_state, number_or, or_truthy, or_value,
}
use gpt2api_image.Registration.{
  RegisterStore, answered, failed, normalize_register, register_toggled,
}

module _ (host : Host) where
  -- What is truthy has a text, as a lifecycle has, which is a text or absent.
  abbrev pub HasText : Value → Type 0
  HasText v = is_truthy_value v ≡ true → truthy (to_text host v) ≡ true

  abbrev lifecycle_of : RegisterConfig → Text
  lifecycle_of config =
      map to_lower (trim (text_or host (or_truthy config.stats.lifecycle config.lifecycle) []))

  text_or_truthy :
      (v : Value) (d : Text) → is_truthy_value v ≡ true → text_or host v d ≡ to_text host v
  text_or_truthy v d h = rw (h, text_or) refl

  text_or_falsy : (v : Value) (d : Text) → is_truthy_value v ≡ false → text_or host v d ≡ d
  text_or_falsy v d h = rw (h, text_or) refl

  text_or-string :
      (t : Text) (v : Value) → truthy t ≡ true → text_or host (or_truthy (string t) v) [] ≡ t
  unfolding is_truthy_value to_text
  text_or-string t v h = ground (arith, h)

  -- The lifecycle that is shown once the configuration is read.
  lifecycle-normalize :
      (config : RegisterConfig) (t : Text)
      → text_or host (or_truthy config.stats.lifecycle config.lifecycle) (text "idle") ≡ t
      → truthy t ≡ true
      → lifecycle_of (normalize_register host config) ≡ map to_lower (trim t)
  unfolding normalize_register
  lifecycle-normalize config t read h =
      ap (λ s. map to_lower (trim (text_or host (or_truthy (string s) config.lifecycle) []))) read
      ∙ ap (λ s. map to_lower (trim s)) (text_or-string t config.lifecycle h)

  -- No state of a registration has this lifecycle, as it has none that is empty.
  abbrev Same : Text → Text → Type 0
  Same a b =
      ((a == text "stopping") ≡ (b == text "stopping"))
      × ((a == text "running") ≡ (b == text "running"))
      × ((a == text "repairing") ≡ (b == text "repairing"))

  lifecycle-Same :
      (config : RegisterConfig)
      → HasText (or_truthy config.stats.lifecycle config.lifecycle)
      → Same (lifecycle_of (normalize_register host config)) (lifecycle_of config)
  unfolding trim to_lower ◌==◌
  lifecycle-Same config h =
      let w = or_truthy config.stats.lifecycle config.lifecycle in
      elim (Bool-cases (is_truthy_value w)) [
        | inl given ↦
            rw
              (lifecycle-normalize config (to_text host w) (text_or_truthy w (text "idle") given)
                (h given))
              (rw (text_or_truthy w [] given) (refl, refl, refl))
        | inr absent ↦
            rw
              (lifecycle-normalize config (text "idle") (text_or_falsy w (text "idle") absent) refl)
              (rw (text_or_falsy w [] absent) (refl, refl, refl))
      ]

  count_num : (n : Num) → lt_num (num 0) (if is_truthy n then n else num 0) ≡ lt_num (num 0) n
  unfolding is_truthy lt_num
  count_num n = ground arith

  count_kept :
      (v : Value)
      → lt_num (num 0) (number_or host (number (number_or host v 0)) 0)
        ≡ lt_num (num 0) (number_or host v 0)
  unfolding is_truthy_value to_number
  count_kept v = count_num (number_or host v 0)

  flag_kept :
      (v w : Value) → is_truthy_value (or_value (boolean (is_truthy_value v)) w) ≡ is_truthy_value v
  unfolding is_truthy_value
  flag_kept v w = refl

  normalize_register-runtime :
      (config : RegisterConfig)
      → HasText (or_truthy config.stats.lifecycle config.lifecycle)
      → let read = get_register_runtime_state host (normalize_register host config) in
        let sent = get_register_runtime_state host config in
        (read.is_running ≡ sent.is_running)
        × (read.is_stopping ≡ sent.is_stopping)
        × (read.is_repairing ≡ sent.is_repairing)
        × (read.is_active ≡ sent.is_active)
  unfolding get_register_runtime_state normalize_register
  normalize_register-runtime config h =
      let (stops, runs, repairs) = lifecycle-Same config h in
      let count = count_kept config.stats.running in
      let run_flag =
        flag_kept (or_value config.stats.is_running config.is_running) config.is_running in
      let stop_flag =
        flag_kept (or_value config.stats.is_stopping config.is_stopping) config.is_stopping in
      (
        ground (arith, runs, repairs, run_flag),
        ground (arith, stops, count, stop_flag),
        ground (arith, repairs),
        ground (arith, stops, runs, repairs, count, run_flag, stop_flag),
      )

  decisions-normalize :
      (config : RegisterConfig)
      → HasText (or_truthy config.stats.lifecycle config.lifecycle)
      → let read = some (normalize_register host config) in
        (decide_save host read ≡ decide_save host (some config))
        × (decide_toggle host read ≡ decide_toggle host (some config))
        × (decide_reset host read ≡ decide_reset host (some config))
        × (decide_repair host read ≡ decide_repair host (some config))
  unfolding decide_save decide_toggle decide_reset decide_repair
  decisions-normalize config h =
      let (running, stopping, repairing, active) = normalize_register-runtime config h in
      (
        ground (arith, active),
        ground (arith, stopping, running),
        ground (arith, active),
        ground (arith, stopping, running, repairing),
      )

  -- After the request to start or to stop a registration, nothing is being saved any more. If it has
  -- failed, the configuration is kept and the error shown. If the server has answered, each of the four
  -- operations decides by what is kept as it would by the answer itself, as long as a lifecycle in the
  -- answer that is truthy has a text that is not empty.
  pub register_toggled-decisions :
      (was_running : Bool) (store : RegisterStore)
      → ((message : Text)
          → let next = register_toggled host was_running (failed message) store in
            (next.is_saving_register ≡ false)
            × (next.register_config ≡ store.register_config)
            × (next.toasts ≡ store.toasts ++ message ∷ []))
        × ((config : RegisterConfig)
            → HasText (or_truthy config.stats.lifecycle config.lifecycle)
            → let next = register_toggled host was_running (answered config) store in
              (next.is_saving_register ≡ false)
              × (decide_save host next.register_config ≡ decide_save host (some config))
              × (decide_toggle host next.register_config ≡ decide_toggle host (some config))
              × (decide_reset host next.register_config ≡ decide_reset host (some config))
              × (decide_repair host next.register_config ≡ decide_repair host (some config)))
  unfolding register_toggled
  register_toggled-decisions was_running store = (
    (λ message. (refl, refl, refl)),
    (λ config h.
        let (saves, toggles, resets, repairs) = decisions-normalize config h in
        (refl, saves, toggles, resets, repairs)),
  )
