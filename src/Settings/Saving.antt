-- ===== src/Settings/Saving.antt =====
-- web/src/app/settings/store.ts: what a save leaves of the edits.
use gpt2api_image.Base.{◌≡◌, refl, ap, Bool, true, false, none, some}
use gpt2api_image.Base.Host.{Host}
use gpt2api_image.Settings.{Answer, Store, answered, config_saved, edit, failed, save_config}
use gpt2api_image.Configuration.{SettingsConfig, normalize_config, sanitize_config}

-- What is left of an edited configuration after the answer to a save.
abbrev pub Keeps : Host → SettingsConfig → Answer → Bool × Store → Type 0
Keeps host edited (failed message) (saved, store) =
    (saved ≡ false) × (store.config ≡ some edited) × (store.is_dirty ≡ true)
Keeps host edited (answered config) (saved, store) =
    (saved ≡ true) × (store.config ≡ some (normalize_config host config)) × (store.is_dirty ≡ false)

edit-some :
    (f : SettingsConfig → SettingsConfig) (store : Store) (config : SettingsConfig)
    → store.config ≡ some config
    → edit f store ≡ record store { config = some (f config); is_dirty = true }
edit-some f store config h =
    ap
      (λ o. elim o [
        | none ↦ store
        | some c ↦ record store { config = some (f c); is_dirty = true }
      ])
      h

-- Saving a configuration sends its bounded form. Of an edit while the answer is on its way: if the save
-- fails, the edit is kept as one that is not saved; if it succeeds, the answer is shown in its place.
-- Either way the store is no longer saving.
pub save_config-Keeps :
    (host : Host) (store : Store) (config : SettingsConfig)
    (during : SettingsConfig → SettingsConfig) (answer : Answer)
    → store.config ≡ some config
    → let (sent, saving) = save_config host store in
      let r = config_saved host answer (edit during saving) in
      (sent ≡ some (sanitize_config host config))
      × (saving.is_saving_config ≡ true)
      × (r.1.is_saving_config ≡ false)
      × Keeps host (during config) answer r
unfolding save_config config_saved
save_config-Keeps host store config during (answered c) h =
    rw (h, save_config) (refl, refl, refl, (refl, refl, refl))
save_config-Keeps host store config during (failed m) h =
    let edited = edit-some during (record store { is_saving_config = true }) config h in
    rw (h, save_config)
      (refl, refl, refl, (refl, ap (λ s. s.config) edited, ap (λ s. s.is_dirty) edited))
