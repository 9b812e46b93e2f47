-- ===== src/Keys/Asked.antt =====
-- web/src/app/keys/components/user-keys-card.tsx: what the card asks of the server.
use gpt2api_image.Base.{
  Text, text, ◌or◌, trim, truthy, true, false, Option, none, some, [], ◌∷◌, All, ◌≡◌, refl, inl,
  inr, Bool-cases, Option-cases,
}
use gpt2api_image.Base.Trim.{trim_idem}
use gpt2api_image.Keys.{UserKey, UserKeysCard}
use gpt2api_image.Keys.Handlers.{
  Request, fetch_user_keys, create_user_key, enable_user_key, rename_user_key,
  fetch_user_key_plaintext, regenerate_user_key, delete_user_key, or_undefined, handle_create,
  handle_edit, handle_reset, handle_delete,
}

-- A text without white space around it that is not empty
abbrev pub IsClean : Text → Type 0
IsClean s = (trim s ≡ s) × (truthy s ≡ true)

-- A key of one's own, if there is one
abbrev pub IsOwnKey : Option Text → Type 0
IsOwnKey none = Unit
IsOwnKey (some key) = IsClean key

-- The dialog that a request comes from is about its key, and what was typed is sent clean.
abbrev pub IsAsked : UserKeysCard → Request → Type 0
IsAsked card fetch_user_keys = Unit
IsAsked card (create_user_key name key) = IsClean name × IsOwnKey key
IsAsked card (enable_user_key id enabled) = Unit
IsAsked card (rename_user_key id name) =
    ((item : UserKey) × (card.edit_item ≡ some item) × (id ≡ item.id)) × IsClean name
IsAsked card (fetch_user_key_plaintext id) = Unit
IsAsked card (regenerate_user_key id key) =
    ((item : UserKey) × (card.reset_item ≡ some item) × (id ≡ item.id)) × IsOwnKey key
IsAsked card (delete_user_key id) =
    (item : UserKey) × (card.delete_item ≡ some item) × (id ≡ item.id)

default-IsClean : IsClean (text "API 密钥")
unfolding trim
default-IsClean = (refl, refl)

name-IsClean : (s : Text) → IsClean (trim s or text "API 密钥")
name-IsClean s = elim (Bool-cases (truthy (trim s))) [
  | inl filled ↦ filled_name (trim s) (trim_idem s) filled
  | inr blank ↦ blank_name (trim s) blank
]
  where
    filled_name : (t : Text) → trim t ≡ t → truthy t ≡ true → IsClean (t or text "API 密钥")
    filled_name [] e h = cc
    filled_name (c ∷ t) e h = (e, refl)

    blank_name : (t : Text) → truthy t ≡ false → IsClean (t or text "API 密钥")
    blank_name [] h = default-IsClean
    blank_name (c ∷ t) h = cc

or_undefined-IsOwnKey : (s : Text) → trim s ≡ s → IsOwnKey (or_undefined s)
or_undefined-IsOwnKey [] e = tt
or_undefined-IsOwnKey (c ∷ s) e = (e, refl)

-- Whatever was typed: a key is created with a name, and renamed only to one, that is not empty and has no
-- white space around it; a key of one's own that is given is so too; and what is renamed, reset or deleted
-- is the key that the dialog was opened for.
pub handlers-IsAsked :
    (card : UserKeysCard)
    → All (IsAsked card) (handle_create card).0
      × All (IsAsked card) (handle_edit card).0
      × All (IsAsked card) (handle_reset card).0
      × All (IsAsked card) (handle_delete card).0
unfolding handle_create handle_edit handle_reset handle_delete
handlers-IsAsked card = (
  ((name-IsClean card.create_name, or_undefined-IsOwnKey _ (trim_idem card.create_key)), tt),
  elim (Option-cases card.edit_item) [
    | inl nothing ↦ rw (nothing, handle_edit) tt
    | inr (item, e) ↦ elim (Bool-cases (truthy (trim card.edit_name))) [
      | inl filled ↦
          rw (e, handle_edit)
            (rw filled (((item, refl, refl), (trim_idem card.edit_name, filled)), tt))
      | inr blank ↦ rw (e, handle_edit) (rw blank tt)
    ]
  ],
  elim (Option-cases card.reset_item) [
    | inl nothing ↦ rw (nothing, handle_reset) tt
    | inr (item, e) ↦
        rw (e, handle_reset)
          (((item, refl, refl), or_undefined-IsOwnKey _ (trim_idem card.reset_key)), tt)
  ],
  elim (Option-cases card.delete_item) [
    | inl nothing ↦ rw (nothing, handle_delete) tt
    | inr (item, e) ↦ rw (e, handle_delete) ((item, refl, refl), tt)
  ],
)
