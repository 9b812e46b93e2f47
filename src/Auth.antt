-- ===== src/Auth.antt =====
-- web/src/store/auth.ts: the session that the browser keeps, under two keys of its storage.
pub mod Stored
use gpt2api_image.Base.{
  Text, text, ◌==◌, trim, truthy, Bool, true, false, not, ◌&&◌, ◌||◌, Option, none, some, List, [],
  is_empty, if◌then◌else◌,
}
use gpt2api_image.Base.Host.{Host}
use gpt2api_image.Conversation.Raw.{Value, is_truthy_value, string, text_of, to_text}

pub data AuthRole : Type 0 where
  admin user : AuthRole

-- `StoredAuthSession`
pub record Session : Type 0 where
  pub key : Text
  pub role : AuthRole
  pub subject_id : Text
  pub name : Text

-- An object under the key of the session, before it is looked at.
pub record RawSession : Type 0 where
  pub key : Value
  pub role : Value
  pub subject_id : Value
  pub name : Value

-- The two entries of the storage; `none` is an entry that is missing, or no object.
pub record AuthDisk : Type 0 where
  pub key : Option Text
  pub session : Option RawSession

abbrev role_text : AuthRole → Text
role_text AuthRole.admin = text "admin"
role_text AuthRole.user = text "user"

abbrev pub raw_session : Session → RawSession
raw_session s = record {
  key = string s.key;
  role = string (role_text s.role);
  subject_id = string s.subject_id;
  name = string s.name;
}

abbrev role_of_text : Option Text → Option AuthRole
role_of_text none = none
role_of_text (some s) =
    if s == text "admin"
    then some AuthRole.admin
    else if s == text "user"
    then some AuthRole.user
    else none

abbrev key_text : Option Text → Text
key_text none = []
key_text (some s) = s

-- `getDefaultRouteForRole`
abbrev pub get_default_route_for_role : AuthRole → Text
get_default_route_for_role role = text "/image"

module _ (host : Host) where
  -- `String(v || d)`
  abbrev string_or : Value → Text → Text
  string_or v d = if is_truthy_value v then to_text host v else d

  -- `normalizeSession`
  unfoldable pub normalize_session : Option RawSession → Text → Option Session
  unfolding is_truthy_value to_text trim ◌==◌
  normalize_session none fallback = none
  normalize_session (some raw) fallback =
      let key = trim (string_or raw.key fallback) in
      elim (role_of_text (text_of raw.role)) [
        | none ↦ none
        | some role ↦
            if is_empty key
            then none
            else some (record {
              key = key;
              role = role;
              subject_id = trim (string_or raw.subject_id []);
              name = trim (string_or raw.name []);
            })
      ]

  -- `clearStoredAuthSession` in a browser
  abbrev pub clear_stored_auth_session : AuthDisk → AuthDisk
  clear_stored_auth_session disk = record { key = none; session = none }

  -- `getStoredAuthKey` in a browser
  unfoldable pub get_stored_auth_key : AuthDisk → Text
  unfolding trim
  get_stored_auth_key disk = trim (key_text disk.key)

  -- `getStoredAuthSession` in a browser
  unfoldable pub get_stored_auth_session : AuthDisk → Option Session × AuthDisk
  unfolding normalize_session trim ◌==◌
  get_stored_auth_session disk = elim (normalize_session disk.session (key_text disk.key)) [
    | some s ↦ (
      some s,
      if s.key == trim (key_text disk.key) then disk else record disk { key = some s.key },
    )
    | none ↦
        (none, if is_empty (trim (key_text disk.key)) then disk else clear_stored_auth_session disk)
  ]

  -- `setStoredAuthSession`
  unfoldable pub set_stored_auth_session : Session → AuthDisk → AuthDisk
  unfolding normalize_session
  set_stored_auth_session session disk = elim (normalize_session (some (raw_session session)) []) [
    | none ↦ clear_stored_auth_session disk
    | some s ↦ record { key = some s.key; session = some (raw_session s) }
  ]

  -- `setStoredAuthKey`
  unfoldable pub set_stored_auth_key : Text → AuthDisk → AuthDisk
  unfolding trim
  set_stored_auth_key auth_key disk =
      let key = trim auth_key in
      if is_empty key then clear_stored_auth_session disk else record disk { key = some key }
