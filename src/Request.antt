-- ===== src/Request.antt =====
-- web/src/lib/request.ts: the key that goes with a request, and what becomes of one that fails, in a
-- browser.
pub mod Failure
use gpt2api_image.Base.{
  ℕ, Text, text, ◌==◌, truthy, ◌or?◌, Bool, true, false, not, ◌&&◌, Option, none, some, List, [],
  ◌∷◌, ◌++◌, Dict, lookup, insert, take, length, is_empty, if◌then◌else◌,
}
use gpt2api_image.Base.Num.{Num, num, num_or, fin, le_num, is_truthy}
use gpt2api_image.Base.Host.{Host}
use gpt2api_image.Auth.{AuthDisk, clear_stored_auth_session, get_stored_auth_key}
use gpt2api_image.Session.{Memory, clear_auth_session_cache}

-- A JSON value as far as a message is looked for in it; `other` is neither a text nor an object.
pub data Payload : Type 0 where
  other : Payload
  said : Text → Payload
  -- the fields `message` and `error`, `other` where they are missing
  fields : Payload → Payload → Payload

-- `errorMessageFromValue`
unfoldable pub error_message_from_value : Payload → Text
error_message_from_value other = []
error_message_from_value (said s) = s
error_message_from_value (fields (said message) error) = message
error_message_from_value (fields message error) = error_message_from_value error

-- `ErrorPayload`; a field that is missing is `other`, an empty message is absent.
pub record ErrorPayload : Type 0 where
  pub detail : Payload
  pub error : Payload
  pub message : Text

-- What axios rejects with. `status` and `payload` are of the response, if there is one.
pub record AxiosError : Type 0 where
  pub status : Option Num
  pub payload : Option ErrorPayload
  pub message : Text
  pub redirect_on_unauthorized : Option Bool

abbrev pub absent : ErrorPayload
absent = record { detail = other; error = other; message = [] }

abbrev pub payload_of : Option ErrorPayload → ErrorPayload
payload_of none = absent
payload_of (some p) = p

abbrev pub first_text : List Text → Text → Text
first_text [] fallback = fallback
first_text (s ∷ ss) fallback = if truthy s then s else first_text ss fallback

abbrev shown_status : Host → Option Num → Text
shown_status host none = text "500"
shown_status host (some status) = if is_truthy status then host.show_num status else text "500"

abbrev pub messages : AxiosError → List Text
messages e =
    let p = payload_of e.payload in
    error_message_from_value p.detail
    ∷ error_message_from_value p.error
    ∷ p.message
    ∷ e.message
    ∷ []

abbrev pub is_unauthorized : Option Num → Bool
is_unauthorized none = false
is_unauthorized (some status) = le_num status (num 401) && le_num (num 401) status

abbrev pub redirects : Option Bool → Bool
redirects none = true
redirects (some b) = b

abbrev pub at_login : Text → Bool
at_login path = take 6 path == text "/login"

-- What the caller of a request gets when it has failed: an error with a message, or nothing ever,
-- since the browser is on its way to another address.
pub data Ending : Type 0 where
  rejected : Text → Ending
  left_for : Text → Ending

module _ (host : Host) where
  -- The interceptor of the requests, on the headers of the call
  unfoldable pub authorize : AuthDisk → Dict Text → Dict Text
  unfolding get_stored_auth_key lookup insert ◌==◌
  authorize disk headers =
      let key = get_stored_auth_key host disk in
      if truthy key && not (has_text (lookup (text "Authorization") headers))
      then insert (text "Authorization") (text "Bearer " ++ key) headers
      else headers
    where
      has_text : Option Text → Bool
      has_text none = false
      has_text (some s) = truthy s

  -- The interceptor of the responses that have failed, at the address `path`
  unfoldable pub response_failed : Text → AxiosError → Memory → Ending × Memory
  unfolding clear_auth_session_cache is_truthy error_message_from_value le_num ◌==◌
  response_failed path e m =
      if is_unauthorized e.status && redirects e.redirect_on_unauthorized && not (at_login path)
      then (
        left_for (text "/login"),
        clear_auth_session_cache (record m { disk = clear_stored_auth_session host m.disk }),
      )
      else (
        rejected
            (first_text (messages e) (text "请求失败 (" ++ (shown_status host e.status ++ text ")"))),
        m,
      )
