-- ===== src/Login.antt =====
-- web/src/app/login/page.tsx, and `useRedirectIfAuthenticated` of web/src/lib/use-auth-guard.ts: the page
-- of the login. A handler is cut at its request.
pub mod Entry
use gpt2api_image.Base.{
  ℕ, Text, text, trim, Bool, true, false, not, Option, none, some, List, [], ◌∷◌, ◌++◌, is_empty,
  if◌then◌else◌,
}
use gpt2api_image.Base.Host.{Host}
use gpt2api_image.Auth.{Session, get_default_route_for_role, set_stored_auth_session}
use gpt2api_image.Session.{LoginData, Memory, prime_auth_session_cache}

pub record LoginPage : Type 0 where
  pub auth_key : Text
  pub is_submitting : Bool
  pub is_checking_auth : Bool
  pub toasts : List Text
  pub replaced : Option Text

-- `handleLogin`, up to its request: the key that is sent, if there is one
unfoldable pub handle_login : LoginPage → Option Text × LoginPage
unfolding trim
handle_login page =
    let key = trim page.auth_key in
    if is_empty key
    then (none, record page { toasts = page.toasts ++ text "请输入 密钥" ∷ [] })
    else (some key, record page { is_submitting = true })

-- `handleLogin`, when the server has answered
unfoldable pub login_answered :
    Host → ℕ → Text → LoginData → LoginPage → Memory → LoginPage × Memory
unfolding set_stored_auth_session prime_auth_session_cache
login_answered host now key answered page m =
    let session : Session = record {
      key = key;
      role = answered.role;
      subject_id = answered.subject_id;
      name = answered.name;
    } in
    (
      record page {
        replaced = some (get_default_route_for_role answered.role);
        is_submitting = false;
      },
      prime_auth_session_cache now (some session)
          (record m { disk = set_stored_auth_session host session m.disk }),
    )

-- `handleLogin`, when the request has failed
unfoldable pub login_refused : Text → LoginPage → LoginPage
login_refused message page = record page {
  toasts = page.toasts ++ message ∷ [];
  is_submitting = false;
}

abbrev route_of : Option Session → Option Text
route_of none = none
route_of (some s) = some (get_default_route_for_role s.role)

abbrev or_kept : Option Text → Option Text → Option Text
or_kept none kept = kept
or_kept (some route) kept = some route

-- `useRedirectIfAuthenticated` when the page is shown, and after its validation
unfoldable pub redirect_mounted : Memory → LoginPage → LoginPage
redirect_mounted m page = record page {
  is_checking_auth = not m.validated_once;
  replaced = if m.validated_once then or_kept (route_of m.cached) page.replaced else page.replaced;
}

unfoldable pub redirect_loaded : Option Session → LoginPage → LoginPage
redirect_loaded none page = record page { is_checking_auth = false }
redirect_loaded (some s) page = record page { replaced = some (get_default_route_for_role s.role) }
