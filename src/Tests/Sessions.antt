-- ===== src/Tests/Sessions.antt =====
-- web/src/store/auth.ts, web/src/lib/auth-session.ts and web/src/lib/use-auth-guard.ts at one key.
use gpt2api_image.Request.{
  AxiosError, at_login, is_unauthorized, left_for, redirects, rejected, response_failed,
}
use gpt2api_image.Request.Failure.{EndsSession, response_failed_lem}
use gpt2api_image.Login.{LoginPage, handle_login}
use gpt2api_image.Base.Num.{num}
use gpt2api_image.Base.{
  Text, ℕ, truthy, ◌⊎◌, text, trim, ◌≡◌, refl, true, false, none, some, [], arith,
}
use gpt2api_image.Auth.{
  get_stored_auth_key, AuthDisk, AuthRole, Session, get_stored_auth_session,
  set_stored_auth_session,
}
use gpt2api_image.Auth.Stored.{IsNormalSession, get-set_stored_auth_session}
use gpt2api_image.Session.{
  LoginData, Memory, answer, get_validated_auth_session, handle_logout, login_succeeded,
  prime_auth_session_cache,
}
use gpt2api_image.Session.Cache.{login_succeeded-IsKept}
use gpt2api_image.Tests.Data.{plain_host}

abbrev ann : Session
ann = record { key = text "k1"; role = AuthRole.user; subject_id = text "s1"; name = text "ann" }

ann-IsNormal : IsNormalSession ann
unfolding trim
ann-IsNormal = record { key = refl; keyed = refl; subject_id = refl; name = refl }

-- A key without a session.
abbrev half : AuthDisk
half = record { key = some (text " k0 "); session = none }

get-set_stored_auth_session_example :
    let disk' = set_stored_auth_session plain_host ann half in
    get_stored_auth_session plain_host disk' ≡ (some ann, disk')
get-set_stored_auth_session_example = get-set_stored_auth_session plain_host ann half ann-IsNormal

abbrev fresh : Memory
fresh = record {
  cached = none;
  validated_once = false;
  validated_at = 0;
  pending = false;
  disk = half;
}

abbrev primed : Memory
primed = prime_auth_session_cache 1000 (some ann) fresh

abbrev answered : LoginData
answered = record { role = AuthRole.user; subject_id = text "s1"; name = text "ann" }

-- The logout came first.
login_succeeded-IsKept_example :
    let r =
      (login_succeeded plain_host 1000 (text "k1") answered (handle_logout plain_host fresh)).1 in
    (get_validated_auth_session plain_host 2000 r ≡ (answer (some ann), r))
    × (get_stored_auth_session plain_host r.disk ≡ (some ann, r.disk))
login_succeeded-IsKept_example =
    login_succeeded-IsKept plain_host 1000 2000 (text "k1") answered
      (handle_logout plain_host fresh) ann-IsNormal (omega arith)

-- The server does not know the key any more.
abbrev unauthorized : AxiosError
unauthorized = record {
  status = some (num 401);
  payload = none;
  message = text "Request failed with status code 401";
  redirect_on_unauthorized = some true;
}

response_failed_lem_example :
    let r = response_failed plain_host (text "/image") unauthorized primed in
    ((is_unauthorized unauthorized.status ≡ true)
      × (redirects unauthorized.redirect_on_unauthorized ≡ true)
      × (at_login (text "/image") ≡ false)
      × (r.0 ≡ left_for (text "/login"))
      × ((now : ℕ) → (get_validated_auth_session plain_host now r.1).0 ≡ answer none)
      × (get_stored_auth_key plain_host r.1.disk ≡ []))
    ⊎ ((¬ EndsSession plain_host (text "/image") unauthorized)
        × ((message : Text) × (r.0 ≡ rejected message) × (truthy message ≡ true))
        × (r.1 ≡ primed))
response_failed_lem_example = response_failed_lem plain_host (text "/image") unauthorized primed

abbrev login_page : LoginPage
login_page = record {
  auth_key = text " k1 ";
  is_submitting = false;
  is_checking_auth = false;
  toasts = [];
  replaced = none;
}

key_sent : (handle_login login_page).0 ≡ some (text "k1")
unfolding handle_login trim
key_sent = refl
