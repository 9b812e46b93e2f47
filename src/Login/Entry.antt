-- ===== src/Login/Entry.antt =====
-- web/src/app/login/page.tsx: from the key that is typed to the requests that carry it.
use gpt2api_image.Base.{
  ℕ, ◌+◌, ◌<◌, Text, text, trim, ◌≡◌, refl, ap, sym, ◌∙◌, inl, inr, false, none, some, ◌++◌, Dict,
  lookup, Bool-cases, is_empty, some-eq, arith, subst,
}
use gpt2api_image.Base.Trim.{trim_idem}
use gpt2api_image.Base.Host.{Host}
use gpt2api_image.Auth.{Session}
use gpt2api_image.Session.{
  LoginData, Memory, answer, get_validated_auth_session, prime_auth_session_cache,
}
use gpt2api_image.Session.Cache.{ltb-true}
use gpt2api_image.Request.{authorize}
use gpt2api_image.Request.Failure.{authorize-set_stored_auth_session}
use gpt2api_image.Login.{LoginPage, handle_login, login_answered}

module _ (host : Host) where
  handle_login-key :
      (page : LoginPage) (key : Text)
      → (handle_login page).0 ≡ some key
      → (trim page.auth_key ≡ key) × (is_empty key ≡ false)
  unfolding handle_login
  handle_login-key page key sent = elim (Bool-cases (is_empty (trim page.auth_key))) [
    | inl empty ↦ absurd (ground (arith, rw (empty, handle_login) at sent))
    | inr typed ↦
        let same : trim page.auth_key ≡ key = some-eq (rw (typed, handle_login) at sent) in
        (same, subst (λ k. is_empty k ≡ false) same typed)
  ]

  abbrev session_of : Text → LoginData → Session
  session_of key answered = record {
    key = key;
    role = answered.role;
    subject_id = answered.subject_id;
    name = answered.name;
  }

  -- After a login that the server confirms, the session is there for 30 seconds without a request,
  -- with the key that was typed, trimmed; a request whose call sets no authorization goes with that
  -- key; and the browser is sent to the page of the images. A key is sent only if one was typed.
  pub login-authorize :
      (at now : ℕ) (key : Text) (answered : LoginData) (page : LoginPage) (m : Memory)
      (headers : Dict Text)
      → (handle_login page).0 ≡ some key
      → now < at + 30000
      → lookup (text "Authorization") headers ≡ none
      → let r = login_answered host at key answered page m in
        (trim page.auth_key ≡ key)
        × (is_empty key ≡ false)
        × ((get_validated_auth_session host now r.1).0 ≡ answer (some (session_of key answered)))
        × (lookup (text "Authorization") (authorize host r.1.disk headers)
            ≡ some (text "Bearer " ++ key))
        × (r.0.replaced ≡ some (text "/image"))
  unfolding login_answered get_validated_auth_session prime_auth_session_cache
  login-authorize at now key answered page m headers sent early bare =
      let (typed, keyed) = handle_login-key page key sent in
      let trimmed : trim key ≡ key = ap trim (sym typed) ∙ trim_idem page.auth_key ∙ typed in
      (
        typed,
        keyed,
        rw (ltb-true now (at + 30000) early, get_validated_auth_session) refl,
        (authorize-set_stored_auth_session host (session_of key answered) m.disk headers trimmed
            keyed bare).0,
        refl,
      )
