-- ===== src/Request/Failure.antt =====
-- web/src/lib/request.ts: what a request that has failed leaves, and the key of the next one.
use gpt2api_image.Base.{
  ℕ, Text, text, truthy, trim, eq_iff, ◌≡◌, ◌≢◌, refl, ◌∙◌, ◌⊎◌, inl, inr, true, false, not, ◌&&◌,
  none, some, List, [], ◌∷◌, ◌++◌, Dict, lookup, insert, eq_refl, lookup-insert, Bool-cases,
  is_empty, arith,
}
use gpt2api_image.Base.Host.{Host}
use gpt2api_image.Auth.{
  AuthDisk, Session, clear_stored_auth_session, get_stored_auth_key, set_stored_auth_session,
}
use gpt2api_image.Auth.Stored.{key-set_stored_auth_session}
use gpt2api_image.Session.{Memory, answer, get_validated_auth_session, handle_logout}
use gpt2api_image.Session.Cache.{handle_logout-answer}
use gpt2api_image.Request.{
  AxiosError, rejected, left_for, response_failed, authorize, first_text, messages, is_unauthorized,
  redirects, at_login,
}

first_text-truthy :
    (ss : List Text) (c : ℕ) (fallback : Text) → truthy (first_text ss (c ∷ fallback)) ≡ true
first_text-truthy [] c fallback = refl
first_text-truthy (s ∷ ss) c fallback = ground (arith, first_text-truthy ss c fallback)

truthy-keyed : (key : Text) → is_empty key ≡ false → truthy key ≡ true
truthy-keyed [] h = cc
truthy-keyed (c ∷ key) h = refl

module _ (host : Host) where
  -- The server does not know the key of the request any more, and the page is not that of the login.
  abbrev pub EndsSession : Text → AxiosError → Type 0
  EndsSession path e =
      (is_unauthorized e.status ≡ true)
      × (redirects e.redirect_on_unauthorized ≡ true)
      × (at_login path ≡ false)

  -- A request that fails with the status 401 away from the page of the login, and that redirects,
  -- leaves for that page: neither a session nor a key is left, whenever it is asked for. Any other
  -- failure ends in an error with a message that is not empty, and the session stays as it was.
  pub response_failed_lem :
      (path : Text) (e : AxiosError) (m : Memory)
      → let r = response_failed host path e m in
        ((is_unauthorized e.status ≡ true)
          × (redirects e.redirect_on_unauthorized ≡ true)
          × (at_login path ≡ false)
          × (r.0 ≡ left_for (text "/login"))
          × ((now : ℕ) → (get_validated_auth_session host now r.1).0 ≡ answer none)
          × (get_stored_auth_key host r.1.disk ≡ []))
        ⊎ ((¬ EndsSession path e)
            × ((message : Text) × (r.0 ≡ rejected message) × (truthy message ≡ true))
            × (r.1 ≡ m))
  unfolding response_failed handle_logout get_stored_auth_key
  response_failed_lem path e m =
      elim (Bool-cases
        (is_unauthorized e.status && redirects e.redirect_on_unauthorized && not (at_login path))) [
          | inl ends ↦ inl (
            ground (arith, ends),
            ground (arith, ends),
            ground (arith, ends),
            rw (ends, response_failed) refl,
            rw (ends, response_failed) (λ now. handle_logout-answer host now m),
            rw (ends, response_failed) refl,
          )
          | inr stays ↦ inr (
            (λ h. ground (arith, stays, h)),
            rw (stays, response_failed) (_, refl, first_text-truthy (messages e) 35831 _),
            rw (stays, response_failed) refl,
          )
        ]

  pub authorize-insert :
      (s : Session) (disk : AuthDisk) (headers : Dict Text)
      → trim s.key ≡ s.key
      → is_empty s.key ≡ false
      → lookup (text "Authorization") headers ≡ none
      → authorize host (set_stored_auth_session host s disk) headers
        ≡ insert (text "Authorization") (text "Bearer " ++ s.key) headers
  unfolding authorize
  authorize-insert s disk headers trimmed keyed bare =
      rw (key-set_stored_auth_session host s disk trimmed keyed, authorize)
        (rw (truthy-keyed s.key keyed, authorize) (rw (bare, authorize) refl))

  -- A request whose call sets no authorization goes with the key of the session that was stored last,
  -- its other headers as they were; after the session is cleared a request goes as its call made it.
  pub authorize-set_stored_auth_session :
      (s : Session) (disk : AuthDisk) (headers : Dict Text)
      → trim s.key ≡ s.key
      → is_empty s.key ≡ false
      → lookup (text "Authorization") headers ≡ none
      → let sent = authorize host (set_stored_auth_session host s disk) headers in
        (lookup (text "Authorization") sent ≡ some (text "Bearer " ++ s.key))
        × ((name : Text) → text "Authorization" ≢ name → lookup name sent ≡ lookup name headers)
        × (authorize host (clear_stored_auth_session host disk) headers ≡ headers)
  unfolding authorize
  authorize-set_stored_auth_session s disk headers trimmed keyed bare = (
    rw (authorize-insert s disk headers trimmed keyed bare) (
        lookup-insert (text "Authorization") (text "Authorization") (text "Bearer " ++ s.key)
          headers
        ∙ ground (arith, eq_refl (text "Authorization"))),
    (λ name differs. rw (authorize-insert s disk headers trimmed keyed bare) (
        lookup-insert (text "Authorization") name (text "Bearer " ++ s.key) headers
        ∙ ground (arith, differs, eq_iff (text "Authorization") name))),
    refl,
  )
