-- ===== src/Session/Cache.antt =====
-- web/src/lib/auth-session.ts: when the cache answers, and what is left after a login and a logout.
use gpt2api_image.Base.{
  ℕ, ◌+◌, ◌<◌, ◌≤◌, Text, ◌≡◌, refl, true, false, Option, none, some, ltb, arith,
}
use gpt2api_image.Base.Host.{Host}
use gpt2api_image.Auth.{Session, get_stored_auth_session, normalize_session}
use gpt2api_image.Auth.Stored.{IsNormalSession, get-set_stored_auth_session}
use gpt2api_image.Session.{
  LoginData, Memory, answer, clear_auth_session_cache, get_validated_auth_session, handle_logout,
  login_succeeded, prime_auth_session_cache, validate,
}

pub ltb-true : (a b : ℕ) → a < b → ltb a b ≡ true
ltb-true a b h = ground arith

ltb-false : (a b : ℕ) → b ≤ a → ltb a b ≡ false
ltb-false a b h = ground arith

module _ (host : Host) where
  -- For 30 seconds after a session, or the lack of one, has been put into the cache, that is the answer,
  -- without a request and without a change; after that the storage and the server are asked again,
  -- unless a validation is under way.
  pub get_validated-prime :
      (at now : ℕ) (session : Option Session) (m : Memory)
      → m.pending ≡ false
      → let primed = prime_auth_session_cache at session m in
        (now < at + 30000 → get_validated_auth_session host now primed ≡ (answer session, primed))
        × (at + 30000 ≤ now → get_validated_auth_session host now primed ≡ validate host now primed)
  unfolding get_validated_auth_session prime_auth_session_cache
  get_validated-prime at now session m idle = (
    (λ early. rw (ltb-true now (at + 30000) early, get_validated_auth_session) refl),
    (λ late. rw (ltb-false now (at + 30000) late, idle, get_validated_auth_session) refl),
  )

  abbrev session_of : Text → LoginData → Session
  session_of key answered = record {
    key = key;
    role = answered.role;
    subject_id = answered.subject_id;
    name = answered.name;
  }

  -- Whatever the state when the server confirms a key, that after a logout included, its session is
  -- what the cache answers for the next 30 seconds and what is then read from the storage.
  pub login_succeeded-IsKept :
      (at now : ℕ) (key : Text) (answered : LoginData) (m : Memory)
      → IsNormalSession (session_of key answered)
      → now < at + 30000
      → let r = (login_succeeded host at key answered m).1 in
        (get_validated_auth_session host now r ≡ (answer (some (session_of key answered)), r))
        × (get_stored_auth_session host r.disk ≡ (some (session_of key answered), r.disk))
  unfolding login_succeeded get_validated_auth_session prime_auth_session_cache
  login_succeeded-IsKept at now key answered m h early = (
    rw (ltb-true now (at + 30000) early, get_validated_auth_session) refl,
    get-set_stored_auth_session host (session_of key answered) m.disk h,
  )

  -- After a logout nothing is asked of the server, whenever the session is wanted and whatever was
  -- cached or under way: there is none.
  pub handle_logout-answer :
      (now : ℕ) (m : Memory)
      → (get_validated_auth_session host now (handle_logout host m)).0 ≡ answer none
  unfolding get_validated_auth_session handle_logout clear_auth_session_cache validate
      get_stored_auth_session normalize_session prime_auth_session_cache
  handle_logout-answer now m = refl
