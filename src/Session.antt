-- ===== src/Session.antt =====
-- web/src/lib/auth-session.ts and web/src/lib/use-auth-guard.ts: the cached session, its validation by
-- the server, and what the guard of a page does with it. A validation is cut at its requests: `validate`
-- is the code up to the first one, and `login_succeeded` and `login_failed` are what follows.
pub mod Cache
pub mod Access
use gpt2api_image.Base.{
  ℕ, ◌+◌, Text, text, Bool, true, false, not, ◌&&◌, ◌||◌, Option, none, some, List, [], ◌∷◌, any,
  is_empty, ltb, if◌then◌else◌, trim, truthy,
}
use gpt2api_image.Base.Host.{Host}
use gpt2api_image.Auth.{
  AuthDisk, AuthRole, Session, clear_stored_auth_session, get_default_route_for_role,
  get_stored_auth_session, set_stored_auth_session,
}

-- The module's variables, and the storage beside them. `pending` tells whether there is a
-- `pendingValidation`.
pub record Memory : Type 0 where
  pub cached : Option Session
  pub validated_once : Bool
  pub validated_at : ℕ
  pub pending : Bool
  pub disk : AuthDisk

-- `AUTH_VALIDATION_TTL_MS`
abbrev pub auth_validation_ttl_ms : ℕ
auth_validation_ttl_ms = 30000

-- `primeAuthSessionCache`
unfoldable pub prime_auth_session_cache : ℕ → Option Session → Memory → Memory
prime_auth_session_cache now session m = record m {
  cached = session;
  validated_once = true;
  validated_at = now;
}

-- `clearAuthSessionCache`
unfoldable pub clear_auth_session_cache : Memory → Memory
clear_auth_session_cache m = record m {
  cached = none;
  validated_once = false;
  validated_at = 0;
  pending = false;
}

-- What `getValidatedAuthSession` comes to before it waits: an answer from the cache, the promise of the
-- validation that is under way, an answer without a request, or a login with a key.
pub data Step : Type 0 where
  answer : Option Session → Step
  join : Step
  ask : Text → Step

pub record LoginData : Type 0 where
  pub role : AuthRole
  pub subject_id : Text
  pub name : Text

module _ (host : Host) where
  -- `validateAuthSession`, up to its request
  unfoldable pub validate : ℕ → Memory → Step × Memory
  unfolding get_stored_auth_session prime_auth_session_cache
  validate now m =
      let (stored, disk) = get_stored_auth_session host m.disk in
      let read = record m { disk = disk } in
      elim stored [
        | none ↦ (answer none, prime_auth_session_cache now none read)
        | some s ↦ (ask s.key, record read { pending = true })
      ]

  -- `getValidatedAuthSession`, up to its request; `now - validated_at` may be negative.
  unfoldable pub get_validated_auth_session : ℕ → Memory → Step × Memory
  unfolding validate
  get_validated_auth_session now m =
      let started = validate now m in
      if m.validated_once && ltb now (m.validated_at + auth_validation_ttl_ms)
      then (answer m.cached, m)
      else if m.pending
      then (join, m)
      else started

  -- After the request: the login with the key has succeeded, or it has failed.
  unfoldable pub login_succeeded : ℕ → Text → LoginData → Memory → Option Session × Memory
  unfolding set_stored_auth_session prime_auth_session_cache
  login_succeeded now key answered m =
      let session : Session = record {
        key = key;
        role = answered.role;
        subject_id = answered.subject_id;
        name = answered.name;
      } in
      (
        some session,
        record (prime_auth_session_cache now (some session)
            (record m { disk = set_stored_auth_session host session m.disk })) { pending = false },
      )

  unfoldable pub login_failed : ℕ → Memory → Option Session × Memory
  unfolding prime_auth_session_cache
  login_failed now m = (
    none,
    record (prime_auth_session_cache now none
        (record m { disk = clear_stored_auth_session host m.disk })) { pending = false },
  )

  -- `handleLogout` of web/src/components/top-nav.tsx
  unfoldable pub handle_logout : Memory → Memory
  unfolding clear_auth_session_cache
  handle_logout m =
      clear_auth_session_cache (record m { disk = clear_stored_auth_session host m.disk })

-- What a guard shows, and where it sends the browser.
pub record Guard : Type 0 where
  pub session : Option Session
  pub is_checking_auth : Bool
  pub replaced : Option Text

abbrev same_role : AuthRole → AuthRole → Bool
same_role AuthRole.admin AuthRole.admin = true
same_role AuthRole.user AuthRole.user = true
same_role _ _ = false

-- `roleList.length > 0 && !roleList.includes(role)`
abbrev pub is_refused : List AuthRole → AuthRole → Bool
is_refused roles role = not (is_empty roles) && not (any (same_role role) roles)

-- The redirect of a session that is known.
abbrev pub redirect : List AuthRole → Option Session → Option Text
redirect roles none = some (text "/login")
redirect roles (some s) =
    if is_refused roles s.role then some (get_default_route_for_role s.role) else none

-- `useAuthGuard` when the page is shown, and after its validation
unfoldable pub guard_mounted : List AuthRole → Memory → Guard
guard_mounted roles m =
    if m.validated_once
    then record { session = m.cached; is_checking_auth = false; replaced = redirect roles m.cached }
    else record { session = none; is_checking_auth = true; replaced = none }

unfoldable pub guard_loaded : List AuthRole → Option Session → Guard
guard_loaded roles session = record {
  session = session;
  is_checking_auth = false;
  replaced = redirect roles session;
}
