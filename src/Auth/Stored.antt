-- ===== src/Auth/Stored.antt =====
-- web/src/store/auth.ts: what is read back after a session was stored, and what reading makes of the two
-- entries.
use gpt2api_image.Base.{
  Text, ◌==◌, eq_iff, eq_refl, trim, trim_start, ◌≡◌, refl, sym, true, false, Option, none, some,
  is_empty, arith, Option-cases, Bool-cases, some-eq, subst, [], ◌∷◌, inl, inr,
}
use gpt2api_image.Base.Trim.{trim_idem}
use gpt2api_image.Base.Host.{Host}
use gpt2api_image.Conversation.Raw.{string, is_truthy_value, text_of, to_text}
use gpt2api_image.Auth.{
  AuthDisk, RawSession, role_of_text, string_or, Session, get_stored_auth_key,
  get_stored_auth_session, key_text, normalize_session, raw_session, set_stored_auth_session,
}

-- A session whose texts are trimmed and whose key is not empty.
pub record IsNormalSession (s : Session) : Type 0 where
  pub key : trim s.key ≡ s.key
  pub keyed : is_empty s.key ≡ false
  pub subject_id : trim s.subject_id ≡ s.subject_id
  pub name : trim s.name ≡ s.name

empty_eq : (t : Text) → is_empty t ≡ true → t ≡ []
empty_eq [] h = refl
empty_eq (c ∷ t) h = cc

module _ (host : Host) where
  normalize_session-raw :
      (s : Session) (fallback : Text)
      → IsNormalSession s
      → normalize_session host (some (raw_session s)) fallback ≡ some s
  unfolding normalize_session is_truthy_value to_text ◌==◌
  normalize_session-raw s fallback h = ground (arith, h.key, h.keyed, h.subject_id, h.name)

  normalize_session-IsNormal :
      (raw : Option RawSession) (fallback : Text) (s : Session)
      → normalize_session host raw fallback ≡ some s
      → IsNormalSession s
  unfolding normalize_session
  normalize_session-IsNormal none fallback s h = cc
  normalize_session-IsNormal (some raw) fallback s h =
      elim (Option-cases (role_of_text (text_of raw.role))) [
        | inl unknown ↦ absurd (ground (arith, rw (unknown, normalize_session) at h))
        | inr (role, known) ↦
            elim (Bool-cases (is_empty (trim (string_or host raw.key fallback)))) [
              | inl empty ↦ absurd (ground (arith, rw (known, empty, normalize_session) at h))
              | inr keyed ↦
                  subst IsNormalSession (some-eq (rw (known, keyed, normalize_session) at h))
                    (record {
                      key = trim_idem (string_or host raw.key fallback);
                      keyed = keyed;
                      subject_id = trim_idem (string_or host raw.subject_id []);
                      name = trim_idem (string_or host raw.name []);
                    })
            ]
      ]

  -- A normal session that was stored is read back, and reading it changes nothing.
  pub get-set_stored_auth_session :
      (s : Session) (disk : AuthDisk)
      → IsNormalSession s
      → let disk' = set_stored_auth_session host s disk in
        get_stored_auth_session host disk' ≡ (some s, disk')
  unfolding get_stored_auth_session set_stored_auth_session
  get-set_stored_auth_session s disk h = simp (
    set_stored_auth_session,
    normalize_session-raw s _ h,
    get_stored_auth_session,
    h.key,
    eq_refl,
  )

  normalize_session_keyed :
      (s : Session)
      → trim s.key ≡ s.key
      → is_empty s.key ≡ false
      → normalize_session host (some (raw_session s)) []
        ≡ some (record s {
          subject_id = trim (string_or host (string s.subject_id) []);
          name = trim (string_or host (string s.name) []);
        })
  unfolding normalize_session is_truthy_value to_text ◌==◌
  normalize_session_keyed s trimmed keyed = ground (arith, trimmed, keyed)

  -- The key of a session that was stored goes with the requests.
  pub key-set_stored_auth_session :
      (s : Session) (disk : AuthDisk)
      → trim s.key ≡ s.key
      → is_empty s.key ≡ false
      → get_stored_auth_key host (set_stored_auth_session host s disk) ≡ s.key
  unfolding get_stored_auth_key set_stored_auth_session
  key-set_stored_auth_session s disk trimmed keyed = simp (
    set_stored_auth_session,
    normalize_session_keyed s trimmed keyed,
    get_stored_auth_key,
    trimmed,
  )

  -- The entry of the key agrees with the result.
  abbrev pub Agrees : Option Session → AuthDisk → Type 0
  Agrees (some s) disk = IsNormalSession s × (get_stored_auth_key host disk ≡ s.key)
  Agrees none disk = get_stored_auth_key host disk ≡ []

  -- Whatever the storage holds, reading the session gives a normal one or none, and leaves a key that
  -- is the one of the session, or no key.
  pub get_stored_auth_session-Agrees :
      (disk : AuthDisk) → let r = get_stored_auth_session host disk in Agrees r.0 r.1
  unfolding get_stored_auth_session get_stored_auth_key
  get_stored_auth_session-Agrees disk =
      elim (Option-cases (normalize_session host disk.session (key_text disk.key))) [
        | inl missing ↦
            rw (missing, get_stored_auth_session, Agrees)
              (elim (Bool-cases (is_empty (trim (key_text disk.key)))) [
                | inl empty ↦ rw empty (empty_eq (trim (key_text disk.key)) empty)
                | inr kept ↦ rw kept (unfold trim trim_start in refl)
              ])
        | inr (s, found) ↦
            let normal = normalize_session-IsNormal disk.session (key_text disk.key) s found in
            rw (found, get_stored_auth_session, Agrees)
              (
                normal,
                elim (Bool-cases (s.key == trim (key_text disk.key))) [
                  | inl same ↦ rw same (sym ((eq_iff s.key (trim (key_text disk.key))).0 same))
                  | inr other ↦ rw other normal.key
                ],
              )
      ]
