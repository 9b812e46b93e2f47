-- ===== src/Session/Access.antt =====
-- web/src/lib/use-auth-guard.ts: whom a guard lets stay on its page.
use gpt2api_image.Base.{
  ◌≡◌, refl, ◌↔◌, true, not, Option, none, some, List, [], ◌∷◌, any, inl, inr, ◌⊎◌, arith,
  Bool-cases,
}
use gpt2api_image.Auth.{AuthRole, Session}
use gpt2api_image.Session.{Memory, guard_loaded, guard_mounted, redirect, same_role}

-- The role stands in the list.
abbrev pub Includes : List AuthRole → AuthRole → Type 0
Includes [] role = ⊥
Includes (r ∷ rs) role = (role ≡ r) ⊎ Includes rs role

-- A session may stay if every role may, or its role is in the list.
abbrev pub MayStay : List AuthRole → Option Session → Type 0
MayStay roles none = ⊥
MayStay roles (some s) = (roles ≡ []) ⊎ Includes roles s.role

same_role-eq : (a b : AuthRole) → same_role a b ≡ true → a ≡ b
same_role-eq a b h = ground arith

any-Includes :
    (roles : List AuthRole) (role : AuthRole)
    → any (same_role role) roles ≡ true
    → Includes roles role
any-Includes [] role h = cc
any-Includes (r ∷ rs) role h = elim (Bool-cases (same_role role r)) [
  | inl same ↦ inl (same_role-eq role r same)
  | inr other ↦ inr (any-Includes rs role (rw other at h))
]

Includes-any :
    (roles : List AuthRole) (role : AuthRole)
    → Includes roles role
    → any (same_role role) roles ≡ true
Includes-any [] role h = absurd h
Includes-any (r ∷ rs) role (inl e) = ground (arith, e)
Includes-any (r ∷ rs) role (inr h) = ground (arith, Includes-any rs role h)

redirect-MayStay :
    (roles : List AuthRole) (session : Option Session)
    → (redirect roles session ≡ none) ↔ MayStay roles session
redirect-MayStay roles none = ((λ e. cc), (λ h. absurd h))
redirect-MayStay [] (some s) = ((λ e. inl refl), (λ h. refl))
redirect-MayStay (r ∷ rs) (some s) = elim (Bool-cases (any (same_role s.role) (r ∷ rs))) [
  | inl listed ↦ ((λ e. inr (any-Includes (r ∷ rs) s.role listed)), (λ h. rw listed refl))
  | inr missing ↦ (
    (λ e. absurd (ground (arith, e, missing))),
    (λ h. elim h [
      | inl e ↦ absurd (ground (arith, e))
      | inr i ↦ absurd (ground (arith, Includes-any (r ∷ rs) s.role i, missing))
    ]),
  )
]

-- A guard never sends away a session that may stay, and sends away every other; the page is shown at
-- once exactly if a session was validated before.
pub guard-MayStay :
    (roles : List AuthRole) (session : Option Session) (m : Memory)
    → ((guard_loaded roles session).replaced ≡ none ↔ MayStay roles session)
      × (m.validated_once ≡ true
          → (guard_mounted roles m).replaced ≡ none ↔ MayStay roles (guard_mounted roles m).session)
      × ((guard_mounted roles m).is_checking_auth ≡ not m.validated_once)
unfolding guard_loaded guard_mounted
guard-MayStay roles session m = (
  redirect-MayStay roles session,
  (λ known. rw known (redirect-MayStay roles m.cached)),
  ground arith,
)
