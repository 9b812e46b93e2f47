-- ===== src/Page/Inputs/Allowance.antt =====
-- web/src/app/image/page.tsx: the quota that `loadQuota` shows, and what it lets through.
use gpt2api_image.Base.{
  ℕ, suc, ◌==◌, ◌≡◌, ◌≢◌, refl, ap, ◌∙◌, Bool, true, false, ◌&&◌, ◌||◌, List, [], ◌∷◌, arith,
}
use gpt2api_image.Base.Num.{ℤ, pos, num, fin, le_ℤ, le_num}
use gpt2api_image.Base.Host.{Host}
use gpt2api_image.Page.{Page}
use gpt2api_image.Page.Composer.{ensure_quota_for_request}
use gpt2api_image.Page.Composer.Quota.{ensure_quota-exact, is_none, is_placeholder}
use gpt2api_image.Page.Inputs.{
  Identity, Limit, remaining_of, candidates, least, min_ℤ, quota_text, load_quota,
}

-- A limit lets `n` images through.
abbrev pub admits : ℕ → Limit → Bool
admits n limit = limit.unlimited || le_ℤ (pos n) (remaining_of limit)

abbrev pub admits_all : ℕ → Identity → Bool
admits_all n identity =
    admits n identity.daily && admits n identity.monthly && admits n identity.total

le-min_ℤ : (a b c : ℤ) → le_ℤ a (min_ℤ b c) ≡ (le_ℤ a b && le_ℤ a c)
unfolding le_ℤ
le-min_ℤ a b c = ground arith

abbrev all_le : ℤ → List ℤ → Bool
all_le a [] = true
all_le a (n ∷ ns) = le_ℤ a n && all_le a ns

le-least : (a n : ℤ) (ns : List ℤ) → le_ℤ a (least n ns) ≡ (le_ℤ a n && all_le a ns)
le-least a n [] = ground arith
le-least a n (m ∷ ms) = le-min_ℤ a n (least m ms) ∙ ap (λ b. le_ℤ a n && b) (le-least a m ms)

le_num-whole : (a b : ℤ) → le_num (fin a 0) (fin b 0) ≡ le_ℤ a b
unfolding le_num le_ℤ
le_num-whole a b = ground arith

all_le-candidates :
    (n : ℕ) (identity : Identity) → all_le (pos n) (candidates identity) ≡ admits_all n identity
all_le-candidates n identity = ground arith

-- What is shown is let through, whatever its numbers are, if it is no placeholder for them.
shown_admits :
    (host : Host) (n : ℕ) (ns : List ℤ) (page : Page)
    → page.is_root_admin ≡ false
    → page.available_quota ≡ quota_text host ns
    → (ns ≢ [] → is_placeholder (quota_text host ns) ≡ false)
    → is_none (ensure_quota_for_request host (num (suc n)) page) ≡ all_le (pos (suc n)) ns
unfolding ensure_quota_for_request ◌==◌
shown_admits host n [] page user shown h = rw (user, shown, ensure_quota_for_request) refl
shown_admits host n (m ∷ ms) page user shown h =
    ensure_quota-exact host page n (least m ms) 0
      (ap is_placeholder shown ∙ h (λ e. ground (arith, e)))
      (ap host.number_of shown ∙ host.number_show (fin (least m ms) 0))
    ∙ ap (λ b. b || le_num (num (suc n)) (fin (least m ms) 0)) user
    ∙ le_num-whole (pos (suc n)) (least m ms)
    ∙ le-least (pos (suc n)) m ms

-- After the quota of a user is loaded, a request for at least one image goes on exactly when each of
-- the daily, the monthly and the total limit is no limit or has that many images left, if the text of
-- the number that is shown is none of the three placeholders for a number.
pub load_quota-admits :
    (host : Host) (n : ℕ) (identity : Identity) (page : Page)
    → page.is_root_admin ≡ false
    → (candidates identity ≢ [] → is_placeholder (quota_text host (candidates identity)) ≡ false)
    → is_none (ensure_quota_for_request host (num (suc n)) (load_quota host identity page))
      ≡ admits_all (suc n) identity
unfolding load_quota
load_quota-admits host n identity page user h =
    shown_admits host n (candidates identity) (load_quota host identity page) user refl h
    ∙ all_le-candidates (suc n) identity
