-- ===== src/Page/Composer/Quota.antt =====
-- web/src/app/image/page.tsx: when `ensureQuotaForRequest` lets a request go on.
use gpt2api_image.Base.{
  ℕ, suc, Text, text, ◌==◌, ◌≡◌, refl, Bool, true, false, ◌||◌, Option, none, some, if◌then◌else◌,
  arith, Bool-cases, inl, inr,
}
use gpt2api_image.Base.Num.{ℤ, fin, num, le_num, lt_num}
use gpt2api_image.Base.Host.{Host}
use gpt2api_image.Page.{Page}
use gpt2api_image.Page.Composer.{ensure_quota_for_request}

abbrev pub is_none {ℓ} : {A : Type ℓ} → Option A → Bool
is_none none = true
is_none (some a) = false

-- The quotas that stand for no number.
abbrev pub is_placeholder : Text → Bool
is_placeholder quota = quota == text "∞" || quota == text "加载中..." || quota == text "--"

decide :
    (n : ℕ) (r : ℤ) (f : ℕ) (a b : Text)
    → is_none (
        if le_num (fin r f) (num 0)
        then some a
        else if lt_num (fin r f) (num (suc n))
        then some b
        else none)
      ≡ le_num (num (suc n)) (fin r f)
unfolding le_num lt_num
decide n r f a b = ground arith

-- An administrator is never stopped. With a quota that is a finite number, a request for at least one
-- image goes on exactly when the quota is enough for all of its images.
pub ensure_quota-exact :
    (host : Host) (page : Page) (n : ℕ) (r : ℤ) (f : ℕ)
    → is_placeholder page.available_quota ≡ false
    → host.number_of page.available_quota ≡ fin r f
    → is_none (ensure_quota_for_request host (num (suc n)) page)
      ≡ (page.is_root_admin || le_num (num (suc n)) (fin r f))
unfolding ensure_quota_for_request le_num lt_num
ensure_quota-exact host page n r f h e = elim (Bool-cases page.is_root_admin) [
  | inl admin ↦ rw (admin, ensure_quota_for_request) refl
  | inr user ↦ rw (user, h, e, ensure_quota_for_request) (decide n r f _ _)
]
