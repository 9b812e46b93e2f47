-- ===== src/Paging/Trail.antt =====
-- What the pager of web/src/app/accounts/page.tsx shows.
use gpt2api_image.Base.{
  ℕ, zero, suc, ◌+◌, ◌-◌, ◌≤◌, ◌<◌, ◌≡◌, refl, subst, List, [], ◌∷◌, ◌++◌, Bool, true, false, eqb,
  ltb, if◌then◌else◌, Bool-cases, inl, inr, arith, ◌||◌,
}
use gpt2api_image.Paging.{PageItem, number, dots, numbers_from, pagination_items, max, min}

-- The items lead from the page before them to the last page: a number follows the page before, and
-- dots stand just where pages are left out.
abbrev pub IsTrail : ℕ → List PageItem → ℕ → Type 0
IsTrail at [] pages = at ≡ pages
IsTrail at (number page ∷ items) pages = (page ≡ at + 1) × IsTrail page items pages
IsTrail at (dots ∷ number page ∷ items) pages = (at + 1 < page) × IsTrail page items pages
IsTrail at (dots ∷ _) pages = ⊥

abbrev pub shows : ℕ → List PageItem → Bool
shows page [] = false
shows page (number other ∷ items) = eqb other page || shows page items
shows page (dots ∷ items) = shows page items

shows-append :
    (page : ℕ) (xs ys : List PageItem) → shows page (xs ++ ys) ≡ (shows page xs || shows page ys)
shows-append page [] ys = refl
shows-append page (number other ∷ xs) ys = ground (arith, shows-append page xs ys)
shows-append page (dots ∷ xs) ys = shows-append page xs ys

shows-numbers_from :
    (page start rounds : ℕ)
    → start ≤ page
    → page < start + rounds
    → shows page (numbers_from start rounds) ≡ true
unfolding numbers_from
shows-numbers_from page start zero low high = absurd (omega arith)
shows-numbers_from page start (suc rounds) low high =
    ground (arith, shows-numbers_from page (start + 1) rounds)

numbers_from-IsTrail :
    (at rounds : ℕ) (rest : List PageItem) (pages : ℕ)
    → IsTrail (at + rounds) rest pages
    → IsTrail at (numbers_from (at + 1) rounds ++ rest) pages
unfolding numbers_from
numbers_from-IsTrail at zero rest pages h = subst (λ k. IsTrail k rest pages) (omega arith) h
numbers_from-IsTrail at (suc rounds) rest pages h = (
  refl,
  numbers_from-IsTrail (at + 1) rounds rest pages
      (subst (λ k. IsTrail k rest pages) (omega arith) h),
)

-- What follows the numbers around the shown page.
abbrev ending : ℕ → ℕ → List PageItem
ending end pages =
    (if ltb end (pages - 1) then dots ∷ [] else [])
    ++ (if ltb end pages then number pages ∷ [] else [])

ending-IsTrail : (end pages : ℕ) → end ≤ pages → IsTrail end (ending end pages) pages
ending-IsTrail end pages h = elim (Bool-cases (ltb end pages)) [
  | inl before ↦ elim (Bool-cases (ltb end (pages - 1))) [
    | inl far ↦ rw (before, far) (ground arith, refl)
    | inr near ↦ rw (before, near) (ground arith, refl)
  ]
  | inr last_page ↦
      let near : ltb end (pages - 1) ≡ false = ground arith in rw (last_page, near) (ground arith)
]

-- What stands in front of them.
abbrev opening : ℕ → List PageItem → List PageItem
opening start rest =
    (if ltb 1 start then number 1 ∷ [] else []) ++ ((if ltb 2 start then dots ∷ [] else []) ++ rest)

opening-IsTrail :
    (start : ℕ) (rest : List PageItem) (pages : ℕ)
    → 1 ≤ start
    → IsTrail start rest pages
    → IsTrail 0 (opening start (number start ∷ rest)) pages
opening-IsTrail start rest pages low h = elim (Bool-cases (ltb 1 start)) [
  | inl more ↦ elim (Bool-cases (ltb 2 start)) [
    | inl many ↦ rw (more, many) (refl, (ground arith, h))
    | inr two ↦ rw (more, two) (refl, (ground arith, h))
  ]
  | inr one ↦ let few : ltb 2 start ≡ false = ground arith in rw (one, few) (ground arith, h)
]

around-IsTrail :
    (start rounds end pages : ℕ)
    → 1 ≤ start
    → 1 ≤ rounds
    → start + rounds ≡ end + 1
    → end ≤ pages
    → IsTrail 0 (opening start (numbers_from start rounds ++ ending end pages)) pages
unfolding numbers_from
around-IsTrail start zero end pages low some_rounds e h = absurd (omega arith)
around-IsTrail start (suc rounds) end pages low some_rounds e h =
    opening-IsTrail start (numbers_from (start + 1) rounds ++ ending end pages) pages low (
      numbers_from-IsTrail start rounds (ending end pages) pages (
        subst (λ k. IsTrail k (ending end pages) pages) (omega arith) (ending-IsTrail end pages h)))

-- The numbers from 1 with dots to the last page, where the shown page is among them.
pub pagination_items-IsTrail :
    (pages safe : ℕ)
    → 1 ≤ safe
    → safe ≤ pages
    → IsTrail 0 (pagination_items pages safe) pages
      × (shows safe (pagination_items pages safe) ≡ true)
unfolding pagination_items
pagination_items-IsTrail pages safe low high =
    let start = max 1 (safe - 1) in
    let end = min pages (safe + 1) in
    let rounds = end + 1 - start in
    let shown : shows safe (numbers_from start rounds) ≡ true =
      shows-numbers_from safe start rounds (ground arith) (ground arith) in
    (
      around-IsTrail start rounds end pages (ground arith) (ground arith) (ground arith)
          (ground arith),
      ground (
        arith,
        shown,
        shows-append safe (if ltb 1 start then number 1 ∷ [] else []) (
            (if ltb 2 start then dots ∷ [] else [])
            ++ (numbers_from start rounds ++ ending end pages)),
        shows-append safe (if ltb 2 start then dots ∷ [] else [])
            (numbers_from start rounds ++ ending end pages),
        shows-append safe (numbers_from start rounds) (ending end pages),
      ),
    )
