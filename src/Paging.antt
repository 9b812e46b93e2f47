-- ===== src/Paging.antt =====
-- The pages of a table, as web/src/app/accounts/page.tsx, web/src/app/image-manager/page.tsx,
-- web/src/app/logs/page.tsx and web/src/app/keys/components/user-keys-card.tsx compute them.
pub mod Whole
pub mod Trail
use Prim.Native.Nat.{◌/◌}
use gpt2api_image.Base.{
  ℕ, zero, suc, ◌+◌, ◌-◌, ◌*◌, List, [], ◌∷◌, ◌++◌, length, take, drop, leb, ltb, if◌then◌else◌,
}

-- `Math.max(a, b)` and `Math.min(a, b)` of whole numbers
abbrev pub max : ℕ → ℕ → ℕ
max a b = if leb a b then b else a

abbrev pub min : ℕ → ℕ → ℕ
min a b = if leb a b then a else b

-- `Math.max(1, Math.ceil(count / size))`
unfoldable pub page_count : ℕ → ℕ → ℕ
page_count count size = max 1 ((count + (size - 1)) / size)

-- `Math.min(page, pageCount)`
unfoldable pub safe_page : ℕ → ℕ → ℕ
safe_page page pages = min page pages

-- The rows of the page: the slice from `(safePage - 1) * size` to `safePage * size`.
unfoldable pub current_rows {ℓ} : {A : Type ℓ} → List A → ℕ → ℕ → List A
unfolding page_count safe_page
current_rows items page size =
    take size (drop ((safe_page page (page_count (length items) size) - 1) * size) items)

-- What the pager shows: the number of a page, or the dots.
pub data PageItem : Type 0 where
  number : ℕ → PageItem
  dots : PageItem

-- `for (let current = start; current <= end; current += 1) items.push(current)`, for the rounds left
unfoldable pub numbers_from : ℕ → ℕ → List PageItem
numbers_from current zero = []
numbers_from current (suc rounds) = number current ∷ numbers_from (current + 1) rounds

-- `paginationItems`
unfoldable pub pagination_items : ℕ → ℕ → List PageItem
unfolding numbers_from
pagination_items pages safe =
    let start = max 1 (safe - 1) in
    let end = min pages (safe + 1) in
    (if ltb 1 start then number 1 ∷ [] else [])
    ++ ((if ltb 2 start then dots ∷ [] else [])
        ++ (numbers_from start (end + 1 - start)
            ++ ((if ltb end (pages - 1) then dots ∷ [] else [])
                ++ (if ltb end pages then number pages ∷ [] else []))))
