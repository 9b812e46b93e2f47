-- ===== src/Paging/Whole.antt =====
-- The pages of a table, one after the other, are the list.
use Prim.Native.Nat.{◌/◌, ◌%◌}
use native.Mathlib.Nat.{zero-mul, div-add-mod, mod-lt, mul_comm, suc-mul, mul-le-mul_right}
use gpt2api_image.Base.{
  any, Bool, true, ℕ, zero, suc, ◌+◌, ◌-◌, ◌*◌, ◌≤◌, ◌<◌, ◌≡◌, refl, sym, ap, ◌∙◌, List, [], ◌++◌,
  length, take, drop, take-add, take_all, length-take-le, length-take-pos, length-drop, ltb,
  Bool-cases, ◌⊎◌, inl, inr, arith,
}
use gpt2api_image.Selection.{any-drop, any-take}
use gpt2api_image.Paging.{page_count, safe_page, current_rows}

page_count-pos : (count size : ℕ) → 1 ≤ page_count count size
unfolding page_count
page_count-pos count size = ground arith

-- The page that is shown is in range, and it is the page asked for where that is in range.
safe_page_bounds :
    (page pages : ℕ)
    → (1 ≤ page → 1 ≤ pages → 1 ≤ safe_page page pages)
      × (safe_page page pages ≤ pages)
      × (page ≤ pages → safe_page page pages ≡ page)
unfolding safe_page
safe_page_bounds page pages =
    ((λ low some_pages. ground arith), ground arith, (λ high. ground arith))

module _ (count size : ℕ) (positive : 0 < size) where
  -- The rounded quotient times the size lies between the number of rows and a page more.
  quotient_bounds :
      let q = (count + (size - 1)) / size in (count ≤ q * size) × (q * size < count + size)
  quotient_bounds =
      let whole = count + (size - 1) in
      let e : size * (whole / size) + whole % size ≡ whole = div-add-mod whole size in
      let r : whole % size < size = mod-lt whole positive in
      let c : size * (whole / size) ≡ whole / size * size = mul_comm size (whole / size) in
      (omega (arith, e, r, c), omega (arith, e, r, c))

  -- No fewer pages than the rows need, and at least one.
  page_count-covers : count ≤ page_count count size * size
  unfolding page_count
  page_count-covers = grind (arith, quotient_bounds.0)

  -- A page in range begins before the end of the rows.
  page_count-starts :
      (page : ℕ) → 1 ≤ page → page ≤ page_count count size → 0 < count → (page - 1) * size < count
  unfolding page_count
  page_count-starts page low high some_rows =
      let q = (count + (size - 1)) / size in
      let bound : page ≤ q = grind (arith, quotient_bounds.0) in
      let step : (page - 1) * size + size ≡ page * size =
        sym (suc-mul (page - 1) size) ∙ ap (λ k. k * size) (omega arith) in
      let most : page * size ≤ q * size = mul-le-mul_right size bound in
      omega (arith, quotient_bounds.1)

module _ {ℓ} {A : Type ℓ} (items : List A) (size : ℕ) where
  -- The rows of a page in range are those behind the pages before.
  current_rows-in_range :
      (page : ℕ)
      → page ≤ page_count (length items) size
      → current_rows items page size ≡ take size (drop ((page - 1) * size) items)
  unfolding current_rows
  current_rows-in_range page h =
      ap (λ p. take size (drop ((p - 1) * size) items))
        ((safe_page_bounds page (page_count (length items) size)).2 h)

  -- The rows of the first pages, one page after the other.
  abbrev pub rows_upto : ℕ → List A
  rows_upto zero = []
  rows_upto (suc page) = rows_upto page ++ current_rows items (suc page) size

  add_one_sub : (n : ℕ) → suc n - 1 ≡ n
  add_one_sub n = omega arith

  rows_upto-take :
      (page : ℕ) → page ≤ page_count (length items) size → rows_upto page ≡ take (page * size) items
  rows_upto-take zero h = rw zero-mul refl
  rows_upto-take (suc page) h =
      rw (rows_upto-take page (omega arith), current_rows-in_range (suc page) h, add_one_sub page)
        (take-add (page * size) size items ∙ ap (λ k. take k items) (sym (suc-mul page size)))

  shows_rows :
      (page : ℕ)
      → 0 < size
      → 1 ≤ page
      → 0 < length items
      → 0 < length (current_rows items page size)
  unfolding current_rows
  shows_rows page positive low some_rows =
      let shown = safe_page page (page_count (length items) size) in
      let bounds = safe_page_bounds page (page_count (length items) size) in
      length-take-pos size _ positive (
        omega (
          arith,
          length-drop ((shown - 1) * size) items,
          page_count-starts (length items) size positive shown (bounds.0 low (page_count-pos _ _))
              bounds.1 some_rows,
        ))

  -- The pages of a table whose pages have a positive size, one after the other, are its rows, each once and
  -- in their order. Whatever page from 1 on is asked for, no more rows than the size are shown, and some
  -- are unless there are none.
  pub rows_upto-all :
      (page : ℕ)
      → 0 < size
      → 1 ≤ page
      → (rows_upto (page_count (length items) size) ≡ items)
        × (length (current_rows items page size) ≤ size)
        × ((length items ≡ 0) ⊎ (0 < length (current_rows items page size)))
  unfolding current_rows
  rows_upto-all page positive low = (
    rows_upto-take (page_count (length items) size) (omega arith)
        ∙ take_all _ items (page_count-covers (length items) size positive),
    length-take-le size _,
    elim (Bool-cases (ltb 0 (length items))) [
      | inl filled ↦ inr (shows_rows page positive low (ground arith))
      | inr bare ↦ inl (ground arith)
    ],
  )

-- Whatever is found among the rows of a page is found in the list.
pub current_rows-any {ℓ} :
    {A : Type ℓ} (p : A → Bool) (items : List A) (page size : ℕ)
    → any p (current_rows items page size) ≡ true
    → any p items ≡ true
unfolding current_rows
current_rows-any p items page size h =
    let start = (safe_page page (page_count (length items) size) - 1) * size in
    any-drop p start items (any-take p size (drop start items) h)
