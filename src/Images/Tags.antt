-- ===== src/Images/Tags.antt =====
-- web/src/app/image-manager/page.tsx: what the handlers of the tags do to the images and the filter.
use gpt2api_image.Base.{
  ℕ, Text, ◌==◌, eq_refl, trim, truthy, Bool, subst, true, false, not, ◌&&◌, List, [], ◌∷◌, ◌++◌,
  map, filter, contains, contains-filter, ◌≡◌, refl, sym, ap, ◌∙◌, arith, Bool-cases, inl, inr, All,
  is_empty,
}
use mathlib.Core.Logic.Or
use mathlib.Core.List.{Mem, mem-cons, mem-cons_self}
use gpt2api_image.Selection.{answered}
use gpt2api_image.Images.{ManagedImage, Filters, ImageManager, tags_of, has_tags, filtered_items}
use gpt2api_image.Images.Handlers.{set_image_tags, items_of, all_tags_of, set_items, set_all_tags}
use gpt2api_image.Images.Tagging.{
  handle_add_tag, handle_remove_tag, handle_set_tags, tag_deleted, with_tags, without_tag, tags_set,
}

-- The tags of an image when one tag has been taken away.
tags-without :
    (t tag : Text) (item : ManagedImage)
    → contains t (tags_of (without_tag tag item)) ≡ (contains t (tags_of item) && not (t == tag))
tags-without t tag item = contains-filter t (λ k. not (k == tag)) (tags_of item)

-- An image that had all the chosen tags has those that are left.
still_matches :
    (tag : Text) (chosen : List Text) (item : ManagedImage)
    → has_tags chosen item ≡ true
    → has_tags (filter (λ t. not (t == tag)) chosen) (without_tag tag item) ≡ true
unfolding has_tags
still_matches tag [] item h = refl
still_matches tag (t ∷ chosen) item h = elim (Bool-cases (t == tag)) [
  | inl gone ↦ rw gone (still_matches tag chosen item (ground (arith, h)))
  | inr kept ↦
      rw kept (ground (arith, h, kept, tags-without t tag item, still_matches tag chosen item))
]

without-All :
    (tag : Text) (items : List ManagedImage)
    → All (λ item. contains tag (tags_of item) ≡ false) (map (without_tag tag) items)
without-All tag [] = tt
without-All tag (item ∷ items) =
    (ground (arith, tags-without tag tag item, eq_refl tag), without-All tag items)

All-Mem_cons :
    (x : ManagedImage) (ys xs : List ManagedImage)
    → All (λ item. Mem item ys) xs
    → All (λ item. Mem item (x ∷ ys)) xs
All-Mem_cons x ys [] h = tt
All-Mem_cons x ys (item ∷ xs) h = (mem-cons.1 (Or.inr h.0), All-Mem_cons x ys xs h.1)

kept_by :
    (p : ManagedImage → Bool) (x : ManagedImage) (xs : List ManagedImage)
    → p x ≡ true
    → filter p (x ∷ xs) ≡ x ∷ filter p xs
kept_by p x xs h = rw h refl

dropped_by :
    (p : ManagedImage → Bool) (x : ManagedImage) (xs : List ManagedImage)
    → p x ≡ false
    → filter p (x ∷ xs) ≡ filter p xs
dropped_by p x xs h = rw h refl

-- What passes the filter with a tag and then loses the tag passes what is left of the filter.
still_shown :
    (tag : Text) (chosen : List Text) (items : List ManagedImage)
    → let left = filter (λ t. not (t == tag)) chosen in
      All
        (λ item. Mem item (filter (has_tags left) (map (without_tag tag) items)))
        (map (without_tag tag) (filter (has_tags chosen) items))
still_shown tag chosen [] = tt
still_shown tag chosen (item ∷ items) =
    let left = filter (λ t. not (t == tag)) chosen in
    let rest = filter (has_tags left) (map (without_tag tag) items) in
    let more = All-Mem_cons (without_tag tag item) rest _ (still_shown tag chosen items) in
    elim (Bool-cases (has_tags chosen item)) [
      | inl shown ↦ rw shown (
          subst
            (λ l.
              All (λ image. Mem image l)
                (without_tag tag item ∷ map (without_tag tag) (filter (has_tags chosen) items)))
            (sym (
              kept_by (has_tags left) (without_tag tag item) _
                (still_matches tag chosen item shown)))
            (mem-cons_self, more))
      | inr hidden ↦ rw hidden (elim (Bool-cases (has_tags left (without_tag tag item))) [
        | inl late ↦
            subst
              (λ l.
                All (λ image. Mem image l) (map (without_tag tag) (filter (has_tags chosen) items)))
              (sym (kept_by (has_tags left) (without_tag tag item) _ late)) more
        | inr never ↦
            subst
              (λ l.
                All (λ image. Mem image l) (map (without_tag tag) (filter (has_tags chosen) items)))
              (sym (dropped_by (has_tags left) (without_tag tag item) _ never))
              (still_shown tag chosen items)
      ])
    ]

no_filter : (items : List ManagedImage) → filter (has_tags []) items ≡ items
unfolding has_tags
no_filter [] = refl
no_filter (item ∷ items) = ap (λ l. item ∷ l) (no_filter items)

bare : (xs : List Text) → is_empty xs ≡ true → xs ≡ []
bare [] h = refl
bare (x ∷ xs) h = cc

filtered-eq :
    (page : ImageManager) → filtered_items page ≡ filter (has_tags page.selected_tags) page.items
unfolding filtered_items
filtered-eq page = elim (Bool-cases (is_empty page.selected_tags)) [
  | inl none_chosen ↦
      rw none_chosen
        (sym (ap (λ l. filter (has_tags l) page.items) (bare _ none_chosen) ∙ no_filter page.items))
  | inr chosen ↦ rw chosen refl
]

-- After the server has deleted a tag, no image has it, and neither the list of the tags nor the filter names
-- it; the other tags stay chosen as they were; the images are those of before without the tag, and every one
-- that was shown is still among those that are shown; and the cache holds what the page does.
pub tag_deleted_lem :
    (filters : Filters) (tag : Text) (removed : ℕ) (page : ImageManager)
    → let page' = tag_deleted filters tag (answered removed) page in
      All (λ item. contains tag (tags_of item) ≡ false) page'.items
      × (contains tag page'.all_tags ≡ false)
      × ((t : Text)
          → contains t page'.selected_tags ≡ (contains t page.selected_tags && not (t == tag)))
      × (page'.items ≡ map (without_tag tag) page.items)
      × All (λ item. Mem item (filtered_items page')) (map (without_tag tag) (filtered_items page))
      × (items_of page'.cached ≡ page'.items)
      × (all_tags_of page'.cached ≡ page'.all_tags)
unfolding tag_deleted set_items set_all_tags
tag_deleted_lem filters tag removed page = (
  without-All tag page.items,
  ground (arith, contains-filter tag (λ t. not (t == tag)) page.all_tags, eq_refl tag),
  (λ t. contains-filter t (λ k. not (k == tag)) page.selected_tags),
  refl,
  rw (filtered-eq page) (
      rw (filtered-eq (tag_deleted filters tag (answered removed) page))
        (still_shown tag page.selected_tags page.items)),
  refl,
  refl,
)

filter-without :
    (tag : Text) (tags : List Text)
    → contains tag tags ≡ false
    → filter (λ t. not (t == tag)) (tags ++ tag ∷ []) ≡ tags
filter-without tag [] h = rw (eq_refl tag) refl
filter-without tag (t ∷ tags) h = elim (Bool-cases (t == tag)) [
  | inl same ↦ absurd (ground (arith, h, same))
  | inr other ↦ rw other (ap (λ l. t ∷ l) (filter-without tag tags (ground (arith, h, other))))
]

-- A tag that is typed for an image and is new there is sent with the tags of the image. If the server
-- answers with what was sent, taking the tag away sends the tags that the image had.
pub handle_remove_tag-handle_add_tag :
    (filters : Filters) (item : ManagedImage) (page : ImageManager)
    → truthy (trim page.tag_input) ≡ true
    → contains (trim page.tag_input) (tags_of item) ≡ false
    → let tag = trim page.tag_input in
      let tags = tags_of item ++ tag ∷ [] in
      let (asked, typed) = handle_add_tag item page in
      let shown = (tags_set filters item (answered tags) typed).1 in
      (asked ≡ set_image_tags item.rel tags ∷ [])
      × (shown.items ≡ map (with_tags item.rel tags) page.items)
      × ((handle_remove_tag (with_tags item.rel tags item) tag shown).0
          ≡ set_image_tags item.rel (tags_of item) ∷ [])
unfolding handle_add_tag handle_remove_tag handle_set_tags tags_set set_items
handle_remove_tag-handle_add_tag filters item page filled fresh =
    rw (filled, fresh)
      (
        refl,
        refl,
        rw (eq_refl item.rel) (
            ap (λ l. set_image_tags item.rel l ∷ [])
              (filter-without (trim page.tag_input) (tags_of item) fresh)),
      )
