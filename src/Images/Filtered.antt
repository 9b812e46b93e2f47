-- ===== src/Images/Filtered.antt =====
-- web/src/app/image-manager/page.tsx: the deletion of all images that match.
use gpt2api_image.Base.{
  Text, true, false, not, some, List, [], ◌∷◌, filter, length, is_empty, eqb, if◌then◌else◌, ◌≡◌,
  refl, ap, ◌∙◌, arith,
}
use gpt2api_image.Selection.{answered}
use gpt2api_image.Images.{
  ManagedImage, Filters, ImageManager, has_tags, filtered_items, has_active_bulk_filter,
  selected_count, filtered_images,
}
use gpt2api_image.Images.Handlers.{
  Loaded, delete_matching, images_loaded, ask_filtered, confirm_delete,
}

-- The images of an answer that the chosen tags leave.
abbrev pub matching : List Text → List ManagedImage → List ManagedImage
matching tags items = if not (is_empty tags) then filter (has_tags tags) items else items

filled : (items : List ManagedImage) → is_empty items ≡ false → eqb (length items) 0 ≡ false
filled [] h = cc
filled (item ∷ items) h = ground arith

count-filtered :
    (page : ImageManager)
    → page.delete_mode ≡ some filtered_images
    → selected_count page ≡ length (filtered_items page)
unfolding selected_count
count-filtered page mode = rw (mode, selected_count) refl

-- The deletion of the matching images, when its dialog is open.
confirm-filtered :
    (page : ImageManager)
    → page.delete_mode ≡ some filtered_images
    → is_empty (filtered_items page) ≡ false
    → (confirm_delete page).0 ≡ delete_matching page.filters page.selected_tags ∷ []
unfolding confirm_delete
confirm-filtered page mode some_shown =
    let some_counted : eqb (selected_count page) 0 ≡ false =
      ap (λ n. eqb n 0) (count-filtered page mode) ∙ filled (filtered_items page) some_shown in
    rw (mode, confirm_delete) (rw some_counted refl)

ask_filtered-eq :
    (page : ImageManager)
    → page.is_deleting ≡ false
    → has_active_bulk_filter page ≡ true
    → is_empty (filtered_items page) ≡ false
    → ask_filtered page ≡ record page { delete_mode = some filtered_images }
unfolding ask_filtered
ask_filtered-eq page idle active some_shown = rw (idle, some_shown, active) refl

-- Whatever filters the images of the last answer were asked for, they are shown, and loading is over. If
-- some of them have the chosen tags, and the page now has a filter, then the dialog for the deletion
-- counts these images, but what it sends are the filters of the page.
pub confirm_delete-images_loaded :
    (asked : Filters) (answer : Loaded) (page : ImageManager)
    → page.is_deleting ≡ false
    → has_active_bulk_filter page ≡ true
    → is_empty (matching page.selected_tags answer.items) ≡ false
    → let shown = images_loaded asked false (answered answer) page in
      let opened = ask_filtered shown in
      (shown.items ≡ answer.items)
      × (shown.is_loading ≡ false)
      × (selected_count opened ≡ length (matching page.selected_tags answer.items))
      × ((confirm_delete opened).0 ≡ delete_matching page.filters page.selected_tags ∷ [])
unfolding images_loaded filtered_items has_active_bulk_filter
confirm_delete-images_loaded asked answer page idle active some_shown =
    let shown = images_loaded asked false (answered answer) page in
    let opened = record shown { delete_mode = some filtered_images } in
    let e : ask_filtered shown ≡ opened = ask_filtered-eq shown idle active some_shown in
    (
      refl,
      refl,
      ap selected_count e ∙ count-filtered opened refl,
      ap (λ p. (confirm_delete p).0) e ∙ confirm-filtered opened refl some_shown,
    )
