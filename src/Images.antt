-- ===== src/Images.antt =====
-- web/src/app/image-manager/page.tsx: the state of the page and what it shows of the images.
pub mod Handlers
pub mod Tagging
pub mod Tags
pub mod Filtered
use gpt2api_image.Base.{
  ℕ, zero, Text, text, ◌==◌, ◌or◌, ◌or?◌, truthy, trim, includes, Bool, true, false, not, ◌&&◌,
  ◌||◌, Option, none, some, List, [], ◌∷◌, map, filter, find, all, any, is_empty, length, contains,
  Dict, insert, if◌then◌else◌, ◌+◌,
}
use gpt2api_image.Base.Host.{Host}
use gpt2api_image.Selection.{Toast}
use gpt2api_image.Paging.{current_rows}

-- The fields that the page computes with.
pub record ManagedImage : Type 0 where
  pub rel : Text
  pub url : Text
  pub tags : Option (List Text)
  pub owner_id : Option Text

-- The summary is only shown, so it is a parameter.
pub record ImageOwner : Type 0 where
  pub id : Text
  pub name : Text
  pub deleted : Bool
  pub count : ℕ

-- What the server is asked for when the images are loaded.
pub record Filters : Type 0 where
  pub start_date : Text
  pub end_date : Text
  pub owner : Text

pub data DeleteMode : Type 0 where
  selected_images filtered_images : DeleteMode

pub record ImageManagerCache : Type 0 where
  pub items : List ManagedImage
  pub all_tags : List Text
  pub owners : List ImageOwner
  pub filters : Filters

-- The state of the page, with what the module caches.
pub record ImageManager : Type 0 where
  pub cached : Option ImageManagerCache
  pub items : List ManagedImage
  pub all_tags : List Text
  pub owners : List ImageOwner
  pub filters : Filters
  pub selected_tags : List Text
  pub selected_paths : List Text
  pub page : ℕ
  pub tag_input : Text
  pub delete_target : Option ManagedImage
  pub delete_mode : Option DeleteMode
  pub is_loading : Bool
  pub is_deleting : Bool
  pub is_downloading : Bool
  pub toasts : List Toast

unfoldable pub image_key : ManagedImage → Text
image_key item = item.rel or item.url

-- `item.tags ?? []`
abbrev pub tags_of : ManagedImage → List Text
tags_of item = elim item.tags [ none ↦ [] | some tags ↦ tags ]

unfoldable pub has_tags : List Text → ManagedImage → Bool
has_tags tags item = all (λ t. contains t (tags_of item)) tags

-- `filteredItems`
unfoldable pub filtered_items : ImageManager → List ManagedImage
unfolding has_tags
filtered_items page =
    if not (is_empty page.selected_tags)
    then filter (has_tags page.selected_tags) page.items
    else page.items

-- `hasActiveBulkFilter`
unfoldable pub has_active_bulk_filter : ImageManager → Bool
has_active_bulk_filter page =
    truthy page.filters.start_date
    || truthy page.filters.end_date
    || truthy page.filters.owner
    || not (is_empty page.selected_tags)

unfoldable pub current_images : ImageManager → List ManagedImage
unfolding filtered_items current_rows
current_images page = current_rows (filtered_items page) page.page 12

-- `selectedCount`
unfoldable pub selected_count : ImageManager → ℕ
unfolding filtered_items
selected_count page = elim page.delete_mode [
  | some filtered_images ↦ length (filtered_items page)
  | some selected_images ↦ length page.selected_paths
  | none ↦ length page.selected_paths
]

-- `currentPageSelected` and `allSelected`
unfoldable pub rows_selected : List ManagedImage → List Text → Bool
unfolding image_key
rows_selected rows paths = not (is_empty rows) && all (λ item. contains (image_key item) paths) rows

-- `ownerNameById`, from the owners in their order
unfoldable pub owner_names : List ImageOwner → Dict Text → Dict Text
unfolding insert
owner_names [] names = names
owner_names (item ∷ owners) names = owner_names owners (insert item.id (item.name or item.id) names)

-- `OwnerFilter`: the owners that are keys, and those of them that the search finds
unfoldable pub real_owners : List ImageOwner → List ImageOwner
real_owners =
    filter (λ item. not (item.id == text "__admin__") && not (item.id == text "__unowned__"))

unfoldable pub filtered_owners : Host → Text → List ImageOwner → List ImageOwner
unfolding real_owners includes trim
filtered_owners host query owners =
    let normalized = host.lower_case (trim query) in
    if truthy normalized
    then filter
        (λ item.
          includes normalized (host.lower_case item.name)
          || includes normalized (host.lower_case item.id))
        (real_owners owners)
    else real_owners owners

-- `OwnerFilter`: the label of the button
unfoldable pub owner_label : Text → List ImageOwner → Text
owner_label value owners =
    if not (truthy value)
    then text "全部来源"
    else if value == text "__admin__"
    then text "主密钥"
    else if value == text "__unowned__"
    then text "未归属"
    else elim (find (λ item. item.id == value) owners) [
      | none ↦ value
      | some selected ↦ selected.name or value
    ]

abbrev sum_counts : List ImageOwner → ℕ
sum_counts [] = 0
sum_counts (item ∷ owners) = item.count + sum_counts owners

abbrev count_of : Option ImageOwner → ℕ
count_of none = 0
count_of (some item) = item.count

-- `OwnerFilter`: `totalCount`
unfoldable pub total_count : List ImageOwner → ℕ
unfolding real_owners
total_count owners =
    sum_counts (real_owners owners)
    + count_of (find (λ item. item.id == text "__admin__") owners)
    + count_of (find (λ item. item.id == text "__unowned__") owners)
