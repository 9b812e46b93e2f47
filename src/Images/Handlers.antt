-- ===== src/Images/Handlers.antt =====
-- web/src/app/image-manager/page.tsx: the handlers, each up to its request and after it. The filters that the
-- closure of a handler has seen are an argument of what comes after its request.
use gpt2api_image.Base.{
  ℕ, Text, text, ◌==◌, show, Bool, true, false, not, ◌&&◌, ◌||◌, Option, none, some, List, [], ◌∷◌,
  ◌++◌, map, filter, is_empty, length, eqb, if◌then◌else◌,
}
use gpt2api_image.Selection.{
  Outcome, answered, failed, message_of, Toast, success, error, toggle, retain,
}
use gpt2api_image.Images.{
  ManagedImage, ImageOwner, Filters, selected_images, filtered_images, ImageManagerCache,
  ImageManager, image_key, filtered_items, has_active_bulk_filter, selected_count,
}

-- The requests of the page; `fetch_images` are the three of `loadImages`.
pub data Request : Type 0 where
  fetch_images : Filters → Request
  fetch_image_tags : Request
  delete_paths : List Text → Request
  delete_matching : Filters → List Text → Request
  set_image_tags : Text → List Text → Request
  delete_image_tag : Text → Request
  download_images : List Text → Request

abbrev pub show_toast : Toast → ImageManager → ImageManager
show_toast toast page = record page { toasts = page.toasts ++ toast ∷ [] }

abbrev pub items_of : Option ImageManagerCache → List ManagedImage
items_of none = []
items_of (some cache) = cache.items

abbrev pub all_tags_of : Option ImageManagerCache → List Text
all_tags_of none = []
all_tags_of (some cache) = cache.all_tags

abbrev pub owners_of : Option ImageManagerCache → List ImageOwner
owners_of none = []
owners_of (some cache) = cache.owners

-- The setters that also write the cache
unfoldable pub set_items : Filters → List ManagedImage → ImageManager → ImageManager
set_items filters value page = record page {
  items = value;
  cached = some (record {
    items = value;
    all_tags = all_tags_of page.cached;
    owners = owners_of page.cached;
    filters = filters;
  });
}

unfoldable pub set_all_tags : Filters → List Text → ImageManager → ImageManager
set_all_tags filters value page = record page {
  all_tags = value;
  cached = some (record {
    items = items_of page.cached;
    all_tags = value;
    owners = owners_of page.cached;
    filters = filters;
  });
}

unfoldable pub set_owners : Filters → List ImageOwner → ImageManager → ImageManager
set_owners filters value page = record page {
  owners = value;
  cached = some (record {
    items = items_of page.cached;
    all_tags = all_tags_of page.cached;
    owners = value;
    filters = filters;
  });
}

-- `loadImages`
unfoldable pub load_images : Bool → ImageManager → List Request × ImageManager
load_images silent page =
    (fetch_images page.filters ∷ [], if silent then page else record page { is_loading = true })

pub record Loaded : Type 0 where
  pub items : List ManagedImage
  pub tags : List Text
  pub owners : List ImageOwner

unfoldable pub images_loaded : Filters → Bool → Outcome Loaded → ImageManager → ImageManager
unfolding set_items set_all_tags set_owners retain image_key
images_loaded filters silent (answered answer) page =
    let shown =
      set_owners filters answer.owners
        (set_all_tags filters answer.tags (set_items filters answer.items page)) in
    record shown {
      selected_paths = retain image_key answer.items page.selected_paths;
      page = 1;
      is_loading = if silent then page.is_loading else false;
    }
images_loaded filters silent (failed message) page =
    if silent then page else record (show_toast (error (message_of message (text "加载图片失败"))) page) {
      is_loading = false;
    }

-- `handleDelete`: one image; after the answer the images are loaded again
unfoldable pub handle_delete : ImageManager → List Request × ImageManager
handle_delete page = elim page.delete_target [
  | none ↦ ([], page)
  | some target ↦ (delete_paths (target.rel ∷ []) ∷ [], record page { is_deleting = true })
]

unfoldable pub image_deleted :
    Filters → ManagedImage → Outcome (Unit {0}) → ImageManager → List Request × ImageManager
unfolding set_items image_key
image_deleted filters target (answered ok) page = (
  fetch_images filters ∷ [],
  record (set_items filters (filter (λ item. not (item.rel == target.rel)) page.items) page) {
    selected_paths = filter (λ p. not (p == image_key target)) page.selected_paths;
  },
)
image_deleted filters target (failed message) page = (
  [],
  record (show_toast (error (message_of message (text "删除失败"))) page) { is_deleting = false },
)

-- The end of a deletion: of one image, with its dialog closed a little later, or of many.
unfoldable pub image_delete_finished : ImageManager → ImageManager
image_delete_finished page = record (show_toast (success (text "图片已删除")) page) {
  is_deleting = false;
}

unfoldable pub dialog_closed : ImageManager → ImageManager
dialog_closed page = record page { delete_target = none }

unfoldable pub images_delete_finished : ImageManager → ImageManager
images_delete_finished page = record page { is_deleting = false }

abbrev pub same_filters : Filters → Filters → Bool
same_filters a b = a.start_date == b.start_date && a.end_date == b.end_date && a.owner == b.owner

-- Changing a filter of the server loads the images again, by an effect that runs after a change.
unfoldable pub choose_filters : Filters → ImageManager → List Request × ImageManager
unfolding load_images
choose_filters filters page =
    let chosen = record page { filters = filters } in
    if same_filters filters page.filters then ([], chosen) else load_images false chosen

unfoldable pub clear_filters : ImageManager → List Request × ImageManager
unfolding choose_filters
clear_filters page =
    choose_filters (record { start_date = []; end_date = []; owner = [] })
      (record page { selected_tags = [] })

unfoldable pub toggle_paths : List Text → Bool → ImageManager → ImageManager
unfolding toggle
toggle_paths paths checked page = record page {
  selected_paths = toggle paths checked page.selected_paths;
}

-- The two buttons that open the dialog of `confirmDelete`, where they are not disabled
unfoldable pub ask_filtered : ImageManager → ImageManager
unfolding filtered_items has_active_bulk_filter
ask_filtered page =
    if page.is_deleting || is_empty (filtered_items page) || not (has_active_bulk_filter page)
    then page
    else record page { delete_mode = some filtered_images }

unfoldable pub ask_selected : ImageManager → ImageManager
ask_selected page =
    if is_empty page.selected_paths || page.is_deleting
    then page
    else record page { delete_mode = some selected_images }

-- `confirmDelete`: the images that are selected or that match; then all are loaded again
unfoldable pub confirm_delete : ImageManager → List Request × ImageManager
unfolding selected_count
confirm_delete page = elim page.delete_mode [
  | none ↦ ([], page)
  | some mode ↦ if eqb (selected_count page) 0 then ([], page) else (
    elim mode [
      | filtered_images ↦ delete_matching page.filters page.selected_tags
      | selected_images ↦ delete_paths page.selected_paths
    ]
        ∷ [],
    record page { is_deleting = true },
  )
]

unfoldable pub images_deleted : Filters → Outcome ℕ → ImageManager → List Request × ImageManager
unfolding show
images_deleted filters (answered removed) page = (
  fetch_images filters ∷ [],
  record (show_toast (success (text "已删除 " ++ (show removed ++ text " 张图片"))) page) {
    delete_mode = none;
    selected_paths = [];
    is_loading = true;
  },
)
images_deleted filters (failed message) page = (
  [],
  record (show_toast (error (message_of message (text "删除图片失败"))) page) { is_deleting = false },
)

-- `handleBatchDownload`
unfoldable pub handle_batch_download : ImageManager → List Request × ImageManager
unfolding filtered_items
handle_batch_download page =
    let paths : List Text = elim page.delete_mode [
      | some filtered_images ↦ map (λ item. item.rel) (filtered_items page)
      | some selected_images ↦ page.selected_paths
      | none ↦ page.selected_paths
    ] in
    if is_empty paths
    then ([], page)
    else (download_images paths ∷ [], record page { is_downloading = true })

-- What was downloaded, and how the request ended
unfoldable pub images_downloaded : List Text → Outcome (Unit {0}) → ImageManager → ImageManager
unfolding show
images_downloaded paths (answered ok) page =
    record (show_toast (success (text "已下载 " ++ (show (length paths) ++ text " 张图片"))) page) {
      is_downloading = false;
    }
images_downloaded paths (failed message) page =
    record (show_toast (error (message_of message (text "下载失败"))) page) { is_downloading = false }
