-- ===== src/Images/Tagging.antt =====
-- web/src/app/image-manager/page.tsx: the handlers of the tags.
use gpt2api_image.Base.{
  ℕ, Text, text, ◌==◌, trim, truthy, show, not, some, List, [], ◌∷◌, ◌++◌, map, filter, contains,
  if◌then◌else◌,
}
use gpt2api_image.Selection.{Outcome, answered, failed, message_of, success, error}
use gpt2api_image.Images.{ManagedImage, Filters, ImageManager, tags_of}
use gpt2api_image.Images.Handlers.{
  Request, fetch_image_tags, set_image_tags, show_toast, set_items, set_all_tags,
}

-- `handleSetTags`: after the answer all tags are fetched
unfoldable pub handle_set_tags :
    ManagedImage → List Text → ImageManager → List Request × ImageManager
handle_set_tags item tags page = (set_image_tags item.rel tags ∷ [], page)

abbrev pub with_tags : Text → List Text → ManagedImage → ManagedImage
with_tags rel tags item = if item.rel == rel then record item { tags = some tags } else item

unfoldable pub tags_set :
    Filters → ManagedImage → Outcome (List Text) → ImageManager → List Request × ImageManager
unfolding set_items
tags_set filters item (answered tags) page =
    (fetch_image_tags ∷ [], set_items filters (map (with_tags item.rel tags) page.items) page)
tags_set filters item (failed message) page =
    ([], show_toast (error (message_of message (text "设置标签失败"))) page)

unfoldable pub tags_fetched : Filters → Outcome (List Text) → ImageManager → ImageManager
unfolding set_all_tags
tags_fetched filters (answered tags) page = set_all_tags filters tags page
tags_fetched filters (failed message) page =
    show_toast (error (message_of message (text "设置标签失败"))) page

unfoldable pub handle_add_tag : ManagedImage → ImageManager → List Request × ImageManager
unfolding handle_set_tags trim
handle_add_tag item page =
    let tag = trim page.tag_input in
    if not (truthy tag)
    then ([], page)
    else if contains tag (tags_of item)
    then ([], show_toast (error (text "标签已存在")) page)
    else handle_set_tags item (tags_of item ++ tag ∷ []) (record page { tag_input = [] })

unfoldable pub handle_remove_tag : ManagedImage → Text → ImageManager → List Request × ImageManager
unfolding handle_set_tags
handle_remove_tag item tag page =
    handle_set_tags item (filter (λ t. not (t == tag)) (tags_of item)) page

unfoldable pub toggle_filter_tag : Text → ImageManager → ImageManager
toggle_filter_tag tag page = record page {
  selected_tags =
      if contains tag page.selected_tags
      then filter (λ t. not (t == tag)) page.selected_tags
      else page.selected_tags ++ tag ∷ [];
  page = 1;
}

-- `handleDeleteTag`, after its request: the number of images that had the tag
abbrev pub without_tag : Text → ManagedImage → ManagedImage
without_tag tag item = record item { tags = some (filter (λ t. not (t == tag)) (tags_of item)) }

unfoldable pub tag_deleted : Filters → Text → Outcome ℕ → ImageManager → ImageManager
unfolding set_items set_all_tags show
tag_deleted filters tag (answered removed) page =
    let left = set_all_tags filters (filter (λ t. not (t == tag)) page.all_tags) page in
    let chosen = record left { selected_tags = filter (λ t. not (t == tag)) page.selected_tags } in
    show_toast
      (success (text "标签\"" ++ (tag ++ (text "\"已删除，影响 " ++ (show removed ++ text " 张图片")))))
      (set_items filters (map (without_tag tag) page.items) chosen)
tag_deleted filters tag (failed message) page =
    show_toast (error (message_of message (text "删除标签失败"))) page
