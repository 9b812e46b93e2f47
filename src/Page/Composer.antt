-- ===== src/Page/Composer.antt =====
-- web/src/app/image/page.tsx: what the composer hands to the history. `createId()` and the clock are
-- arguments.
pub mod Limits
pub mod Quota
pub mod Submission
use gpt2api_image.Base.{
  ℕ, zero, suc, ◌+◌, Text, text, ◌==◌, truthy, ◌or?◌, trim, take, show, leb, Bool, true, false, not,
  ◌&&◌, ◌||◌, Option, none, some, List, [], ◌∷◌, ◌++◌, map, length, is_empty, if◌then◌else◌,
}
use gpt2api_image.Base.Num.{
  Num, nan, neg_inf, pos_inf, num, num_or, max_num, min_num, floor, le_num, lt_num, to_length,
}
use gpt2api_image.Base.Host.{Host}
use gpt2api_image.Conversation.{
  StoredImage, ImageStatus, ImageTurn, TurnStatus, ImageConversation, ConversationMode,
  ReplyContext, ReferenceImage,
}
use gpt2api_image.Conversation.Ordering.{find_conversation}
use gpt2api_image.Task.{with_images}
use gpt2api_image.Page.{
  Page, ReplyTarget, Effect, toast, run, emit, find_turn, is_high_resolution, clear_composer_inputs,
  persist_conversation,
}

-- `buildConversationTitle`
unfoldable pub build_conversation_title : Text → Text
unfolding trim
build_conversation_title prompt =
    let trimmed = trim prompt in
    if leb (length trimmed) 12 then trimmed else take 12 trimmed ++ text "..."

-- An image that waits for the task with its own id.
abbrev pub loading_image : Text → StoredImage
loading_image id = record {
  id = id;
  task_id = some id;
  status = some ImageStatus.loading;
  b64_json = none;
  url = none;
  revised_prompt = none;
  error = none;
}

abbrev pub image_id : Text → ℕ → Text
image_id turn_id index = turn_id ++ (text "-" ++ show index)

abbrev pub loading_images_from : Text → ℕ → ℕ → List StoredImage
loading_images_from turn_id index zero = []
loading_images_from turn_id index (suc left) =
    loading_image (image_id turn_id index) ∷ loading_images_from turn_id (index + 1) left

-- `createLoadingImages`; `none` is the RangeError of a length that no array can have.
unfoldable pub create_loading_images : Text → Num → Option (List StoredImage)
unfolding to_length show
create_loading_images turn_id count = elim (to_length count) [
  | none ↦ none
  | some n ↦ some (loading_images_from turn_id 0 n)
]

-- What `ensureQuotaForRequest` finds: `none` to go on, or the message of its toast.
unfoldable pub ensure_quota_for_request : Host → Num → Page → Option Text
unfolding le_num lt_num ◌==◌
ensure_quota_for_request host count page =
    let quota = page.available_quota in
    if page.is_root_admin || quota == text "∞" || quota == text "加载中..." || quota == text "--"
    then none
    else check (host.number_of quota)
  where
    check : Num → Option Text
    check nan = none
    check pos_inf = none
    check neg_inf = none
    check remaining =
        if le_num remaining (num 0)
        then some (text "额度不足，请联系管理员追加额度后再试")
        else if lt_num remaining count
        then some (
            text "剩余额度仅 "
            ++ (host.show_num remaining ++ (text "，无法生成 " ++ (host.show_num count ++ text " 张"))))
        else none

abbrev pub reply_of : Option ReplyTarget → Text → Option ReplyContext
reply_of none id = none
reply_of (some target) id = if target.conversation_id == id then some target.context else none

abbrev pub target_of : Option Text → List ImageConversation → Option ImageConversation
target_of none cs = none
target_of (some id) cs = if truthy id then find_conversation id cs else none

abbrev pub target_id : Option ImageConversation → Text → Text
target_id none fresh = fresh
target_id (some c) fresh = c.id

unfoldable pub with_draft :
    Text → Text → Text → Option ImageConversation → ImageTurn → ImageConversation
unfolding build_conversation_title
with_draft now prompt fresh none turn = record {
  id = fresh;
  title = build_conversation_title prompt;
  created_at = now;
  updated_at = now;
  turns = turn ∷ [];
}
with_draft now prompt fresh (some c) turn = record c {
  updated_at = now;
  turns = c.turns ++ turn ∷ [];
}

abbrev pub regenerated_count : ImageTurn → Num
regenerated_count turn =
    max_num (num 1) (num_or turn.count (num_or (num (length turn.images)) (num 1)))

abbrev pub regenerated_turn : Text → Text → ImageTurn → List StoredImage → ImageTurn
regenerated_turn now turn_id source images = record source {
  id = turn_id;
  count = regenerated_count source;
  images = images;
  created_at = now;
  status = TurnStatus.queued;
  error = none;
  prompt_deleted = false;
  results_deleted = false;
}

abbrev pub retry_turn : Text → Text → Text → ImageTurn → ImageTurn
retry_turn turn_id image_id retry_id turn =
    if not (turn.id == turn_id) || is_empty (trim turn.prompt)
    then turn
    else with_images TurnStatus.queued
        (map (λ image. if image.id == image_id then loading_image retry_id else image) turn.images)
        turn

module _ (host : Host) where
  -- The number in `clampImageCount`.
  unfoldable pub clamp_count : Text → Num
  unfolding num_or max_num min_num floor
  clamp_count value =
      min_num (num 8) (max_num (num 1) (floor (num_or (host.number_of value) (num 1))))

  -- `clampImageCount`
  unfoldable pub clamp_image_count : Text → Text
  unfolding clamp_count
  clamp_image_count value = host.show_num (clamp_count value)

  -- `parsedCount`
  unfoldable pub parsed_count : Page → Num
  unfolding clamp_image_count
  parsed_count page = host.number_of (clamp_image_count page.count)

  -- A turn that is added to a conversation, and what follows.
  abbrev start_turn : ImageConversation → Page → Page
  start_turn c page =
      emit (run c.id) (persist_conversation host c (record page { selected = some c.id }))

  abbrev warn : Text → Page → Page
  warn message page = emit (toast message) page

  unfoldable pub draft_turn : Text → Text → Text → Text → List StoredImage → Page → ImageTurn
  unfolding parsed_count is_high_resolution
  draft_turn now prompt conversation_id turn_id images page = record {
    id = turn_id;
    prompt = prompt;
    model = text "gpt-image-2";
    mode =
        if is_empty page.reference_images then ConversationMode.generate else ConversationMode.edit;
    reference_images = page.reference_images;
    count = parsed_count page;
    size = page.size;
    resolution = some (
        if page.can_use_high_resolution || not (is_high_resolution page.resolution)
        then page.resolution
        else []);
    images = images;
    created_at = now;
    status = TurnStatus.queued;
    error = none;
    prompt_deleted = false;
    results_deleted = false;
    reply_context = reply_of page.reply_target conversation_id;
  }

  -- `handleSubmit`; `fresh` and `turn_id` are the two results of `createId()`. `none` is the RangeError,
  -- which leaves the page as it is.
  unfoldable pub handle_submit : Text → Text → Text → Page → Option Page
  unfolding trim ensure_quota_for_request create_loading_images draft_turn with_draft
      clear_composer_inputs persist_conversation
  handle_submit now fresh turn_id page =
      let prompt = trim page.prompt in
      if is_empty prompt
      then some (warn (text "请输入提示词") page)
      else elim (ensure_quota_for_request host (parsed_count page) page) [
        | some message ↦ some (warn message page)
        | none ↦
            let target = target_of page.selected page.conversations in
            let id = target_id target fresh in
            elim (create_loading_images turn_id (parsed_count page)) [
              | none ↦ none
              | some images ↦
                  let turn = draft_turn now prompt id turn_id images page in
                  some (
                    start_turn (with_draft now prompt fresh target turn)
                      (clear_composer_inputs page))
            ]
      ]

  -- `handleRegenerateTurn`
  unfoldable pub handle_regenerate_turn : Text → Text → Text → Text → Page → Option Page
  unfolding trim ensure_quota_for_request create_loading_images persist_conversation num_or max_num
  handle_regenerate_turn now turn_id id source_id page =
      elim (find_conversation id page.conversations) [
        | none ↦ some page
        | some c ↦ elim (find_turn source_id c.turns) [
          | none ↦ some page
          | some source ↦
              if is_empty (trim source.prompt)
              then some page
              else elim (ensure_quota_for_request host (regenerated_count source) page) [
                | some message ↦ some (warn message page)
                | none ↦ elim (create_loading_images turn_id (regenerated_count source)) [
                  | none ↦ none
                  | some images ↦
                      let turn = regenerated_turn now turn_id source images in
                      some (
                        emit (toast (text "已加入重新生成队列")) (
                          start_turn (record c { updated_at = now; turns = c.turns ++ turn ∷ [] })
                            page))
                ]
              ]
        ]
      ]

  -- `handleRetryImage`; `fresh` is the result of `createId()`.
  unfoldable pub handle_retry_image : Text → Text → Text → Text → Text → Page → Page
  unfolding ensure_quota_for_request with_images persist_conversation trim
  handle_retry_image now fresh id turn_id image_id page =
      elim (find_conversation id page.conversations) [
        | none ↦ page
        | some c ↦ elim (ensure_quota_for_request host (num 1) page) [
          | some message ↦ warn message page
          | none ↦
              let retry_id = turn_id ++ (text "-" ++ fresh) in
              start_turn
                (record c {
                  updated_at = now;
                  turns = map (retry_turn turn_id image_id retry_id) c.turns;
                })
                page
        ]
      ]
