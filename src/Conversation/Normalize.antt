-- ===== src/Conversation/Normalize.antt =====
-- web/src/store/image-conversations.ts: `normalizeStoredImage` to `normalizeConversation`.
use gpt2api_image.Base.{
  ℕ, Text, text, ◌==◌, truthy?, ◌or◌, ◌or?◌, Bool, ◌||◌, Option, none, some, List, [], ◌∷◌, map,
  length, any, filter_map, last, eqb, if◌then◌else◌,
}
use gpt2api_image.Base.Num.{Num, num, num_or, max_num}
use gpt2api_image.Base.Host.{Host}
use gpt2api_image.Conversation.{
  StoredImage, ImageStatus, ReferenceImage, TurnStatus, ReplyContext, ConversationMode, ImageTurn,
  ImageConversation, is_loading, is_failed,
}
use gpt2api_image.Conversation.Raw.{
  Value, undefined, string, number, is_truthy_value, text_of, is_true, to_text, to_number, RawImage,
  RawReference, RawSource, RawReply, RawTurn, RawConversation, mode_value, value_of, raw_reference,
}

-- `typeof v === "string" && v ? v : undefined`
abbrev pub nonempty : Value → Option Text
nonempty (string []) = none
nonempty (string (c ∷ s)) = some (c ∷ s)
nonempty _ = none

-- `typeof v === "string" ? v : ""`
abbrev pub text_or_empty : Value → Text
text_or_empty (string s) = s
text_or_empty _ = []

abbrev pub image_status_of_text : Text → Option ImageStatus
image_status_of_text s =
    if s == text "loading"
    then some ImageStatus.loading
    else if s == text "error"
    then some ImageStatus.error
    else if s == text "success"
    then some ImageStatus.success
    else none

abbrev pub image_status_of : Value → Option ImageStatus
image_status_of (string s) = image_status_of_text s
image_status_of _ = none

abbrev pub status_or : Option ImageStatus → ImageStatus → ImageStatus
status_or none d = d
status_or (some s) d = s

-- `normalizeStoredImage`
unfoldable pub normalize_stored_image : RawImage → StoredImage
unfolding is_truthy_value
normalize_stored_image image = record {
  id = image.id;
  task_id = nonempty image.task_id;
  status = some (
      status_or (image_status_of image.status) (
        if truthy? image.b64_json || is_truthy_value image.url
        then ImageStatus.success
        else ImageStatus.loading));
  b64_json = image.b64_json;
  url = nonempty image.url;
  revised_prompt = text_of image.revised_prompt;
  error = image.error;
}

-- The filter of `getLegacyReferenceImages`, and `normalizeReferenceImage`.
unfoldable pub normalize_reference : Option RawReference → Option ReferenceImage
normalize_reference none = none
normalize_reference (some image) = elim (nonempty image.data_url) [
  | none ↦ none
  | some url ↦ some (record {
    name = image.name or? text "reference.png";
    type = image.type or? text "image/png";
    data_url = url;
  })
]

-- `s.startsWith(p)`, with what is left of `s`
strip_prefix : Text → Text → Option Text
strip_prefix [] s = some s
strip_prefix (a ∷ p) [] = none
strip_prefix (a ∷ p) (b ∷ s) = if eqb a b then strip_prefix p s else none

is_line_end : ℕ → Bool
is_line_end c = eqb c 10 || eqb c 13 || eqb c 0x2028 || eqb c 0x2029

-- The shortest `(.*?)` before `;base64,`.
mime_before_base64 : Text → Option Text
unfolding strip_prefix is_line_end
mime_before_base64 [] = none
mime_before_base64 (c ∷ s) =
    let rest = mime_before_base64 s in
    elim (strip_prefix (text ";base64,") (c ∷ s)) [
      | some _ ↦ some []
      | none ↦ if is_line_end c then none else elim rest [ none ↦ none | some t ↦ some (c ∷ t) ]
    ]

-- `dataUrl.match(/^data:(.*?);base64,/)?.[1]`
pub mime_match : Text → Option Text
unfolding mime_before_base64
mime_match url = elim (strip_prefix (text "data:") url) [
  | none ↦ none
  | some s ↦ mime_before_base64 s
]

-- `dataUrlMimeType`
unfoldable pub data_url_mime_type : Text → Text
unfolding mime_match
data_url_mime_type url = mime_match url or? text "image/png"

unfoldable pub legacy_source_image : Option RawSource → List ReferenceImage
unfolding data_url_mime_type
legacy_source_image none = []
legacy_source_image (some image) = elim (nonempty image.data_url) [
  | none ↦ []
  | some url ↦
      record {
        name = nonempty image.file_name or? text "reference.png";
        type = data_url_mime_type url;
        data_url = url;
      }
      ∷ []
]

unfoldable pub legacy_references :
    Option (List (Option RawReference)) → Option RawSource → List ReferenceImage
unfolding normalize_reference legacy_source_image
legacy_references (some images) source = filter_map normalize_reference images
legacy_references none source = legacy_source_image source

-- `getLegacyReferenceImages`
unfoldable pub get_legacy_reference_images : RawTurn → List ReferenceImage
unfolding legacy_references
get_legacy_reference_images source = legacy_references source.reference_images source.source_image

-- `normalizeReplyContext`
unfoldable pub normalize_reply_context : Option RawReply → Option ReplyContext
normalize_reply_context none = none
normalize_reply_context (some ctx) = elim (nonempty ctx.source_turn_id) [
  | none ↦ none
  | some id ↦ some (record {
    source_turn_id = id;
    source_prompt = text_or_empty ctx.source_prompt;
    ai_message = text_or_empty ctx.ai_message;
  })
]

abbrev pub turn_status_of_text : Text → Option TurnStatus
turn_status_of_text s =
    if s == text "queued"
    then some TurnStatus.queued
    else if s == text "generating"
    then some TurnStatus.generating
    else if s == text "success"
    then some TurnStatus.success
    else if s == text "error"
    then some TurnStatus.error
    else none

abbrev pub turn_status_of : Value → Option TurnStatus
turn_status_of (string s) = turn_status_of_text s
turn_status_of _ = none

-- `mode === "edit" ? "edit" : "generate"`
abbrev pub mode_of : Value → ConversationMode
mode_of (string s) = if s == text "edit" then ConversationMode.edit else ConversationMode.generate
mode_of _ = ConversationMode.generate

abbrev pub derived_status : List StoredImage → TurnStatus
derived_status images =
    if any (λ image. is_loading image.status) images
    then TurnStatus.generating
    else if any (λ image. is_failed image.status) images
    then TurnStatus.error
    else TurnStatus.success

abbrev pub turn_status_or : Option TurnStatus → TurnStatus → TurnStatus
turn_status_or none d = d
turn_status_or (some s) d = s

abbrev pub images_of : Option (List RawImage) → List StoredImage
images_of none = []
images_of (some images) = map normalize_stored_image images

abbrev list_or_empty {ℓ} : {A : Type ℓ} → Option (List A) → List A
list_or_empty none = []
list_or_empty (some xs) = xs

-- `v || d`, as a text
abbrev pub text_or : Host → Value → Text → Text
text_or host v d = if is_truthy_value v then to_text host v else d

-- The two readings of the clock: `${Date.now()}` and `new Date().toISOString()`.
pub record Clock : Type 0 where
  pub millis : Text
  pub iso : Text

module _ (host : Host) (clock : Clock) where
  -- `Number(count || images.length || 1)`
  abbrev pub given_count : Value → ℕ → Num
  given_count count images =
      if is_truthy_value count then to_number host count else num_or (num images) (num 1)

  -- `normalizeTurn`
  unfoldable pub normalize_turn : RawTurn → ImageTurn
  unfolding normalize_stored_image get_legacy_reference_images normalize_reply_context to_text
      to_number is_truthy_value
  normalize_turn turn =
      let images = images_of turn.images in
      record {
        id = text_or host turn.id clock.millis;
        prompt = text_or host turn.prompt [];
        model = turn.model or? text "gpt-image-2";
        mode = mode_of turn.mode;
        reference_images = get_legacy_reference_images turn;
        count = max_num (num 1) (given_count turn.count (length images));
        size = text_or_empty turn.size;
        resolution = some (text_or_empty turn.resolution);
        images = images;
        created_at = text_or host turn.created_at clock.iso;
        status = turn_status_or (turn_status_of turn.status) (derived_status images);
        error = text_of turn.error;
        prompt_deleted = is_true turn.prompt_deleted;
        results_deleted = is_true turn.results_deleted;
        reply_context = normalize_reply_context turn.reply_context;
      }

  abbrev legacy_status : Value → Value
  legacy_status v = elim (turn_status_of v) [
    | some TurnStatus.generating ↦ string (text "generating")
    | some TurnStatus.error ↦ string (text "error")
    | _ ↦ string (text "success")
  ]

  -- The turn that `normalizeConversation` makes of a conversation of the old format.
  unfoldable pub legacy_turn : RawTurn → RawTurn
  unfolding get_legacy_reference_images to_text to_number is_truthy_value
  legacy_turn own = record {
    id = string (text_or host own.id clock.millis);
    prompt = string (text_or host own.prompt []);
    model = some (own.model or? text "gpt-image-2");
    mode = mode_value (mode_of own.mode);
    reference_images = some (map raw_reference (get_legacy_reference_images own));
    source_image = none;
    count = number (if is_truthy_value own.count then to_number host own.count else num 1);
    size = string (text_or_empty own.size);
    resolution = string (text_or_empty own.resolution);
    images = some (list_or_empty own.images);
    created_at = string (text_or host own.created_at clock.iso);
    status = legacy_status own.status;
    error = value_of (text_of own.error);
    prompt_deleted = undefined;
    results_deleted = undefined;
    reply_context = none;
  }

  abbrev created_at_of : Option ImageTurn → Text
  created_at_of none = []
  created_at_of (some turn) = turn.created_at

  unfoldable pub turns_of : Option (List RawTurn) → RawTurn → List ImageTurn
  unfolding normalize_turn legacy_turn
  turns_of (some turns) own = map normalize_turn turns
  turns_of none own = normalize_turn (legacy_turn own) ∷ []

  -- `normalizeConversation`
  unfoldable pub normalize_conversation : RawConversation → ImageConversation
  unfolding turns_of to_text is_truthy_value
  normalize_conversation c =
      let turns = turns_of c.turns c.own in
      let last_created_at = created_at_of (last turns) or clock.iso in
      record {
        id = text_or host c.own.id clock.millis;
        title = text_or host c.title [];
        created_at = text_or host c.own.created_at last_created_at;
        updated_at = text_or host c.updated_at last_created_at;
        turns = turns;
      }
