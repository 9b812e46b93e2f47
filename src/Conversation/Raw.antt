-- ===== src/Conversation/Raw.antt =====
-- Conversations as the storage hands them out, before image-conversations.ts has looked at them.
-- A field that the source tests is any `Value`; one that it takes on trust has its declared type.
use gpt2api_image.Base.{Text, text, truthy, Bool, true, false, Option, none, some, List, map}
use gpt2api_image.Base.Num.{Num, is_truthy, num, nan}
use gpt2api_image.Base.Host.{Host}
use gpt2api_image.Conversation.{
  StoredImage, ImageStatus, ReferenceImage, TurnStatus, ReplyContext, ConversationMode, ImageTurn,
  ImageConversation,
}

-- An `object` is opaque, but for the text that `String` makes of it.
pub data Value : Type 0 where
  undefined null : Value
  boolean : Bool → Value
  number : Num → Value
  string : Text → Value
  object : Text → Value

unfoldable pub is_truthy_value : Value → Bool
unfolding is_truthy
is_truthy_value undefined = false
is_truthy_value null = false
is_truthy_value (boolean b) = b
is_truthy_value (number n) = is_truthy n
is_truthy_value (string s) = truthy s
is_truthy_value (object s) = true

-- `typeof v === "string" ? v : …`
abbrev pub text_of : Value → Option Text
text_of (string s) = some s
text_of _ = none

abbrev pub is_true : Value → Bool
is_true (boolean b) = b
is_true _ = false

module _ (host : Host) where
  -- `String(v)`
  unfoldable pub to_text : Value → Text
  to_text undefined = text "undefined"
  to_text null = text "null"
  to_text (boolean true) = text "true"
  to_text (boolean false) = text "false"
  to_text (number n) = host.show_num n
  to_text (string s) = s
  to_text (object s) = s

  -- `Number(v)`
  unfoldable pub to_number : Value → Num
  to_number undefined = nan
  to_number null = num 0
  to_number (boolean true) = num 1
  to_number (boolean false) = num 0
  to_number (number n) = n
  to_number (string s) = host.number_of s
  to_number (object s) = host.number_of s

pub record RawImage : Type 0 where
  pub id : Text
  pub task_id : Value
  pub status : Value
  pub b64_json : Option Text
  pub url : Value
  pub revised_prompt : Value
  pub error : Option Text

pub record RawReference : Type 0 where
  pub name : Option Text
  pub type : Option Text
  pub data_url : Value

-- The single reference image of the old format.
pub record RawSource : Type 0 where
  pub data_url : Value
  pub file_name : Value

pub record RawReply : Type 0 where
  pub source_turn_id : Value
  pub source_prompt : Value
  pub ai_message : Value

-- `none` stands for what is no array, in `reference_images` and `images`; for what is no object, in
-- its members, `source_image` and `reply_context`.
pub record RawTurn : Type 0 where
  pub id : Value
  pub prompt : Value
  pub model : Option Text
  pub mode : Value
  pub reference_images : Option (List (Option RawReference))
  pub source_image : Option RawSource
  pub count : Value
  pub size : Value
  pub resolution : Value
  pub images : Option (List RawImage)
  pub created_at : Value
  pub status : Value
  pub error : Value
  pub prompt_deleted : Value
  pub results_deleted : Value
  pub reply_context : Option RawReply

-- A conversation of the old format is one turn: `own` holds the fields that a conversation shares
-- with a turn, `id` and `created_at` among them.
pub record RawConversation : Type 0 where
  pub own : RawTurn
  pub title : Value
  pub updated_at : Value
  pub turns : Option (List RawTurn)

-- The stored form of what the program writes.
abbrev pub value_of : Option Text → Value
value_of none = undefined
value_of (some s) = string s

abbrev pub status_value : Option ImageStatus → Value
status_value none = undefined
status_value (some ImageStatus.loading) = string (text "loading")
status_value (some ImageStatus.success) = string (text "success")
status_value (some ImageStatus.error) = string (text "error")

abbrev pub turn_status_value : TurnStatus → Value
turn_status_value TurnStatus.queued = string (text "queued")
turn_status_value TurnStatus.generating = string (text "generating")
turn_status_value TurnStatus.success = string (text "success")
turn_status_value TurnStatus.error = string (text "error")

abbrev pub mode_value : ConversationMode → Value
mode_value ConversationMode.generate = string (text "generate")
mode_value ConversationMode.edit = string (text "edit")

abbrev pub raw_image : StoredImage → RawImage
raw_image image = record {
  id = image.id;
  task_id = value_of image.task_id;
  status = status_value image.status;
  b64_json = image.b64_json;
  url = value_of image.url;
  revised_prompt = value_of image.revised_prompt;
  error = image.error;
}

abbrev pub raw_reference : ReferenceImage → Option RawReference
raw_reference image =
    some
      (record { name = some image.name; type = some image.type; data_url = string image.data_url })

abbrev pub raw_reply : Option ReplyContext → Option RawReply
raw_reply none = none
raw_reply (some ctx) = some (record {
  source_turn_id = string ctx.source_turn_id;
  source_prompt = string ctx.source_prompt;
  ai_message = string ctx.ai_message;
})

abbrev pub raw_turn : ImageTurn → RawTurn
raw_turn turn = record {
  id = string turn.id;
  prompt = string turn.prompt;
  model = some turn.model;
  mode = mode_value turn.mode;
  reference_images = some (map raw_reference turn.reference_images);
  source_image = none;
  count = number turn.count;
  size = string turn.size;
  resolution = value_of turn.resolution;
  images = some (map raw_image turn.images);
  created_at = string turn.created_at;
  status = turn_status_value turn.status;
  error = value_of turn.error;
  prompt_deleted = boolean turn.prompt_deleted;
  results_deleted = boolean turn.results_deleted;
  reply_context = raw_reply turn.reply_context;
}

-- The fields of the old format that a conversation of today does not have.
abbrev pub no_own : Text → Text → RawTurn
no_own id created_at = record {
  id = string id;
  prompt = undefined;
  model = none;
  mode = undefined;
  reference_images = none;
  source_image = none;
  count = undefined;
  size = undefined;
  resolution = undefined;
  images = none;
  created_at = string created_at;
  status = undefined;
  error = undefined;
  prompt_deleted = undefined;
  results_deleted = undefined;
  reply_context = none;
}

abbrev pub raw_conversation : ImageConversation → RawConversation
raw_conversation c = record {
  own = no_own c.id c.created_at;
  title = string c.title;
  updated_at = string c.updated_at;
  turns = some (map raw_turn c.turns);
}
