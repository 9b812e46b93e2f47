-- ===== src/Conversation.antt =====
-- web/src/store/image-conversations.ts: the types of an image conversation.
pub mod Ordering
pub mod Lookup
pub mod Raw
pub mod Normalize
pub mod RoundTrip
pub mod Normal
pub mod Stats
use gpt2api_image.Base.{Text, Bool, true, false, Option, none, some, List}
use gpt2api_image.Base.Num.{Num}

pub data ConversationMode : Type 0 where
  generate edit : ConversationMode

pub record ReferenceImage : Type 0 where
  pub name : Text
  pub type : Text
  pub data_url : Text

pub data ImageStatus : Type 0 where
  loading success error : ImageStatus

-- An optional field that is absent is `none`.
pub record StoredImage : Type 0 where
  pub id : Text
  pub task_id : Option Text
  pub status : Option ImageStatus
  pub b64_json : Option Text
  pub url : Option Text
  pub revised_prompt : Option Text
  pub error : Option Text

pub data TurnStatus : Type 0 where
  queued generating success error : TurnStatus

pub record ReplyContext : Type 0 where
  pub source_turn_id : Text
  pub source_prompt : Text
  pub ai_message : Text

-- The two flags are read for their truth only, so an absent one is `false`.
pub record ImageTurn : Type 0 where
  pub id : Text
  pub prompt : Text
  pub model : Text
  pub mode : ConversationMode
  pub reference_images : List ReferenceImage
  pub count : Num
  pub size : Text
  pub resolution : Option Text
  pub images : List StoredImage
  pub created_at : Text
  pub status : TurnStatus
  pub error : Option Text
  pub prompt_deleted : Bool
  pub results_deleted : Bool
  pub reply_context : Option ReplyContext

pub record ImageConversation : Type 0 where
  pub id : Text
  pub title : Text
  pub created_at : Text
  pub updated_at : Text
  pub turns : List ImageTurn

-- `image.status === "loading"`, and so on
abbrev pub is_loading : Option ImageStatus → Bool
is_loading (some ImageStatus.loading) = true
is_loading _ = false

abbrev pub is_failed : Option ImageStatus → Bool
is_failed (some ImageStatus.error) = true
is_failed _ = false

abbrev pub is_success : Option ImageStatus → Bool
is_success (some ImageStatus.success) = true
is_success _ = false

-- `status === "queued" || status === "generating"`
abbrev pub is_active : TurnStatus → Bool
is_active TurnStatus.queued = true
is_active TurnStatus.generating = true
is_active _ = false
