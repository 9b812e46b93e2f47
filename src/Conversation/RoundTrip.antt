-- ===== src/Conversation/RoundTrip.antt =====
-- Reading back what was written: normalising a stored conversation that was normal changes nothing.
use gpt2api_image.Base.{
  Text, ◌==◌, ◌≡◌, ◌≢◌, refl, true, Option, none, some, List, [], ◌∷◌, map, All, filter_map, arith,
}
use gpt2api_image.Base.Num.{num, max_num, is_truthy}
use gpt2api_image.Base.Host.{Host}
use gpt2api_image.Conversation.{
  StoredImage, ReferenceImage, ReplyContext, ImageTurn, ImageConversation,
}
use gpt2api_image.Conversation.Raw.{raw_image, raw_reference, raw_reply, raw_turn, raw_conversation}
use gpt2api_image.Conversation.Normalize.{
  Clock, normalize_stored_image, normalize_reference, normalize_reply_context, normalize_turn,
  normalize_conversation,
}

-- An optional text that is there is not empty.
abbrev pub IsNonempty? : Option Text → Type 0
IsNonempty? o = o ≢ some []

pub record IsNormalImage (image : StoredImage) : Type 0 where
  pub task_id : IsNonempty? image.task_id
  pub url : IsNonempty? image.url
  pub status : image.status ≢ none

pub record IsNormalReference (image : ReferenceImage) : Type 0 where
  pub name : image.name ≢ []
  pub type : image.type ≢ []
  pub data_url : image.data_url ≢ []

abbrev pub IsNormalReply : Option ReplyContext → Type 0
IsNormalReply none = Unit
IsNormalReply (some ctx) = ctx.source_turn_id ≢ []

pub record IsNormalTurn (turn : ImageTurn) : Type 0 where
  pub id : turn.id ≢ []
  pub model : turn.model ≢ []
  pub references : All IsNormalReference turn.reference_images
  pub count : max_num (num 1) turn.count ≡ turn.count
  pub counted : is_truthy turn.count ≡ true
  pub resolution : turn.resolution ≢ none
  pub images : All IsNormalImage turn.images
  pub created_at : turn.created_at ≢ []
  pub reply : IsNormalReply turn.reply_context

pub record IsNormal (c : ImageConversation) : Type 0 where
  pub id : c.id ≢ []
  pub created_at : c.created_at ≢ []
  pub updated_at : c.updated_at ≢ []
  pub turns : All IsNormalTurn c.turns

normalize-raw_image :
    (image : StoredImage) → IsNormalImage image → normalize_stored_image (raw_image image) ≡ image
unfolding normalize_stored_image ◌==◌
normalize-raw_image image h = ground arith

map-normalize-raw_image :
    (images : List StoredImage)
    → All IsNormalImage images
    → map normalize_stored_image (map raw_image images) ≡ images
map-normalize-raw_image [] h = refl
map-normalize-raw_image (image ∷ images) h =
    ground (arith, normalize-raw_image image h.0, map-normalize-raw_image images h.1)

normalize-raw_reference :
    (image : ReferenceImage)
    → IsNormalReference image
    → normalize_reference (raw_reference image) ≡ some image
unfolding normalize_reference
normalize-raw_reference image h = ground arith

map-normalize-raw_reference :
    (images : List ReferenceImage)
    → All IsNormalReference images
    → filter_map normalize_reference (map raw_reference images) ≡ images
map-normalize-raw_reference [] h = refl
map-normalize-raw_reference (image ∷ images) h =
    ground (arith, normalize-raw_reference image h.0, map-normalize-raw_reference images h.1)

normalize-raw_reply :
    (ctx : Option ReplyContext) → IsNormalReply ctx → normalize_reply_context (raw_reply ctx) ≡ ctx
unfolding normalize_reply_context
normalize-raw_reply none h = refl
normalize-raw_reply (some ctx) h = ground arith

module _ (host : Host) (clock : Clock) where
  normalize-raw_turn :
      (turn : ImageTurn) → IsNormalTurn turn → normalize_turn host clock (raw_turn turn) ≡ turn
  unfolding normalize_turn ◌==◌
  normalize-raw_turn turn h = ground (
    arith,
    map-normalize-raw_image turn.images h.images,
    map-normalize-raw_reference turn.reference_images h.references,
    normalize-raw_reply turn.reply_context h.reply,
  )

  map-normalize-raw_turn :
      (turns : List ImageTurn)
      → All IsNormalTurn turns
      → map (normalize_turn host clock) (map raw_turn turns) ≡ turns
  map-normalize-raw_turn [] h = refl
  map-normalize-raw_turn (turn ∷ turns) h =
      ground (arith, normalize-raw_turn turn h.0, map-normalize-raw_turn turns h.1)

  -- A normal conversation that was stored is read back as it was.
  pub normalize-raw_conversation :
      (c : ImageConversation)
      → IsNormal c
      → normalize_conversation host clock (raw_conversation c) ≡ c
  unfolding normalize_conversation
  normalize-raw_conversation c h = ground (arith, map-normalize-raw_turn c.turns h.turns)
