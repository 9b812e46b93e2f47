-- ===== src/Conversation/Normal.antt =====
-- What `normalizeConversation` promises of any stored object whatever.
use gpt2api_image.Base.{
  Text, text, ◌≡◌, ◌≢◌, false, Option, none, some, List, [], ◌∷◌, map, All, All-filter_map, All-map,
  Option-cases, inl, inr, ◌or◌, ◌or?◌, arith, length,
}
use gpt2api_image.Base.Num.{Num, is_truthy, is_nan, max_num_one}
use gpt2api_image.Base.Host.{Host}
use gpt2api_image.Conversation.{ReferenceImage}
use gpt2api_image.Conversation.Raw.{
  Value, object, number, is_truthy_value, to_text, RawImage, RawReference, RawSource, RawReply,
  RawTurn, RawConversation,
}
use gpt2api_image.Conversation.Normalize.{
  Clock, nonempty, normalize_stored_image, normalize_reference, mime_match, data_url_mime_type,
  legacy_source_image, legacy_references, get_legacy_reference_images, normalize_reply_context,
  images_of, text_or, given_count, normalize_turn, legacy_turn, turns_of, normalize_conversation,
}
use gpt2api_image.Conversation.RoundTrip.{
  IsNormalImage, IsNormalReference, IsNormalReply, IsNormalTurn, IsNormal,
}

normalize_stored_image-IsNormal : (image : RawImage) → IsNormalImage (normalize_stored_image image)
unfolding normalize_stored_image
normalize_stored_image-IsNormal image = ground arith

images_of-IsNormal : (images : Option (List RawImage)) → All IsNormalImage (images_of images)
images_of-IsNormal none = tt
images_of-IsNormal (some images) =
    All-map IsNormalImage normalize_stored_image normalize_stored_image-IsNormal images

normalize_reference-IsNormal :
    (raw : Option RawReference) (image : ReferenceImage)
    → normalize_reference raw ≡ some image
    → IsNormalReference image
unfolding normalize_reference
normalize_reference-IsNormal raw image h = ground arith

or-nonempty : (o : Option Text) (t : Text) → t ≢ [] → (o or? t) ≢ []
or-nonempty none t h = h
or-nonempty (some []) t h = h
or-nonempty (some (c ∷ s)) t h = λ e. cc

or_text-nonempty : (s t : Text) → t ≢ [] → (s or t) ≢ []
or_text-nonempty [] t h = h
or_text-nonempty (c ∷ s) t h = λ e. cc

data_url_mime_type-nonempty : (url : Text) → data_url_mime_type url ≢ []
unfolding data_url_mime_type
data_url_mime_type-nonempty url = or-nonempty (mime_match url) (text "image/png") (λ e. cc)

nonempty-ne : (v : Value) (s : Text) → nonempty v ≡ some s → s ≢ []
nonempty-ne v s h = ground arith

legacy_source_image-IsNormal :
    (source : Option RawSource) → All IsNormalReference (legacy_source_image source)
unfolding legacy_source_image
legacy_source_image-IsNormal none = tt
legacy_source_image-IsNormal (some source) = elim (Option-cases (nonempty source.data_url)) [
  | inl missing ↦ rw (missing, All) tt
  | inr (url, found) ↦
      rw (found, All)
        (
          record {
            name = or-nonempty (nonempty source.file_name) (text "reference.png") (λ e. cc);
            type = data_url_mime_type-nonempty url;
            data_url = nonempty-ne source.data_url url found;
          },
          tt,
        )
]

legacy_references-IsNormal :
    (images : Option (List (Option RawReference))) (source : Option RawSource)
    → All IsNormalReference (legacy_references images source)
unfolding legacy_references
legacy_references-IsNormal (some images) source =
    All-filter_map IsNormalReference normalize_reference normalize_reference-IsNormal images
legacy_references-IsNormal none source = legacy_source_image-IsNormal source

normalize_reply_context-IsNormal :
    (raw : Option RawReply) → IsNormalReply (normalize_reply_context raw)
unfolding normalize_reply_context
normalize_reply_context-IsNormal none = tt
normalize_reply_context-IsNormal (some raw) = elim (Option-cases (nonempty raw.source_turn_id)) [
  | inl missing ↦ rw (missing, IsNormalReply) tt
  | inr (id, found) ↦ rw (found, IsNormalReply) (nonempty-ne raw.source_turn_id id found)
]

-- The fields that become texts hold no object, whose text might be empty.
abbrev pub IsPlain : Value → Type 0
IsPlain (object s) = ⊥
IsPlain _ = Unit

module _ (host : Host) (clock : Clock) (millis : clock.millis ≢ []) (iso : clock.iso ≢ []) where
  text_or-nonempty : (v : Value) (t : Text) → IsPlain v → t ≢ [] → text_or host v t ≢ []
  unfolding is_truthy_value to_text is_truthy
  text_or-nonempty (number n) t p h = ground (arith, host.show_num_nonempty n)
  text_or-nonempty (object s) t p h = absurd p
  text_or-nonempty v t p h = ground arith

  -- The count is a number.
  abbrev pub HasCount : RawTurn → Type 0
  HasCount turn =
      is_nan (given_count host clock turn.count (length (images_of turn.images))) ≡ false

  pub normalize_turn-IsNormal :
      (turn : RawTurn)
      → IsPlain turn.id
      → IsPlain turn.created_at
      → HasCount turn
      → IsNormalTurn (normalize_turn host clock turn)
  unfolding normalize_turn
  normalize_turn-IsNormal turn p q n = record {
    id = text_or-nonempty turn.id clock.millis p millis;
    model = or-nonempty turn.model (text "gpt-image-2") (λ e. cc);
    references =
        unfold get_legacy_reference_images in
        legacy_references-IsNormal turn.reference_images turn.source_image;
    count = (max_num_one given n).0;
    counted = (max_num_one given n).1;
    resolution = λ e. cc;
    images = images_of-IsNormal turn.images;
    created_at = text_or-nonempty turn.created_at clock.iso q iso;
    reply = normalize_reply_context-IsNormal turn.reply_context;
  }
    where
      given : Num
      given = given_count host clock turn.count (length (images_of turn.images))

  abbrev pub HasPlainTurns : Option (List RawTurn) → Type 0
  HasPlainTurns none = Unit
  HasPlainTurns (some turns) =
      All (λ turn. IsPlain turn.id × IsPlain turn.created_at × HasCount turn) turns

  map-IsNormalTurn :
      (turns : List RawTurn)
      → All (λ turn. IsPlain turn.id × IsPlain turn.created_at × HasCount turn) turns
      → All IsNormalTurn (map (normalize_turn host clock) turns)
  map-IsNormalTurn [] h = tt
  map-IsNormalTurn (turn ∷ turns) (h, hs) =
      (normalize_turn-IsNormal turn h.0 h.1 h.2, map-IsNormalTurn turns hs)

  turns_of-IsNormal :
      (turns : Option (List RawTurn)) (own : RawTurn)
      → HasCount (legacy_turn host clock own)
      → HasPlainTurns turns
      → All IsNormalTurn (turns_of host clock turns own)
  unfolding turns_of
  turns_of-IsNormal none own n h = (
    normalize_turn-IsNormal (legacy_turn host clock own) (unfold legacy_turn in tt)
        (unfold legacy_turn in tt) n,
    tt,
  )
  turns_of-IsNormal (some turns) own n h = map-IsNormalTurn turns h

  -- Every stored object is read as a normal conversation, if no id or date in it is an object and
  -- every count is a number.
  pub normalize_conversation-IsNormal :
      (c : RawConversation)
      → IsPlain c.own.id
      → IsPlain c.own.created_at
      → IsPlain c.updated_at
      → HasCount (legacy_turn host clock c.own)
      → HasPlainTurns c.turns
      → IsNormal (normalize_conversation host clock c)
  unfolding normalize_conversation
  normalize_conversation-IsNormal c p q u n h = record {
    id = text_or-nonempty c.own.id clock.millis p millis;
    created_at = text_or-nonempty c.own.created_at _ q (or_text-nonempty _ clock.iso iso);
    updated_at = text_or-nonempty c.updated_at _ u (or_text-nonempty _ clock.iso iso);
    turns = turns_of-IsNormal c.turns c.own n h;
  }
