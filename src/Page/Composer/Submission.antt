-- ===== src/Page/Composer/Submission.antt =====
-- web/src/app/image/page.tsx: what `handleSubmit` adds to the history.
use gpt2api_image.Base.{
  ℕ, Text, trim, ◌==◌, ◌≡◌, false, Option, none, some, List, [], ◌∷◌, ◌++◌, length, All, is_empty,
  if◌then◌else◌,
}
use gpt2api_image.Base.Num.{num}
use gpt2api_image.Base.Host.{Host}
use gpt2api_image.Conversation.{
  ImageConversation, ImageTurn, StoredImage, TurnStatus, ConversationMode,
}
use gpt2api_image.Conversation.Ordering.{find_conversation}
use gpt2api_image.Store.Queue.{save}
use gpt2api_image.Page.{Page, write, run}
use gpt2api_image.Page.Memory.{IsOrderly}
use gpt2api_image.Page.Composer.{
  reply_of, draft_turn, parsed_count, target_id, target_of, with_draft,
}
use gpt2api_image.Page.Composer.Limits.{Distinct, IsFresh, ids}

module _ (host : Host) (now fresh turn_id : Text) (page : Page) where
  abbrev target : Option ImageConversation
  target = target_of page.selected page.conversations

  abbrev submitted_turn : List StoredImage → ImageTurn
  submitted_turn images =
      draft_turn host now (trim page.prompt) (target_id target fresh) turn_id images page

  abbrev submitted : List StoredImage → ImageConversation
  submitted images = with_draft now (trim page.prompt) fresh target (submitted_turn images)

  -- The turns that the conversation had, if it is not a new one.
  abbrev earlier_of : Option ImageConversation → List ImageTurn
  earlier_of none = []
  earlier_of (some c) = c.turns

  -- A turn that asks for what the composer holds, and waits to be run.
  pub record IsRequest (turn : ImageTurn) : Type 0 where
    pub identified : turn.id ≡ turn_id
    pub worded : turn.prompt ≡ trim page.prompt
    pub referenced : turn.reference_images ≡ page.reference_images
    pub numbered : turn.count ≡ parsed_count host page
    pub moded : turn.mode ≡ (
        if is_empty page.reference_images then ConversationMode.generate else ConversationMode.edit)
    pub sized : turn.size ≡ page.size
    pub replying : turn.reply_context ≡ reply_of page.reply_target (target_id target fresh)
    pub queued : turn.status ≡ TurnStatus.queued
    pub unfailed : turn.error ≡ none
    pub whole : (turn.prompt_deleted ≡ false) × (turn.results_deleted ≡ false)

  pub record IsSubmitted (next : Page) (images : List StoredImage) : Type 0 where
    pub counted : (n : ℕ) × (parsed_count host page ≡ num n) × (length images ≡ n)
    pub waiting : All IsFresh images
    pub distinct : Distinct (ids images)
    pub requested : IsRequest (submitted_turn images)
    pub shown : (submitted_turn images).images ≡ images
    pub added :
        ((submitted images).turns ≡ earlier_of target ++ submitted_turn images ∷ [])
        × ((submitted images).id ≡ target_id target fresh)
    pub kept :
        (j : Text)
        → find_conversation j next.conversations ≡ (
            if (submitted images).id == j
            then some (submitted images)
            else find_conversation j page.conversations)
    pub orderly : IsOrderly host next
    pub cleared : (next.prompt ≡ []) × (next.reference_images ≡ []) × (next.reply_target ≡ none)
    pub ran :
        next.effects
        ≡ (page.effects ++ write (save (submitted images)) ∷ []) ++ run (submitted images).id ∷ []
