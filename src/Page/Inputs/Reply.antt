-- ===== src/Page/Inputs/Reply.antt =====
-- web/src/app/image/page.tsx: a reply, from the click on its button to the turn that is submitted.
use gpt2api_image.Base.{
  Text, truthy, ◌==◌, eq_iff, ◌≡◌, refl, sym, true, none, some, List, is_empty, if◌then◌else◌,
  arith,
}
use gpt2api_image.Base.Host.{Host}
use gpt2api_image.Conversation.{ImageConversation, ImageTurn, StoredImage, ReplyContext}
use gpt2api_image.Conversation.Ordering.{find_conversation}
use gpt2api_image.Conversation.Lookup.{find-id}
use gpt2api_image.Page.{Page, find_turn}
use gpt2api_image.Page.Composer.{draft_turn, target_of, target_id}
use gpt2api_image.Page.Inputs.{handle_reply_to_turn}

module _ (host : Host) (page : Page) (id turn_id ai_message : Text) (c : ImageConversation)
    (turn : ImageTurn) (found : find_conversation id page.conversations ≡ some c)
    (there : find_turn turn_id c.turns ≡ some turn) where
  abbrev replied : Page
  replied = handle_reply_to_turn id turn_id ai_message page

  abbrev pub context : ReplyContext
  context = record {
    source_turn_id = turn_id;
    source_prompt = turn.prompt;
    ai_message = ai_message;
  }

  same_id : (if id == c.id then some context else none) ≡ some context
  same_id = ground (arith, (eq_iff id c.id).1 (sym (find-id id page.conversations found)))

  -- A reply to a turn that is there takes the turn's prompt and the message of the model into the
  -- next turn that is submitted, which goes to the conversation of the turn, with the reference images
  -- of the turn if it has any. The text of the composer and the history stay as they are.
  pub reply-draft_turn :
      (now prompt fresh next_id : Text) (images : List StoredImage)
      → truthy id ≡ true
      → let target = target_of replied.selected replied.conversations in
        let draft = draft_turn host now prompt (target_id target fresh) next_id images replied in
        (target ≡ some c)
        × (draft.reply_context ≡ some context)
        × (draft.reference_images ≡ (
            if is_empty turn.reference_images
            then page.reference_images
            else turn.reference_images))
        × (replied.prompt ≡ page.prompt)
        × (replied.conversations ≡ page.conversations)
  unfolding handle_reply_to_turn draft_turn
  reply-draft_turn now prompt fresh next_id images h =
      rw (found, handle_reply_to_turn)
        (rw (there, handle_reply_to_turn)
          (rw (h, target_of) (rw found (refl, same_id, refl, refl, refl))))
