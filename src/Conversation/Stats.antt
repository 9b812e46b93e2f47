-- ===== src/Conversation/Stats.antt =====
-- web/src/store/image-conversations.ts: `getImageConversationStats`.
use gpt2api_image.Base.{
  ℕ, suc, ◌+◌, ◌≡◌, Bool, not, ◌&&◌, Option, none, some, List, [], ◌∷◌, filter, length,
  if◌then◌else◌, arith,
}
use gpt2api_image.Conversation.{ImageTurn, TurnStatus, ImageConversation, is_active}

pub record ConversationStats : Type 0 where
  pub queued : ℕ
  pub running : ℕ

-- The step of the `reduce`.
count_turn : ConversationStats → ImageTurn → ConversationStats
count_turn acc turn = if turn.results_deleted then acc else elim turn.status [
  | TurnStatus.queued ↦ record acc { queued = suc acc.queued }
  | TurnStatus.generating ↦ record acc { running = suc acc.running }
  | _ ↦ acc
]

count_turns : ConversationStats → List ImageTurn → ConversationStats
unfolding count_turn
count_turns acc [] = acc
count_turns acc (turn ∷ turns) = count_turns (count_turn acc turn) turns

abbrev no_stats : ConversationStats
no_stats = record { queued = 0; running = 0 }

unfoldable pub get_image_conversation_stats : Option ImageConversation → ConversationStats
unfolding count_turns
get_image_conversation_stats none = no_stats
get_image_conversation_stats (some conversation) = count_turns no_stats conversation.turns

-- A turn that counts: its results are kept, and it is queued or generating.
abbrev pub counts : ImageTurn → Bool
counts turn = not turn.results_deleted && is_active turn.status

count_turns-sum :
    (acc : ConversationStats) (turns : List ImageTurn)
    → let r = count_turns acc turns in
      r.queued + r.running ≡ acc.queued + acc.running + length (filter counts turns)
unfolding count_turns
count_turns-sum acc [] = omega arith
count_turns-sum acc (turn ∷ turns) = ground (arith, count_turns-sum (count_turn acc turn) turns)

-- The two numbers add up to the turns that are at work and whose results are kept.
pub stats-sum :
    (conversation : ImageConversation)
    → let r = get_image_conversation_stats (some conversation) in
      r.queued + r.running ≡ length (filter counts conversation.turns)
unfolding get_image_conversation_stats
stats-sum conversation = omega (arith, count_turns-sum no_stats conversation.turns)
