-- ===== src/Tests/Storage.antt =====
-- web/src/store/image-conversations.ts at a stored list of two conversations.
use gpt2api_image.Base.{
  Text, ap, text, ◌==◌, ◌≡◌, ◌≢◌, refl, true, false, none, some, List, [], ◌∷◌,
}
use gpt2api_image.Conversation.{ImageConversation}
use gpt2api_image.Conversation.Ordering.{find_conversation}
use gpt2api_image.Conversation.Raw.{RawConversation, undefined, raw_conversation, raw_turn}
use gpt2api_image.Conversation.Normalize.{Clock, legacy_turn, normalize_conversation}
use gpt2api_image.Conversation.RoundTrip.{IsNormal, normalize-raw_conversation}
use gpt2api_image.Conversation.Normal.{HasCount, normalize_conversation-IsNormal}
use gpt2api_image.Store.{list_image_conversations, read_stored, save_image_conversations}
use gpt2api_image.Store.Batch.{Entries, find-save_all, save_entries}
use gpt2api_image.Store.Replay.{Represents, replay, run_queue-replay}
use gpt2api_image.Store.Queue.{
  IsStable, Job, clear, delete, rename, run_queue, run_queue-IsStable, save, save_all,
}
use gpt2api_image.Tests.Data.{
  blank, both, both-IsNormal, cat_turn, cats, cats-IsNormal, noon, plain_host, read-stored, stored,
  stored-IsClean,
}

abbrev newer : ImageConversation
newer = record cats { title = text "cats"; updated_at = text "3" }

newer-IsNormal : IsNormal newer
newer-IsNormal = record {
  id = λ e. cc;
  created_at = λ e. cc;
  updated_at = λ e. cc;
  turns = cats-IsNormal.turns;
}

stored-blank : find_conversation (text "c2") (read_stored plain_host noon stored) ≡ some blank
unfolding ◌==◌
stored-blank = rw (read-stored noon) refl

find-save_all_example :
    find_conversation (text "c1") (
      read_stored plain_host noon
        (save_image_conversations plain_host noon (cats ∷ newer ∷ []) stored))
    ≡ save_entries plain_host
        (λ k. find_conversation k (read_stored plain_host noon stored))
        (cats ∷ newer ∷ [])
        (text "c1")
find-save_all_example =
    find-save_all plain_host noon stored (stored-IsClean noon) (cats ∷ newer ∷ [])
      (cats-IsNormal, (newer-IsNormal, tt)) noon (text "c1")

-- A refused write between others.
abbrev jobs : List Job
jobs =
    record { write = save newer; clock = noon; refused = false }
    ∷ record { write = clear; clock = noon; refused = true }
    ∷ record { write = rename (text "c1") (text "kept"); clock = noon; refused = false }
    ∷ record { write = save_all both; clock = noon; refused = false }
    ∷ record { write = delete (text "c2"); clock = noon; refused = false }
    ∷ []

run_queue-IsStable_example : IsStable plain_host (run_queue plain_host jobs stored).0
run_queue-IsStable_example =
    run_queue-IsStable plain_host jobs stored
      (
        (newer-IsNormal, λ e. cc),
        ((tt, λ e. cc), ((tt, λ e. cc), ((both-IsNormal, λ e. cc), ((tt, λ e. cc), tt)))),
      )
      stored-IsClean

normalize-raw_conversation_example :
    normalize_conversation plain_host noon (raw_conversation cats) ≡ cats
normalize-raw_conversation_example = normalize-raw_conversation plain_host noon cats cats-IsNormal

-- An object of the old format: one turn of its own, no list of turns.
abbrev old : RawConversation
old = record { own = raw_turn cat_turn; title = undefined; updated_at = undefined; turns = none }

five : text "5" ≢ []
five e = cc

old-HasCount : HasCount plain_host noon five five (legacy_turn plain_host noon old.own)
unfolding legacy_turn
old-HasCount = refl

normalize_conversation-IsNormal_example : IsNormal (normalize_conversation plain_host noon old)
normalize_conversation-IsNormal_example =
    normalize_conversation-IsNormal plain_host noon five five old tt tt tt old-HasCount tt

abbrev shown : Entries
shown = λ j. find_conversation j both

stored-Represents : Represents plain_host stored shown
stored-Represents = record {
  stable = stored-IsClean;
  shown = λ clock. ap (λ cs. λ (j : Text). find_conversation j cs) (read-stored clock);
}

run_queue-replay_example :
    Represents plain_host (run_queue plain_host jobs stored).0 (replay plain_host jobs shown)
    × ((clock : Clock) (j : Text)
        → find_conversation j
            (list_image_conversations plain_host clock (run_queue plain_host jobs stored).0)
          ≡ replay plain_host jobs shown j)
run_queue-replay_example =
    run_queue-replay plain_host jobs stored shown
      (
        (newer-IsNormal, λ e. cc),
        ((tt, λ e. cc), ((tt, λ e. cc), ((both-IsNormal, λ e. cc), ((tt, λ e. cc), tt)))),
      )
      stored-Represents
