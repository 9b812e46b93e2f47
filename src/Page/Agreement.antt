-- ===== src/Page/Agreement.antt =====
-- web/src/app/image/page.tsx and web/src/store/image-conversations.ts: the list in memory against the
-- storage that takes the writes of the handlers.
pub mod Handlers
use gpt2api_image.Base.{
  append_nil, append_assoc, Text, ◌==◌, eq_iff, ◌≡◌, refl, sym, ap, subst, fun_ext, ◌∙◌, inl, inr,
  true, false, Option, none, some, List, [], ◌∷◌, ◌++◌, map, filter_map, Option-cases, Bool-cases,
  is_empty, if◌then◌else◌, arith,
}
use gpt2api_image.Base.Num.{le_ℤ}
use gpt2api_image.Base.Host.{Host}
use gpt2api_image.Conversation.{ImageConversation, ImageTurn}
use gpt2api_image.Conversation.Normalize.{Clock}
use gpt2api_image.Conversation.Ordering.{find_conversation, sort_image_conversations}
use gpt2api_image.Conversation.Lookup.{find-id, find-put, find-sort}
use gpt2api_image.Store.{get_timestamp, pick_latest_conversation}
use gpt2api_image.Store.Batch.{Entries, save_entry}
use gpt2api_image.Store.Queue.{Write, save, rename, delete, clear, Job}
use gpt2api_image.Store.Replay.{replay, rename_entry}
use gpt2api_image.Page.{
  Page, Effect, write, cancel, toast, run, emit, cancel_silently, persist_conversation,
  update_conversation,
}
use gpt2api_image.Page.Memory.{IsOrderly, find-update, update_missing, updated}

abbrev pub write_of : Effect → Option Write
write_of (write w) = some w
write_of _ = none

abbrev pub at : Clock → Write → Job
at clock w = record { write = w; clock = clock; refused = false }

-- The writes among the effects, in the queue of the storage: all run, at one time.
abbrev pub jobs_of : Clock → List Effect → List Job
jobs_of clock effects = map (at clock) (filter_map write_of effects)

abbrev pub memory : Page → Entries
memory page = λ j. find_conversation j page.conversations

-- No stored date of the conversation is later than `now`.
abbrev pub IsPast : Host → Text → Text → Page → Type 0
IsPast host id now page =
    (c : ImageConversation)
    → find_conversation id page.conversations ≡ some c
    → le_ℤ (get_timestamp host c.updated_at) (get_timestamp host now) ≡ true

writes-append :
    (xs ys : List Effect)
    → filter_map write_of (xs ++ ys) ≡ filter_map write_of xs ++ filter_map write_of ys
writes-append [] ys = refl
writes-append (e ∷ xs) ys = ground (arith, writes-append xs ys)

replay-append :
    (host : Host) (clock : Clock) (ws vs : List Write) (entries : Entries)
    → replay host (map (at clock) (ws ++ vs)) entries
      ≡ replay host (map (at clock) vs) (replay host (map (at clock) ws) entries)
replay-append host clock [] vs entries = refl
replay-append host clock (w ∷ ws) vs entries = replay-append host clock ws vs _

module _ (host : Host) (clock : Clock) where
  -- From one page to the next only effects were added, and their writes take the map of the one list
  -- in memory to the map of the other.
  abbrev pub IsSynced : Page → Page → Type 0
  IsSynced page next =
      (new : List Effect) × (next.effects ≡ page.effects ++ new)
      × (replay host (jobs_of clock new) (memory page) ≡ memory next)

  -- A conversation that is stored later is not dated back.
  abbrev pub IsOlder : Option ImageConversation → ImageConversation → Type 0
  IsOlder o next =
      (current : ImageConversation)
      → o ≡ some current
      → le_ℤ (get_timestamp host current.updated_at) (get_timestamp host next.updated_at) ≡ true

  saves :
      (entries : Entries) (c : ImageConversation) (j : Text)
      → IsOlder (entries c.id) c
      → save_entry host entries c j ≡ (if c.id == j then some c else entries j)
  unfolding pick_latest_conversation
  saves entries c j older = elim (Option-cases (entries c.id)) [
    | inl new ↦ rw new refl
    | inr (current, found) ↦ rw (found, older current found) refl
  ]

  pub persist-IsSynced :
      (c : ImageConversation) (page : Page)
      → IsOrderly host page
      → IsOlder (find_conversation c.id page.conversations) c
      → IsSynced page (persist_conversation host c page)
  unfolding persist_conversation
  persist-IsSynced c page h older = (
    write (save c) ∷ [],
    refl,
    fun_ext
        (λ j. saves (memory page) c j older ∙ sym (find-put host c page.conversations j h.nodup)),
  )

  pub same-IsSynced : (page : Page) → IsSynced page page
  same-IsSynced page = ([], sym (append_nil page.effects), refl)

  pub IsSynced-trans :
      (page middle next : Page) → IsSynced page middle → IsSynced middle next → IsSynced page next
  IsSynced-trans page middle next (new, added, replayed) (more, added', replayed') = (
    new ++ more,
    added' ∙ ap (λ es. es ++ more) added ∙ append_assoc page.effects new more,
    ap (λ ws. replay host (map (at clock) ws) (memory page)) (writes-append new more)
        ∙ replay-append host clock (filter_map write_of new) (filter_map write_of more)
            (memory page)
        ∙ ap (replay host (jobs_of clock more)) replayed
        ∙ replayed',
  )

  module _ (id : Text) (updater : ImageConversation → ImageConversation)
      (keeps : (c : ImageConversation) → (updater c).id ≡ c.id) where
    pub update-IsSynced :
        (page : Page)
        → IsOrderly host page
        → ((c : ImageConversation) → IsOlder (find_conversation id page.conversations) (updater c))
        → IsSynced page (update_conversation host id updater page)
    unfolding update_conversation
    update-IsSynced page h older = elim (Option-cases (find_conversation id page.conversations)) [
      | inl missing ↦
          subst (IsSynced page) (sym (update_missing host id updater page missing))
            (same-IsSynced page)
      | inr (current, found) ↦
          let same : (updater current).id ≡ id =
            keeps current ∙ find-id id page.conversations found in
          (
            write (save (updater current)) ∷ [],
            rw (found, update_conversation) refl,
            fun_ext (λ j.
                saves (memory page) (updater current) j (
                  subst (λ k. IsOlder (memory page k) (updater current)) (sym same) (older current))
                ∙ ap (λ k. if k == j then some (updater current) else memory page j) same
                ∙ ap (λ o. if id == j then updated host id updater o else memory page j) (sym found)
                ∙ sym (find-update host id updater page j keeps h)),
          )
    ]
