-- ===== src/Queue/Agreement.antt =====
-- web/src/app/image/page.tsx, `runConversationQueue`: what a run shows against what it stores.
use gpt2api_image.Base.{
  Text, ◌≡◌, refl, sym, ap, ◌∙◌, inl, inr, List, [], ◌∷◌, All, filter_map, subst, map,
}
use gpt2api_image.Base.Host.{Host}
use gpt2api_image.Conversation.Normalize.{Clock}
use gpt2api_image.Store.Replay.{replay}
use gpt2api_image.Page.{Page, Effect}
use gpt2api_image.Page.Memory.{IsOrderly}
use gpt2api_image.Page.Agreement.{
  IsSynced, IsPast, update-IsSynced, same-IsSynced, write_of, memory, at, IsSynced-trans,
}
use gpt2api_image.Queue.{Run, Event, perform, on_turn}
use gpt2api_image.Queue.Frame.{IsToast, IsToasted, IsUpdate, perform-cases, time_of}

writes_toasts : (ts : List Effect) → All IsToast ts → filter_map write_of ts ≡ []
writes_toasts [] h = refl
writes_toasts (t ∷ ts) ((message, same), h) = rw same (writes_toasts ts h)

module _ (host : Host) (clock : Clock) (r : Run) where
  toasted-IsSynced : (middle next : Page) → IsToasted middle next → IsSynced host clock middle next
  toasted-IsSynced middle next (ts, toasts, same) = (
    ts,
    ap (λ p. p.effects) same,
    ap (λ ws. replay host (map (at clock) ws) (memory middle)) (writes_toasts ts toasts)
        ∙ ap memory (sym same),
  )

  update-cases :
      (now : Text) {page middle : Page}
      → IsOrderly host page
      → IsPast host r.conversation_id now page
      → IsUpdate host r now page middle
      → IsSynced host clock page middle
  update-cases now {page} h past (inl same) =
      subst (IsSynced host clock page) (sym same) (same-IsSynced host clock page)
  update-cases now {page} h past (inr (f, keeps, same)) =
      subst (IsSynced host clock page) (sym same) (
        update-IsSynced host clock r.conversation_id (on_turn now r.turn.id f) (λ c. refl) page h
          (λ c. past))

  -- A step of a run keeps the storage and the list in memory in agreement, unless the conversation of
  -- the run has a later date than the step: the writes that it adds take the map of the one list to
  -- that of the other.
  pub perform-IsSynced :
      (e : Event) (page : Page)
      → IsOrderly host page
      → IsPast host r.conversation_id (time_of host r e) page
      → IsSynced host clock page (perform host r e page)
  perform-IsSynced e page h past =
      let (middle, updated, toasted) = perform-cases host r e page in
      IsSynced-trans host clock page middle (perform host r e page)
        (update-cases (time_of host r e) h past updated)
        (toasted-IsSynced middle (perform host r e page) toasted)
