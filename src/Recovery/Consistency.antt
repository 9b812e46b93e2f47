-- ===== src/Recovery/Consistency.antt =====
-- What opening the page saves, against what it shows.
use gpt2api_image.Base.{
  Text, ◌==◌, eq_iff, ◌≡◌, refl, sym, ap, ◌∙◌, some-eq, inl, inr, Bool, true, false, Option, none,
  some, List, [], ◌∷◌, any, is_empty, Bool-cases, Option-cases, arith, Dict, if◌then◌else◌,
}
use mathlib.Core.List.{head-eq_of_cons-eq, tail-eq_of_cons-eq}
use gpt2api_image.Conversation.{ImageConversation}
use gpt2api_image.Task.{ImageTask, map_image_tasks_by_lookup_id}
use gpt2api_image.Recovery.{
  any_changed, map_changed, recover_turn, sync_turn, recover_conversation,
  recover_conversation_history, sync_conversation_image_tasks, apply_task_list, sync_conversation,
  Outcome, loading_ids, apply_answer,
}
use gpt2api_image.Recovery.Changes.{map_changed_same}

-- Whether a conversation was last changed at a time.
abbrev pub is_stamped : Text → ImageConversation → Bool
is_stamped now c = c.updated_at == now

-- What is shown is what is stored: with nothing to save the conversations are as they came, and
-- otherwise the saved list is the one that is shown. Nothing is saved if the conversations are as they came
-- and none of them bears the time of the pass.
abbrev pub IsConsistent : Text → List ImageConversation → Outcome → Type 0
IsConsistent now items outcome =
    (outcome.saved ≡ none → outcome.items ≡ items)
    × ((saved : List ImageConversation) → outcome.saved ≡ some saved → saved ≡ outcome.items)
    × (outcome.items ≡ items → any (is_stamped now) items ≡ false → outcome.saved ≡ none)

-- A pass stamps the conversations that it changes.
abbrev Stamps : Text → (ImageConversation → Option ImageConversation) → Type 0
Stamps now f = (c d : ImageConversation) → f c ≡ some d → d.updated_at ≡ now

unchanged_stamped :
    (now : Text) (f : ImageConversation → Option ImageConversation)
    → Stamps now f
    → (xs : List ImageConversation) → any_changed f xs ≡ true
    → map_changed f xs ≡ xs
    → any (is_stamped now) xs ≡ true
unchanged_stamped now f h [] some_changed e = some_changed
unchanged_stamped now f h (x ∷ xs) some_changed e = elim (Option-cases (f x)) [
  | inl same ↦
      let below = unchanged_stamped now f h xs (rw same at some_changed) (tail-eq_of_cons-eq e) in
      ground (arith, below)
  | inr (y, changed) ↦
      let e' : y ≡ x = head-eq_of_cons-eq (rw changed at e) in
      let stamped : x.updated_at ≡ now = sym (ap (λ c. c.updated_at) e') ∙ h x y changed in
      ground (arith, eq_iff x.updated_at now, stamped)
]

IsConsistent-map_changed :
    (now : Text) (f : ImageConversation → Option ImageConversation) (items : List ImageConversation)
    → Stamps now f
    → IsConsistent now items (record {
      items = map_changed f items;
      saved = if any_changed f items then some (map_changed f items) else none;
    })
IsConsistent-map_changed now f items h = elim (Bool-cases (any_changed f items)) [
  | inl some_changed ↦ rw some_changed (
    λ e. cc,
    λ saved e. sym (some-eq e),
    λ e fresh. absurd (ground (arith, fresh, unchanged_stamped now f h items some_changed e)),
  )
  | inr none_changed ↦
      rw none_changed (λ e. map_changed_same f items none_changed, λ saved e. cc, λ e fresh. refl)
]

recover_conversation-Stamps : (now : Text) → Stamps now (recover_conversation now)
unfolding recover_conversation
recover_conversation-Stamps now c d e = elim (Bool-cases (any_changed recover_turn c.turns)) [
  | inl some_changed ↦ sym (ap (λ c. c.updated_at) (some-eq (rw some_changed at e)))
  | inr none_changed ↦ absurd (ground (arith, rw none_changed at e))
]

sync_conversation-Stamps :
    (now : Text) (tasks : Dict ImageTask) → Stamps now (sync_conversation now tasks)
unfolding sync_conversation
sync_conversation-Stamps now tasks c d e =
    elim (Bool-cases (any_changed (sync_turn tasks) c.turns)) [
      | inl some_changed ↦ sym (ap (λ c. c.updated_at) (some-eq (rw some_changed at e)))
      | inr none_changed ↦ absurd (ground (arith, rw none_changed at e))
    ]

apply_answer-IsConsistent :
    (now : Text) (answer : Option (List ImageTask)) (items : List ImageConversation)
    → IsConsistent now items (apply_answer now answer items)
unfolding apply_answer apply_task_list
apply_answer-IsConsistent now none items = (λ e. refl, λ saved e. cc, λ e fresh. refl)
apply_answer-IsConsistent now (some tasks) items =
    let known = map_image_tasks_by_lookup_id tasks in
    IsConsistent-map_changed now (sync_conversation now known) items
      (sync_conversation-Stamps now known)

sync-IsConsistent :
    (now : Text) (fetch : List Text → Option (List ImageTask)) (items : List ImageConversation)
    → IsConsistent now items (sync_conversation_image_tasks now fetch items)
unfolding sync_conversation_image_tasks
sync-IsConsistent now fetch items = elim (Bool-cases (is_empty (loading_ids items))) [
  | inl idle ↦ rw idle (λ e. refl, λ saved e. cc, λ e fresh. refl)
  | inr asked ↦ rw asked (apply_answer-IsConsistent now (fetch (loading_ids items)) items)
]

-- Each of the two passes saves exactly the list that it shows, or nothing, and if it saves nothing the list is
-- as it came. If the list is as it came, and no conversation in it bears the time of the pass, the pass
-- saves nothing.
pub recover-IsConsistent :
    (now later : Text) (fetch : List Text → Option (List ImageTask))
    (items : List ImageConversation)
    → let r = recover_conversation_history now later fetch items in
      IsConsistent now items r.0 × IsConsistent later r.0.items r.1
unfolding recover_conversation_history
recover-IsConsistent now later fetch items = (
  IsConsistent-map_changed now (recover_conversation now) items (recover_conversation-Stamps now),
  sync-IsConsistent later fetch (map_changed (recover_conversation now) items),
)
