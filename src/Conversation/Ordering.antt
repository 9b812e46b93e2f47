-- ===== src/Conversation/Ordering.antt =====
-- `sortImageConversations`, which page.tsx and image-conversations.ts both define, and the lists of
-- conversations that it is used on.
use mathlib.Core.List.{Perm}
use mathlib.Core.List.Perm
use gpt2api_image.Base.{
  Text, ◌==◌, ◌≡◌, inl, inr, Bool, true, not, Option, List, [], ◌∷◌, find, filter, All, Bool-cases,
  if◌then◌else◌, arith,
}
use gpt2api_image.Base.Host.{Host}
use gpt2api_image.Conversation.{ImageConversation}

-- `items.find((item) => item.id === id)`
abbrev pub find_conversation : Text → List ImageConversation → Option ImageConversation
find_conversation id = find (λ c. c.id == id)

-- `items.filter((item) => item.id !== id)`
abbrev pub remove_conversation : Text → List ImageConversation → List ImageConversation
remove_conversation id = filter (λ c. not (c.id == id))

module _ (host : Host) where
  -- `b.updatedAt.localeCompare(a.updatedAt) <= 0`
  abbrev pub goes_first : ImageConversation → ImageConversation → Bool
  goes_first a b = host.collate b.updated_at a.updated_at

  unfoldable pub insert_sorted : ImageConversation → List ImageConversation → List ImageConversation
  insert_sorted c [] = c ∷ []
  insert_sorted c (d ∷ ds) = if goes_first c d then c ∷ d ∷ ds else d ∷ insert_sorted c ds

  -- `[...conversations].sort(...)`: `sort` is stable, so equal dates keep their order.
  unfoldable pub sort_image_conversations : List ImageConversation → List ImageConversation
  unfolding insert_sorted
  sort_image_conversations [] = []
  sort_image_conversations (c ∷ cs) = insert_sorted c (sort_image_conversations cs)

  abbrev pub IsSorted : List ImageConversation → Type 0
  IsSorted [] = Unit
  IsSorted (c ∷ cs) = All (λ d. goes_first c d ≡ true) cs × IsSorted cs

  All-goes_first :
      (c d : ImageConversation) (ds : List ImageConversation)
      → goes_first c d ≡ true
      → All (λ e. goes_first d e ≡ true) ds
      → All (λ e. goes_first c e ≡ true) ds
  All-goes_first c d [] h k = tt
  All-goes_first c d (e ∷ ds) h (k, ks) =
      (host.collate_trans e.updated_at d.updated_at c.updated_at k h, All-goes_first c d ds h ks)

  All-insert_sorted :
      (P : ImageConversation → Type 0) (c : ImageConversation) (ds : List ImageConversation)
      → P c
      → All P ds
      → All P (insert_sorted c ds)
  unfolding insert_sorted
  All-insert_sorted P c [] p h = (p, tt)
  All-insert_sorted P c (d ∷ ds) p h = elim (Bool-cases (goes_first c d)) [
    | inl first ↦ rw first (p, h)
    | inr later ↦ rw later (h.0, All-insert_sorted P c ds p h.1)
  ]

  insert_sorted-IsSorted :
      (c : ImageConversation) (ds : List ImageConversation)
      → IsSorted ds
      → IsSorted (insert_sorted c ds)
  unfolding insert_sorted
  insert_sorted-IsSorted c [] h = (tt, tt)
  insert_sorted-IsSorted c (d ∷ ds) h = elim (Bool-cases (goes_first c d)) [
    | inl first ↦ rw first ((first, All-goes_first c d ds first h.0), h)
    | inr later ↦ rw later (
      All-insert_sorted (λ e. goes_first d e ≡ true) c ds
          (ground (arith, host.collate_total d.updated_at c.updated_at)) h.0,
      insert_sorted-IsSorted c ds h.1,
    )
  ]

  -- In the sorted list every conversation goes first of those behind it: none of them has a later date.
  pub sort-IsSorted : (cs : List ImageConversation) → IsSorted (sort_image_conversations cs)
  unfolding sort_image_conversations
  sort-IsSorted [] = tt
  sort-IsSorted (c ∷ cs) = insert_sorted-IsSorted c (sort_image_conversations cs) (sort-IsSorted cs)

  pub remove-IsSorted :
      (id : Text) (cs : List ImageConversation) → IsSorted cs → IsSorted (remove_conversation id cs)
  remove-IsSorted id [] h = tt
  remove-IsSorted id (c ∷ cs) h = elim (Bool-cases (c.id == id)) [
    | inl same ↦ rw same (remove-IsSorted id cs h.1)
    | inr other ↦ rw other (All-remove c cs h.0, remove-IsSorted id cs h.1)
  ]
    where
      All-remove :
          (c : ImageConversation) (ds : List ImageConversation)
          → All (λ d. goes_first c d ≡ true) ds
          → All (λ d. goes_first c d ≡ true) (remove_conversation id ds)
      All-remove c [] k = tt
      All-remove c (d ∷ ds) (k, ks) = ground (arith, All-remove c ds ks)

  insert_sorted-perm :
      (c : ImageConversation) (ds : List ImageConversation) → Perm (insert_sorted c ds) (c ∷ ds)
  unfolding insert_sorted
  insert_sorted-perm c [] = Perm.refl (c ∷ [])
  insert_sorted-perm c (d ∷ ds) = elim (Bool-cases (goes_first c d)) [
    | inl first ↦ rw first (Perm.refl (c ∷ d ∷ ds))
    | inr later ↦ rw later (Perm.trans (Perm.cons d (insert_sorted-perm c ds)) (Perm.swap c d ds))
  ]

  pub sort-perm : (cs : List ImageConversation) → Perm (sort_image_conversations cs) cs
  unfolding sort_image_conversations
  sort-perm [] = Perm.refl []
  sort-perm (c ∷ cs) =
      Perm.trans (insert_sorted-perm c (sort_image_conversations cs)) (Perm.cons c (sort-perm cs))

  pub All-sort :
      (P : ImageConversation → Type 0) (cs : List ImageConversation)
      → All P cs
      → All P (sort_image_conversations cs)
  unfolding sort_image_conversations
  All-sort P [] h = tt
  All-sort P (c ∷ cs) (p, h) =
      All-insert_sorted P c (sort_image_conversations cs) p (All-sort P cs h)

pub All-remove :
    (P : ImageConversation → Type 0) (id : Text) (cs : List ImageConversation)
    → All P cs
    → All P (remove_conversation id cs)
All-remove P id [] h = tt
All-remove P id (c ∷ cs) (p, h) = elim (Bool-cases (c.id == id)) [
  | inl same ↦ rw same (All-remove P id cs h)
  | inr other ↦ rw other (p, All-remove P id cs h)
]
