-- ===== src/Conversation/Lookup.antt =====
-- Finding a conversation by its id: what sorting, removing and replacing do to it.
use gpt2api_image.Base.{
  Text, ◌==◌, eq_iff, ◌≡◌, refl, ap, ◌∙◌, map, Option, subst, some-eq, All, inl, inr, none, some,
  List, [], ◌∷◌, Bool-cases, if◌then◌else◌, arith,
}
use gpt2api_image.Base.Host.{Host}
use gpt2api_image.Conversation.{ImageConversation}
use gpt2api_image.Conversation.Ordering.{
  find_conversation, remove_conversation, insert_sorted, sort_image_conversations,
}

-- No two conversations of the list share an id.
abbrev pub NodupIds : List ImageConversation → Type 0
NodupIds [] = Unit
NodupIds (c ∷ cs) = (find_conversation c.id cs ≡ none) × NodupIds cs

pub find-id :
    (id : Text) (cs : List ImageConversation) {c : ImageConversation}
    → find_conversation id cs ≡ some c
    → c.id ≡ id
find-id id [] e = cc
find-id id (d ∷ ds) {c} e = ground (arith, eq_iff d.id id, find-id id ds {c = c})

pub find-All :
    (P : ImageConversation → Type 0) (id : Text) (cs : List ImageConversation)
    {c : ImageConversation}
    → All P cs
    → find_conversation id cs ≡ some c
    → P c
find-All P id [] h e = cc
find-All P id (d ∷ ds) (p, h) e = elim (Bool-cases (d.id == id)) [
  | inl same ↦ subst P (some-eq (rw same at e)) p
  | inr other ↦ find-All P id ds h (rw other at e)
]

pub find-remove :
    (id j : Text) (cs : List ImageConversation)
    → find_conversation j (remove_conversation id cs)
      ≡ (if id == j then none else find_conversation j cs)
find-remove id j [] = ground arith
find-remove id j (c ∷ cs) =
    ground (arith, find-remove id j cs, eq_iff c.id id, eq_iff c.id j, eq_iff id j)

pub remove-NodupIds :
    (id : Text) (cs : List ImageConversation) → NodupIds cs → NodupIds (remove_conversation id cs)
remove-NodupIds id [] h = tt
remove-NodupIds id (c ∷ cs) h = ground (arith, remove-NodupIds id cs h.1, find-remove id c.id cs)

module _ (f : ImageConversation → ImageConversation)
    (keeps : (c : ImageConversation) → (f c).id ≡ c.id) where
  abbrev pub mapped : Option ImageConversation → Option ImageConversation
  mapped none = none
  mapped (some c) = some (f c)

  pub find-map :
      (j : Text) (cs : List ImageConversation)
      → find_conversation j (map f cs) ≡ mapped (find_conversation j cs)
  find-map j [] = refl
  find-map j (c ∷ cs) = simp keeps (ground (arith, find-map j cs))

  pub map-NodupIds : (cs : List ImageConversation) → NodupIds cs → NodupIds (map f cs)
  map-NodupIds [] h = tt
  map-NodupIds (c ∷ cs) (fresh, h) =
      (rw (keeps c) (find-map c.id cs ∙ ap mapped fresh), map-NodupIds cs h)

module _ (host : Host) where
  find-insert_sorted :
      (c : ImageConversation) (ds : List ImageConversation) (j : Text)
      → find_conversation c.id ds ≡ none
      → find_conversation j (insert_sorted host c ds)
        ≡ (if c.id == j then some c else find_conversation j ds)
  unfolding insert_sorted
  find-insert_sorted c [] j h = refl
  find-insert_sorted c (d ∷ ds) j h =
      ground (arith, find-insert_sorted c ds j, eq_iff d.id c.id, eq_iff d.id j, eq_iff c.id j)

  insert_sorted-NodupIds :
      (c : ImageConversation) (ds : List ImageConversation)
      → find_conversation c.id ds ≡ none
      → NodupIds ds
      → NodupIds (insert_sorted host c ds)
  unfolding insert_sorted
  insert_sorted-NodupIds c [] h n = (refl, tt)
  insert_sorted-NodupIds c (d ∷ ds) h n = ground (
    arith,
    insert_sorted-NodupIds c ds,
    find-insert_sorted c ds d.id,
    eq_iff d.id c.id,
    eq_iff c.id d.id,
  )

  pub find-sort :
      (cs : List ImageConversation) (j : Text)
      → NodupIds cs
      → find_conversation j (sort_image_conversations host cs) ≡ find_conversation j cs
  unfolding sort_image_conversations
  find-sort [] j h = refl
  find-sort (c ∷ cs) j h = ground (
    arith,
    find-insert_sorted c (sort_image_conversations host cs) j,
    find-sort cs j h.1,
    find-sort cs c.id h.1,
  )

  pub sort-NodupIds :
      (cs : List ImageConversation) → NodupIds cs → NodupIds (sort_image_conversations host cs)
  unfolding sort_image_conversations
  sort-NodupIds [] h = tt
  sort-NodupIds (c ∷ cs) h = ground (
    arith,
    insert_sorted-NodupIds c (sort_image_conversations host cs),
    sort-NodupIds cs h.1,
    find-sort cs c.id h.1,
  )

  -- The list after `sort([c, ...items.filter((item) => item.id !== c.id)])`.
  abbrev pub put_conversation : ImageConversation → List ImageConversation → List ImageConversation
  put_conversation c cs = sort_image_conversations host (c ∷ remove_conversation c.id cs)

  removed :
      (c : ImageConversation) (cs : List ImageConversation)
      → find_conversation c.id (remove_conversation c.id cs) ≡ none
  removed c cs = ground (arith, find-remove c.id c.id cs, eq_iff c.id c.id)

  pub find-put :
      (c : ImageConversation) (cs : List ImageConversation) (j : Text)
      → NodupIds cs
      → find_conversation j (put_conversation c cs)
        ≡ (if c.id == j then some c else find_conversation j cs)
  find-put c cs j h =
      rw (find-sort (c ∷ remove_conversation c.id cs) j (removed c cs, remove-NodupIds c.id cs h))
        (ground (arith, find-remove c.id j cs))

  pub put-NodupIds :
      (c : ImageConversation) (cs : List ImageConversation)
      → NodupIds cs
      → NodupIds (put_conversation c cs)
  put-NodupIds c cs h =
      sort-NodupIds (c ∷ remove_conversation c.id cs) (removed c cs, remove-NodupIds c.id cs h)
