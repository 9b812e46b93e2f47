-- ===== src/Store/Batch.antt =====
-- `saveImageConversations`: the `Map` of the source against the one-by-one update of the entries.
use gpt2api_image.Base.{
  Text, ◌==◌, eq_iff, ◌≡◌, refl, fun_ext, ap, ap₂, ◌∙◌, Option, none, some, List, [], ◌∷◌, map, All,
  Dict, lookup, insert, lookup-insert, NodupKeys, insert-NodupKeys, AllEntries, insert-AllEntries,
  lookup-AllEntries, if◌then◌else◌, arith,
}
use gpt2api_image.Base.Host.{Host}
use gpt2api_image.Conversation.{ImageConversation}
use gpt2api_image.Conversation.Raw.{raw_conversation}
use gpt2api_image.Conversation.Normalize.{Clock, normalize_conversation}
use gpt2api_image.Conversation.RoundTrip.{IsNormal, normalize-raw_conversation}
use gpt2api_image.Conversation.Ordering.{find_conversation, sort_image_conversations, All-sort}
use gpt2api_image.Conversation.Lookup.{NodupIds, find-sort, sort-NodupIds}
use gpt2api_image.Store.{
  Disk, set_item, latest_of, read_stored, index_from, merge_from, values, save_image_conversations,
}
use gpt2api_image.Store.Lookup.{
  IsClean, read-set_item, set_item-IsClean, id-latest_of, latest_of-IsNormal,
}

abbrev pub Entries : Type 0
Entries = Text → Option ImageConversation

-- An entry of the table stands under its own id.
abbrev IsKeyed : Text → ImageConversation → Type 0
IsKeyed k c = IsNormal c × (c.id ≡ k)

find-values :
    (m : Dict ImageConversation) (j : Text)
    → AllEntries IsKeyed m
    → find_conversation j (values m) ≡ lookup j m
unfolding lookup
find-values [] j h = refl
find-values ((k, c) ∷ m) j h = ground (arith, find-values m j h.1)

values-NodupIds :
    (m : Dict ImageConversation) → AllEntries IsKeyed m → NodupKeys m → NodupIds (values m)
values-NodupIds [] h n = tt
values-NodupIds ((k, c) ∷ m) (h, hs) (n, ns) =
    (find-values m c.id hs ∙ (rw h.1 n), values-NodupIds m hs ns)

values-IsNormal : (m : Dict ImageConversation) → AllEntries IsKeyed m → All IsNormal (values m)
values-IsNormal [] h = tt
values-IsNormal ((k, c) ∷ m) (h, hs) = (h.0, values-IsNormal m hs)

module _ (host : Host) where
  -- Saving one conversation into a map of entries.
  abbrev pub save_entry : Entries → ImageConversation → Entries
  save_entry entries c j = if c.id == j then some (latest_of host (entries c.id) c) else entries j

  abbrev pub save_entries : Entries → List ImageConversation → Entries
  save_entries entries [] = entries
  save_entries entries (c ∷ cs) = save_entries (save_entry entries c) cs

  lookup-merge_from :
      (m : Dict ImageConversation) (cs : List ImageConversation) (j : Text)
      → lookup j (merge_from host m cs) ≡ save_entries (λ k. lookup k m) cs j
  unfolding merge_from
  lookup-merge_from m [] j = refl
  lookup-merge_from m (c ∷ cs) j =
      lookup-merge_from (insert c.id (latest_of host (lookup c.id m) c) m) cs j
      ∙ ap (λ entries. save_entries entries cs j)
          (fun_ext (λ k. lookup-insert c.id k (latest_of host (lookup c.id m) c) m))

  merge_from-AllEntries :
      (m : Dict ImageConversation) (cs : List ImageConversation)
      → AllEntries IsKeyed m
      → All IsNormal cs
      → AllEntries IsKeyed (merge_from host m cs)
  unfolding merge_from
  merge_from-AllEntries m [] h n = h
  merge_from-AllEntries m (c ∷ cs) h (n, ns) =
      merge_from-AllEntries (insert c.id (latest_of host (lookup c.id m) c) m) cs
        (insert-AllEntries IsKeyed c.id (latest_of host (lookup c.id m) c) m
          (
            latest_of-IsNormal host (lookup c.id m) c
                (λ current e. (lookup-AllEntries IsKeyed c.id m h e).0) n,
            id-latest_of host (lookup c.id m) c
                (λ current e. (lookup-AllEntries IsKeyed c.id m h e).1),
          )
          h)
        ns

  merge_from-NodupKeys :
      (m : Dict ImageConversation) (cs : List ImageConversation)
      → NodupKeys m
      → NodupKeys (merge_from host m cs)
  unfolding merge_from
  merge_from-NodupKeys m [] h = h
  merge_from-NodupKeys m (c ∷ cs) h =
      merge_from-NodupKeys (insert c.id (latest_of host (lookup c.id m) c) m) cs
        (insert-NodupKeys c.id (latest_of host (lookup c.id m) c) m h)

abbrev or_entry : Option ImageConversation → Option ImageConversation → Option ImageConversation
or_entry (some c) o = some c
or_entry none o = o

lookup-index_from :
    (m : Dict ImageConversation) (items : List ImageConversation) (j : Text)
    → NodupIds items
    → lookup j (index_from m items) ≡ or_entry (find_conversation j items) (lookup j m)
unfolding index_from
lookup-index_from m [] j h = refl
lookup-index_from m (c ∷ cs) j h =
    ground
      (arith, lookup-index_from (insert c.id c m) cs j h.1, lookup-insert c.id j c m, eq_iff c.id j)

index_from-AllEntries :
    (m : Dict ImageConversation) (items : List ImageConversation)
    → AllEntries IsKeyed m
    → All IsNormal items
    → AllEntries IsKeyed (index_from m items)
unfolding index_from
index_from-AllEntries m [] h n = h
index_from-AllEntries m (c ∷ cs) h (n, ns) =
    index_from-AllEntries (insert c.id c m) cs (insert-AllEntries IsKeyed c.id c m (n, refl) h) ns

index_from-NodupKeys :
    (m : Dict ImageConversation) (items : List ImageConversation)
    → NodupKeys m
    → NodupKeys (index_from m items)
unfolding index_from
index_from-NodupKeys m [] h = h
index_from-NodupKeys m (c ∷ cs) h =
    index_from-NodupKeys (insert c.id c m) cs (insert-NodupKeys c.id c m h)

module _ (host : Host) (clock : Clock) where
  map-normalize :
      (cs : List ImageConversation)
      → All IsNormal cs
      → map (λ c. normalize_conversation host clock (raw_conversation c)) cs ≡ cs
  map-normalize [] h = refl
  map-normalize (c ∷ cs) (n, h) =
      ap₂ ◌∷◌ (normalize-raw_conversation host clock c n) (map-normalize cs h)

  module _ (disk : Disk) (clean : IsClean host clock disk) (cs : List ImageConversation)
      (n : All IsNormal cs) where
    abbrev stored : List ImageConversation
    stored = read_stored host clock disk

    abbrev merged : Dict ImageConversation
    merged = merge_from host (index_from [] stored) cs

    merged-IsKeyed : AllEntries IsKeyed merged
    merged-IsKeyed =
        merge_from-AllEntries host (index_from [] stored) cs
          (index_from-AllEntries [] stored tt clean.normal) n

    merged-NodupIds : NodupIds (values merged)
    merged-NodupIds =
        values-NodupIds merged merged-IsKeyed
          (merge_from-NodupKeys host (index_from [] stored) cs (index_from-NodupKeys [] stored tt))

    written : All IsNormal (sort_image_conversations host (values merged))
    written = All-sort host IsNormal (values merged) (values-IsNormal merged merged-IsKeyed)

    save_all-eq :
        save_image_conversations host clock cs disk
        ≡ set_item (sort_image_conversations host (values merged))
    unfolding save_image_conversations
    save_all-eq =
        ap
          (λ next.
            set_item (
              sort_image_conversations host (values (merge_from host (index_from [] stored) next))))
          (map-normalize cs n)

    stored_entries : (k : Text) → lookup k (index_from [] stored) ≡ find_conversation k stored
    unfolding lookup
    stored_entries k = ground (arith, lookup-index_from [] stored k clean.nodup)

    -- Saving a list of conversations is saving them one after the other: each entry becomes the
    -- latest of what was stored under the id and of the conversations of the list that have it.
    pub find-save_all :
        (later : Clock) (j : Text)
        → find_conversation j (read_stored host later (save_image_conversations host clock cs disk))
          ≡ save_entries host (λ k. find_conversation k stored) cs j
    find-save_all later j = rw save_all-eq (
        rw (read-set_item host later (sort_image_conversations host (values merged)) written) (
          find-sort host (values merged) j merged-NodupIds
          ∙ find-values merged j merged-IsKeyed
          ∙ lookup-merge_from host (index_from [] stored) cs j
          ∙ ap (λ entries. save_entries host entries cs j) (fun_ext stored_entries)))

    pub save_all-IsClean :
        (later : Clock) → IsClean host later (save_image_conversations host clock cs disk)
    save_all-IsClean later = rw save_all-eq (
        set_item-IsClean host later (sort_image_conversations host (values merged)) written
          (sort-NodupIds host (values merged) merged-NodupIds))
