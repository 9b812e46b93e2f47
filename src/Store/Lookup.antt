-- ===== src/Store/Lookup.antt =====
-- The stored conversations as a map from ids: what each operation on one conversation does to it.
use gpt2api_image.Base.{
  Text, ◌==◌, ◌≡◌, ◌≢◌, refl, sym, ap, ap₂, inl, inr, Option, none, some, List, [], ◌∷◌, All,
  Bool-cases, if◌then◌else◌, arith,
}
use gpt2api_image.Base.Num.{le_ℤ}
use gpt2api_image.Base.Host.{Host}
use gpt2api_image.Conversation.{ImageConversation}
use gpt2api_image.Conversation.Normalize.{Clock}
use gpt2api_image.Conversation.RoundTrip.{IsNormal, normalize-raw_conversation}
use gpt2api_image.Conversation.Ordering.{
  find_conversation, remove_conversation, sort_image_conversations, All-sort, All-remove,
}
use gpt2api_image.Conversation.Lookup.{
  NodupIds, find-id, find-All, find-remove, remove-NodupIds, find-put, put-NodupIds,
  put_conversation,
}
use gpt2api_image.Store.{
  Disk, set_item, get_timestamp, pick_latest_conversation, latest_of, read_stored, save_next,
  save_image_conversation, rename_image_conversation, delete_image_conversation,
}

-- What is read back is normal, and no two conversations share an id.
pub record IsClean (host : Host) (clock : Clock) (disk : Disk) : Type 0 where
  pub normal : All IsNormal (read_stored host clock disk)
  pub nodup : NodupIds (read_stored host clock disk)

module _ (host : Host) (clock : Clock) where
  pub read-set_item :
      (items : List ImageConversation)
      → All IsNormal items
      → read_stored host clock (set_item items) ≡ items
  unfolding read_stored
  read-set_item [] h = refl
  read-set_item (c ∷ cs) (n, h) =
      ap₂ ◌∷◌ (normalize-raw_conversation host clock c n) (read-set_item cs h)

  pub set_item-IsClean :
      (items : List ImageConversation)
      → All IsNormal items
      → NodupIds items
      → IsClean host clock (set_item items)
  set_item-IsClean items h n = record {
    normal = rw (read-set_item items h) h;
    nodup = rw (read-set_item items h) n;
  }

pub id-latest_of :
    (host : Host) (o : Option ImageConversation) (c : ImageConversation)
    → ((current : ImageConversation) → o ≡ some current → current.id ≡ c.id)
    → (latest_of host o c).id ≡ c.id
unfolding pick_latest_conversation
id-latest_of host none c h = refl
id-latest_of host (some current) c h = ground (arith, h current refl)

pub latest_of-IsNormal :
    (host : Host) (o : Option ImageConversation) (c : ImageConversation)
    → ((current : ImageConversation) → o ≡ some current → IsNormal current)
    → IsNormal c
    → IsNormal (latest_of host o c)
unfolding pick_latest_conversation
latest_of-IsNormal host none c h n = n
latest_of-IsNormal host (some current) c h n =
    elim (Bool-cases
      (le_ℤ (get_timestamp host current.updated_at) (get_timestamp host c.updated_at))) [
        | inl newer ↦ rw newer n
        | inr older ↦ rw older (h current refl)
      ]

module _ (host : Host) (clock : Clock) (disk : Disk) (clean : IsClean host clock disk) where
  abbrev items : List ImageConversation
  items = read_stored host clock disk

  -- What `saveImageConversation` decides to keep under the id of `c`.
  abbrev pub kept : ImageConversation → ImageConversation
  kept c = latest_of host (find_conversation c.id items) c

  id-kept : (c : ImageConversation) → (kept c).id ≡ c.id
  id-kept c = id-latest_of host (find_conversation c.id items) c (λ current e. find-id c.id items e)

  kept-IsNormal : (c : ImageConversation) → IsNormal c → IsNormal (kept c)
  kept-IsNormal c =
      latest_of-IsNormal host (find_conversation c.id items) c
        (λ current e. find-All IsNormal c.id items clean.normal e)

  put-IsNormal : (c : ImageConversation) → IsNormal c → All IsNormal (put_conversation host c items)
  put-IsNormal c n = All-sort host IsNormal _ (n, All-remove IsNormal c.id items clean.normal)

  save-eq :
      (c : ImageConversation)
      → IsNormal c
      → save_image_conversation host clock c disk ≡ set_item (put_conversation host (kept c) items)
  unfolding save_image_conversation
  save-eq c n = ap (save_next host clock items) (normalize-raw_conversation host clock c n)

  module _ (later : Clock) (c : ImageConversation) (n : IsNormal c) where
    -- Saving changes the entry of the conversation's id and no other. The entry becomes the saved
    -- conversation, unless what is stored has a later date.
    pub find-save :
        (j : Text)
        → find_conversation j (read_stored host later (save_image_conversation host clock c disk))
          ≡ (if c.id == j then some (kept c) else find_conversation j items)
    find-save j = rw (save-eq c n) (
        rw
          (read-set_item host later (put_conversation host (kept c) items)
            (put-IsNormal (kept c) (kept-IsNormal c n)))
          (rw (find-put host (kept c) items j clean.nodup) (rw (id-kept c))))

    pub save-IsClean : IsClean host later (save_image_conversation host clock c disk)
    save-IsClean = rw (save-eq c n) (
        set_item-IsClean host later (put_conversation host (kept c) items)
          (put-IsNormal (kept c) (kept-IsNormal c n))
          (put-NodupIds host (kept c) items clean.nodup))

  abbrev renamed : Text → ImageConversation → ImageConversation
  renamed title c = record c { title = title; updated_at = clock.iso }

  renamed-IsNormal :
      (title : Text) (c : ImageConversation)
      → clock.iso ≢ []
      → IsNormal c
      → IsNormal (renamed title c)
  renamed-IsNormal title c iso n = record {
    id = n.id;
    created_at = n.created_at;
    updated_at = iso;
    turns = n.turns;
  }

  rename-eq :
      (id title : Text) (target : ImageConversation)
      → find_conversation id items ≡ some target
      → rename_image_conversation host clock id title disk
        ≡ set_item (put_conversation host (renamed title target) items)
  unfolding rename_image_conversation
  rename-eq id title target e =
      rw (e, rename_image_conversation)
        (ap
          (λ k.
            set_item
              (sort_image_conversations host (renamed title target ∷ remove_conversation k items)))
          (sym (find-id id items e)))

  module _ (later : Clock) where
    -- Renaming a stored conversation changes its title and its date, and no other conversation.
    pub find-rename :
        (id title j : Text) (target : ImageConversation)
        → clock.iso ≢ []
        → find_conversation id items ≡ some target
        → find_conversation j
            (read_stored host later (rename_image_conversation host clock id title disk))
          ≡ (if id == j then some (renamed title target) else find_conversation j items)
    find-rename id title j target iso e =
        let same : target.id ≡ id = find-id id items e in
        let normal : IsNormal (renamed title target) =
          renamed-IsNormal title target iso (find-All IsNormal id items clean.normal e) in
        rw (rename-eq id title target e) (
          rw
            (read-set_item host later (put_conversation host (renamed title target) items)
              (put-IsNormal (renamed title target) normal))
            (rw (find-put host (renamed title target) items j clean.nodup) (rw same)))

    pub rename-IsClean :
        (id title : Text) (target : ImageConversation)
        → clock.iso ≢ []
        → find_conversation id items ≡ some target
        → IsClean host later (rename_image_conversation host clock id title disk)
    rename-IsClean id title target iso e =
        let normal : IsNormal (renamed title target) =
          renamed-IsNormal title target iso (find-All IsNormal id items clean.normal e) in
        rw (rename-eq id title target e) (
          set_item-IsClean host later (put_conversation host (renamed title target) items)
            (put-IsNormal (renamed title target) normal)
            (put-NodupIds host (renamed title target) items clean.nodup))

    -- Deleting removes the conversation of the id and no other.
    pub find-delete :
        (id j : Text)
        → find_conversation j
            (read_stored host later (delete_image_conversation host clock id disk))
          ≡ (if id == j then none else find_conversation j items)
    unfolding delete_image_conversation
    find-delete id j =
        rw
          (read-set_item host later (remove_conversation id items)
            (All-remove IsNormal id items clean.normal))
          (find-remove id j items)

    pub delete-IsClean :
        (id : Text) → IsClean host later (delete_image_conversation host clock id disk)
    unfolding delete_image_conversation
    delete-IsClean id =
        set_item-IsClean host later (remove_conversation id items)
          (All-remove IsNormal id items clean.normal) (remove-NodupIds id items clean.nodup)
