-- ===== src/Store/Replay.antt =====
-- What the storage promises: each write of the queue acts on a map from ids to conversations.
use gpt2api_image.Base.{
  Text, ◌==◌, ◌≡◌, ◌≢◌, ◌∙◌, refl, sym, ap, fun_ext, inl, inr, Option, none, some, List, [], ◌∷◌,
  All, Option-cases, Bool-cases, eq_iff, if◌then◌else◌, arith,
}
use gpt2api_image.Base.Host.{Host}
use gpt2api_image.Conversation.{ImageConversation}
use gpt2api_image.Conversation.Normalize.{Clock}
use gpt2api_image.Conversation.Ordering.{find_conversation}
use gpt2api_image.Conversation.Lookup.{find-sort}
use gpt2api_image.Store.{Disk, read_stored, list_image_conversations, rename_image_conversation}
use gpt2api_image.Store.Lookup.{find-save, find-rename, find-delete}
use gpt2api_image.Store.Batch.{Entries, save_entries, save_entry, find-save_all}
use gpt2api_image.Store.Queue.{
  Write, save, save_all, rename, delete, clear, apply, Job, run_job, run_queue, IsNormalWrite,
  IsNormalJob, IsStable, run_job-IsStable,
}

abbrev pub rename_entry : Clock → Text → Option ImageConversation → Option ImageConversation
rename_entry clock title none = none
rename_entry clock title (some c) = some (record c { title = title; updated_at = clock.iso })

-- A write on the map: the entries that it does not name stay.
abbrev pub replay_write : Host → Clock → Write → Entries → Entries
replay_write host clock (save c) entries = save_entry host entries c
replay_write host clock (save_all cs) entries = save_entries host entries cs
replay_write host clock (rename id title) entries =
    λ j. if id == j then rename_entry clock title (entries id) else entries j
replay_write host clock (delete id) entries = λ j. if id == j then none else entries j
replay_write host clock clear entries = λ j. none

-- A refused write changes nothing, and those behind it are applied all the same.
abbrev pub replay : Host → List Job → Entries → Entries
replay host [] entries = entries
replay host (job ∷ jobs) entries =
    replay host jobs
      (if job.refused then entries else replay_write host job.clock job.write entries)

rename_missing :
    (host : Host) (clock : Clock) (id title : Text) (disk : Disk)
    → find_conversation id (read_stored host clock disk) ≡ none
    → rename_image_conversation host clock id title disk ≡ disk
unfolding rename_image_conversation
rename_missing host clock id title disk missing = rw (missing, rename_image_conversation) refl

module _ (host : Host) where
  abbrev pub entries_of : Clock → Disk → Entries
  entries_of clock disk = λ j. find_conversation j (read_stored host clock disk)

  -- The disk is in good order, and whenever it is read it shows the entries of the map.
  pub record Represents (disk : Disk) (entries : Entries) : Type 0 where
    pub stable : IsStable host disk
    pub shown : (clock : Clock) → entries_of clock disk ≡ entries

  shown-rename :
      (clock later : Clock) (id title : Text) (disk : Disk) (entries : Entries)
      → clock.iso ≢ []
      → Represents disk entries
      → (j : Text)
      → entries_of later (rename_image_conversation host clock id title disk) j
        ≡ replay_write host clock (rename id title) entries j
  shown-rename clock later id title disk entries iso h j =
      elim (Option-cases (find_conversation id (read_stored host clock disk))) [
        | inl missing ↦
            ap (λ (d : Disk). entries_of later d j)
              (rename_missing host clock id title disk missing)
            ∙ ap (λ (f : Entries). f j) (h.shown later)
            ∙ ground
                (arith, eq_iff id j, sym (ap (λ (f : Entries). f id) (h.shown clock)) ∙ missing)
        | inr (target, found) ↦
            find-rename host clock disk (h.stable clock) later id title j target iso found
            ∙ ground (
              arith,
              ap (λ (f : Entries). f j) (h.shown clock),
              sym (ap (λ (f : Entries). f id) (h.shown clock)) ∙ found,
            )
      ]

  shown-apply :
      (clock later : Clock) (write : Write) (disk : Disk) (entries : Entries)
      → IsNormalWrite write
      → clock.iso ≢ []
      → Represents disk entries
      → (j : Text)
      → entries_of later (apply host clock write disk) j ≡ replay_write host clock write entries j
  unfolding apply
  shown-apply clock later (save c) disk entries n iso h j =
      rw (← h.shown clock) (find-save host clock disk (h.stable clock) later c n j)
  shown-apply clock later (save_all cs) disk entries n iso h j =
      rw (← h.shown clock) (find-save_all host clock disk (h.stable clock) cs n later j)
  shown-apply clock later (rename id title) disk entries n iso h j =
      shown-rename clock later id title disk entries iso h j
  shown-apply clock later (delete id) disk entries n iso h j =
      rw (← h.shown clock) (find-delete host clock disk (h.stable clock) later id j)
  shown-apply clock later clear disk entries n iso h j = unfold read_stored in refl

  run_job-Represents :
      (job : Job) (disk : Disk) (entries : Entries)
      → IsNormalJob job
      → Represents disk entries
      → Represents
          (run_job host job disk).0
          (if job.refused then entries else replay_write host job.clock job.write entries)
  unfolding run_job
  run_job-Represents job disk entries n h = record {
    stable = run_job-IsStable host job disk n h.stable;
    shown = λ later. elim (Bool-cases job.refused) [
      | inl refusal ↦ rw (refusal, run_job) (h.shown later)
      | inr done ↦
          rw (done, run_job)
            (fun_ext (shown-apply job.clock later job.write disk entries n.0 n.1 h))
    ];
  }

  run_queue-Represents :
      (jobs : List Job) (disk : Disk) (entries : Entries)
      → All IsNormalJob jobs
      → Represents disk entries
      → Represents (run_queue host jobs disk).0 (replay host jobs entries)
  unfolding run_queue
  run_queue-Represents [] disk entries n h = h
  run_queue-Represents (job ∷ jobs) disk entries (n, ns) h =
      run_queue-Represents jobs (run_job host job disk).0
        (if job.refused then entries else replay_write host job.clock job.write entries) ns
        (run_job-Represents job disk entries n h)

  find-list :
      (clock : Clock) (disk : Disk) (entries : Entries) (j : Text)
      → Represents disk entries
      → find_conversation j (list_image_conversations host clock disk) ≡ entries j
  unfolding list_image_conversations
  find-list clock disk entries j h =
      find-sort host (read_stored host clock disk) j (h.stable clock).nodup
      ∙ ap (λ (f : Entries). f j) (h.shown clock)

  -- The queue of the writes refines a map that takes the same writes one after the other. If the disk
  -- is in good order and shows the entries of a map, the disk after the queue, whichever writes are
  -- refused, is in good order and shows the entries of the map that took the others; and so does the
  -- list that the page loads then, at whatever time.
  pub run_queue-replay :
      (jobs : List Job) (disk : Disk) (entries : Entries)
      → All IsNormalJob jobs
      → Represents disk entries
      → Represents (run_queue host jobs disk).0 (replay host jobs entries)
        × ((clock : Clock) (j : Text)
            → find_conversation j (list_image_conversations host clock (run_queue host jobs disk).0)
              ≡ replay host jobs entries j)
  run_queue-replay jobs disk entries n h =
      let after : Represents (run_queue host jobs disk).0 (replay host jobs entries) =
        run_queue-Represents jobs disk entries n h in
      (
        after,
        λ clock j. find-list clock (run_queue host jobs disk).0 (replay host jobs entries) j after,
      )
