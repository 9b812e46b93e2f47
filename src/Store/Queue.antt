-- ===== src/Store/Queue.antt =====
-- `queueImageConversationWrite`: the writes run one after the other, in the order of their calls, and
-- one that fails does not stop those behind it.
use gpt2api_image.Base.{
  Text, ◌≢◌, inl, inr, Bool, true, false, List, [], ◌∷◌, All, Option-cases, Bool-cases,
  if◌then◌else◌,
}
use gpt2api_image.Base.Host.{Host}
use gpt2api_image.Conversation.{ImageConversation}
use gpt2api_image.Conversation.Normalize.{Clock}
use gpt2api_image.Conversation.RoundTrip.{IsNormal}
use gpt2api_image.Conversation.Ordering.{find_conversation}
use gpt2api_image.Store.{
  Disk, read_stored, save_image_conversation, save_image_conversations, rename_image_conversation,
  delete_image_conversation, clear_image_conversations,
}
use gpt2api_image.Store.Lookup.{IsClean, save-IsClean, rename-IsClean, delete-IsClean}
use gpt2api_image.Store.Batch.{save_all-IsClean}

-- A call of one of the operations that write.
pub data Write : Type 0 where
  save : ImageConversation → Write
  save_all : List ImageConversation → Write
  rename : Text → Text → Write
  delete : Text → Write
  clear : Write

unfoldable pub apply : Host → Clock → Write → Disk → Disk
unfolding save_image_conversation save_image_conversations rename_image_conversation
    delete_image_conversation
apply host clock (save c) = save_image_conversation host clock c
apply host clock (save_all cs) = save_image_conversations host clock cs
apply host clock (rename id title) = rename_image_conversation host clock id title
apply host clock (delete id) = delete_image_conversation host clock id
apply host clock clear = clear_image_conversations

-- A write in the queue, with the time at which it runs and whether the storage refuses it.
pub record Job : Type 0 where
  pub write : Write
  pub clock : Clock
  pub refused : Bool

-- The disk after one job, and whether its promise was fulfilled.
unfoldable pub run_job : Host → Job → Disk → Disk × Bool
unfolding apply
run_job host job disk =
    if job.refused then (disk, false) else (apply host job.clock job.write disk, true)

unfoldable pub run_queue : Host → List Job → Disk → Disk × List Bool
unfolding run_job
run_queue host [] disk = (disk, [])
run_queue host (job ∷ jobs) disk =
    let (disk', done) = run_job host job disk in
    let (last, results) = run_queue host jobs disk' in (last, done ∷ results)

-- The conversations that a job writes are normal, and its clock shows a date.
abbrev pub IsNormalWrite : Write → Type 0
IsNormalWrite (save c) = IsNormal c
IsNormalWrite (save_all cs) = All IsNormal cs
IsNormalWrite _ = Unit

abbrev pub IsNormalJob : Job → Type 0
IsNormalJob job = IsNormalWrite job.write × (job.clock.iso ≢ [])

module _ (host : Host) where
  -- The disk is read in the same good order whatever the time.
  abbrev pub IsStable : Disk → Type 0
  IsStable disk = (clock : Clock) → IsClean host clock disk

  rename-IsStable :
      (clock : Clock) (id title : Text) (disk : Disk)
      → clock.iso ≢ []
      → IsStable disk
      → IsStable (rename_image_conversation host clock id title disk)
  rename-IsStable clock id title disk iso h later =
      elim (Option-cases (find_conversation id (read_stored host clock disk))) [
        | inl missing ↦
            unfold rename_image_conversation in rw (missing, rename_image_conversation) (h later)
        | inr (target, found) ↦
            rename-IsClean host clock disk (h clock) later id title target iso found
      ]

  pub apply-IsStable :
      (clock : Clock) (write : Write) (disk : Disk)
      → IsNormalWrite write
      → clock.iso ≢ []
      → IsStable disk
      → IsStable (apply host clock write disk)
  unfolding apply
  apply-IsStable clock (save c) disk n iso h later =
      save-IsClean host clock disk (h clock) later c n
  apply-IsStable clock (save_all cs) disk n iso h later =
      save_all-IsClean host clock disk (h clock) cs n later
  apply-IsStable clock (rename id title) disk n iso h later =
      rename-IsStable clock id title disk iso h later
  apply-IsStable clock (delete id) disk n iso h later =
      delete-IsClean host clock disk (h clock) later id
  apply-IsStable clock clear disk n iso h later =
      unfold read_stored in record { normal = tt; nodup = tt }

  pub run_job-IsStable :
      (job : Job) (disk : Disk)
      → IsNormalJob job
      → IsStable disk
      → IsStable (run_job host job disk).0
  unfolding run_job
  run_job-IsStable job disk n h = elim (Bool-cases job.refused) [
    | inl failed ↦ rw (failed, run_job) h
    | inr done ↦ rw (done, run_job) (apply-IsStable job.clock job.write disk n.0 n.1 h)
  ]

  -- Whatever writes are queued and whichever of them fail, the disk stays in good order: all that is
  -- read back is normal, and no id occurs twice.
  pub run_queue-IsStable :
      (jobs : List Job) (disk : Disk)
      → All IsNormalJob jobs
      → IsStable disk
      → IsStable (run_queue host jobs disk).0
  unfolding run_queue
  run_queue-IsStable [] disk n h = h
  run_queue-IsStable (job ∷ jobs) disk (n, ns) h =
      run_queue-IsStable jobs (run_job host job disk).0 ns (run_job-IsStable job disk n h)
