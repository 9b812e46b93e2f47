-- ===== src/Queue/Waiting.antt =====
-- web/src/app/image/page.tsx: the effect on the conversations that are shown, and the `finally` of
-- `runConversationQueue`: every conversation that waits gets its run.
use gpt2api_image.Base.{
  Text, ◌==◌, eq_iff, ◌≡◌, refl, ap, ◌∙◌, inl, inr, Bool, true, false, not, ◌&&◌, some, List, [],
  ◌∷◌, ◌++◌, map, any, filter, find, Bool-cases, arith,
}
use gpt2api_image.Base.Host.{Host}
use gpt2api_image.Conversation.{ImageConversation, ImageTurn}
use gpt2api_image.Conversation.Ordering.{find_conversation}
use gpt2api_image.Conversation.Lookup.{NodupIds, find-id}
use gpt2api_image.Page.{Page, run}
use gpt2api_image.Page.Memory.{IsOrderly}
use gpt2api_image.Queue.{Run, begin, finish, member, needs_run, start_shown}

abbrev ids_of : (ImageConversation → Bool) → List ImageConversation → List Text
ids_of test cs = map (λ c. c.id) (filter test cs)

abbrev Found : (ImageConversation → Bool) → Text → List ImageConversation → Type 0
Found test j cs = (c : ImageConversation) × (find_conversation j cs ≡ some c) × (test c ≡ true)

module _ (test : ImageConversation → Bool) (j : Text) where
  Found-cons :
      (d : ImageConversation) (ds : List ImageConversation)
      → (d.id == j) ≡ false
      → Found test j ds
      → Found test j (d ∷ ds)
  Found-cons d ds other (c, found, holds) = (c, rw other found, holds)

  member-Found :
      (cs : List ImageConversation)
      → NodupIds cs
      → member j (ids_of test cs) ≡ true
      → Found test j cs
  member-Found [] h m = absurd (ground (arith, m))
  member-Found (d ∷ ds) (fresh, h) m = elim (Bool-cases (d.id == j)) [
    | inl same ↦ elim (Bool-cases (test d)) [
      | inl holds ↦ (d, rw same refl, holds)
      | inr fails ↦
          let (c, found, _) = member-Found ds h (ground (arith, m, fails)) in
          absurd (
            ground (arith, found, fresh, ap (λ k. find_conversation k ds) ((eq_iff d.id j).0 same)))
    ]
    | inr other ↦ Found-cons d ds other (member-Found ds h (ground (arith, m, other)))
  ]

  Found-member :
      (cs : List ImageConversation) (c : ImageConversation)
      → find_conversation j cs ≡ some c
      → test c ≡ true
      → member j (ids_of test cs) ≡ true
  Found-member [] c found holds = absurd (ground (arith, found))
  Found-member (d ∷ ds) c found holds = ground (arith, Found-member ds c, found, holds)

find-any :
    (weak strong : ImageTurn → Bool)
    → ((turn : ImageTurn) → strong turn ≡ true → weak turn ≡ true)
    → (turns : List ImageTurn) → any strong turns ≡ true
    → (turn : ImageTurn) × (find weak turns ≡ some turn) × (weak turn ≡ true)
find-any weak strong h [] e = absurd (ground (arith, e))
find-any weak strong h (t ∷ ts) e = elim (Bool-cases (weak t)) [
  | inl holds ↦ (t, rw holds refl, holds)
  | inr fails ↦
      let (turn, found, at) = find-any weak strong h ts (ground (arith, e, h t, fails)) in
      (turn, rw fails found, at)
]

-- A run of the conversation begins on the page, at a turn of it that waits.
abbrev pub Begins : Text → Page → Type 0
Begins id page =
    (r : Run) × (next : Page) × (begin id page ≡ some (r, next))
    × (r.conversation_id ≡ id)
    × (needs_run r.turn ≡ true)

-- A conversation of the id is there, is not active, and passes the test on its turns.
abbrev pub IsWaiting : (ImageTurn → Bool) → Text → Page → Type 0
IsWaiting test id page =
    (c : ImageConversation) × (find_conversation id page.conversations ≡ some c)
    × (member id page.active ≡ false)
    × (any test c.turns ≡ true)

-- From one page to the next, runs are asked for: of all the conversations that wait, and of no other;
-- and each of these runs begins.
abbrev pub StartsWaiting : (ImageTurn → Bool) → Page → Page → Type 0
StartsWaiting test page next =
    (ids : List Text) × (next.effects ≡ page.effects ++ map (λ id. run id) ids)
    × ((id : Text)
        → (IsWaiting test id next → member id ids ≡ true)
          × (member id ids ≡ true → IsWaiting test id next × Begins id next))

waiting-Begins :
    (test : ImageTurn → Bool)
    → ((turn : ImageTurn) → test turn ≡ true → needs_run turn ≡ true)
    → (id : Text) (page : Page) → IsWaiting test id page
    → Begins id page
unfolding begin
waiting-Begins test weaker id page (c, found, idle, waits) =
    let (turn, first, at_work) = find-any needs_run test weaker c.turns waits in
    (
      record { conversation_id = id; turn = turn },
      record page { active = page.active ++ id ∷ [] },
      rw (idle, found, first, begin) refl,
      refl,
      at_work,
    )

-- What both do: ask for a run of each conversation of a list that is not active and passes the test.
abbrev is_waiting : (ImageTurn → Bool) → List Text → ImageConversation → Bool
is_waiting test active c = not (member c.id active) && any test c.turns

map-run_ids :
    (cs : List ImageConversation) → map (λ c. run c.id) cs ≡ map (λ id. run id) (map (λ c. c.id) cs)
map-run_ids [] = refl
map-run_ids (c ∷ cs) = ap (λ es. run c.id ∷ es) (map-run_ids cs)

module _ (test : ImageTurn → Bool)
    (weaker : (turn : ImageTurn) → test turn ≡ true → needs_run turn ≡ true) where
  starts-waiting :
      (page next : Page)
      → NodupIds next.conversations
      → next.effects
        ≡ page.effects
          ++ map (λ c. run c.id) (filter (is_waiting test next.active) next.conversations)
      → StartsWaiting test page next
  starts-waiting page next h added =
      let t = is_waiting test next.active in
      (
        ids_of t next.conversations,
        added ∙ ap (λ es. page.effects ++ es) (map-run_ids (filter t next.conversations)),
        λ id. (
          (λ (c, found, idle, waits). Found-member t id next.conversations c found (
              ground (
                arith,
                idle,
                waits,
                ap (λ k. member k next.active) (find-id id next.conversations found),
              ))),
          (λ m.
              let (c, found, holds) = member-Found t id next.conversations h m in
              let w : IsWaiting test id next = (
                c,
                found,
                ground (
                  arith,
                  holds,
                  ap (λ k. member k next.active) (find-id id next.conversations found),
                ),
                ground (arith, holds),
              ) in
              (w, waiting-Begins test weaker id next w)),
        ),
      )

module _ (host : Host) (page : Page) (h : IsOrderly host page) where
  shown-StartsWaiting :
      StartsWaiting (λ turn. not turn.results_deleted && needs_run turn) page (start_shown page)
  unfolding start_shown
  shown-StartsWaiting =
      let test = λ (turn : ImageTurn). not turn.results_deleted && needs_run turn in
      starts-waiting test (λ turn e. ground (arith, e)) page (start_shown page) h.nodup
        (ap (λ cs. page.effects ++ map (λ c. run c.id) (filter (is_waiting test page.active) cs))
          h.shown)

  finish-StartsWaiting : (r : Run) → StartsWaiting needs_run page (finish r page)
  unfolding finish
  finish-StartsWaiting r = starts-waiting needs_run (λ turn e. e) page (finish r page) h.nodup refl

  -- Every conversation that waits gets its run. The effect on the conversations that are shown asks
  -- for a run of each one that is not active and has a turn at work with an image that loads, its
  -- results not deleted; the end of a run does so for each one that is not active then and has a turn
  -- at work with an image that loads. Neither asks for another run, and each of these runs begins.
  pub run-StartsWaiting :
      StartsWaiting (λ turn. not turn.results_deleted && needs_run turn) page (start_shown page)
      × ((r : Run) → StartsWaiting needs_run page (finish r page))
  run-StartsWaiting = (shown-StartsWaiting, finish-StartsWaiting)
