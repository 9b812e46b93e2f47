-- ===== src/Queue/Schedule.antt =====
-- web/src/app/image/page.tsx, `runConversationQueue`: the runs that are under way at a time. A step is
-- the start of a run, the next piece of one, the end of one, or anything else that leaves the set of
-- active conversations alone, in any order.
use gpt2api_image.Base.{
  Text, ◌==◌, eq_iff, ◌≡◌, ◌≢◌, refl, sym, ap, ap₂, ◌∙◌, false, not, ◌&&◌, ◌||◌, some, List, [],
  ◌∷◌, ◌++◌, map, filter, All, find, Option-cases, Bool-cases, inl, inr, arith, some-eq,
}
use gpt2api_image.Base.Host.{Host}
use gpt2api_image.Conversation.Ordering.{find_conversation}
use gpt2api_image.Page.{Page, update_conversation}
use gpt2api_image.Page.Composer.Limits.{Distinct}
use gpt2api_image.Queue.{Event, Run, begin, finish, member, needs_run, perform, update_turn}
use gpt2api_image.Queue.Frame.{IsUpdate, perform-cases}

-- The runs that have begun and not ended, and the page that they share.
pub record World : Type 0 where
  pub runs : List Run
  pub page : Page

abbrev pub run_ids : List Run → List Text
run_ids = map (λ r. r.conversation_id)

abbrev without : Text → List Text → List Text
without id = filter (λ other. not (other == id))

module _ (host : Host) where
  pub data Step : World → World → Type 0 where
    begins :
        (id : Text) (w : World) (r : Run) (next : Page)
        → begin id w.page ≡ some (r, next)
        → Step w (record { runs = r ∷ w.runs; page = next })
    acts :
        (r : Run) (e : Event) (w : World)
        → Step w (record { runs = w.runs; page = perform host r e w.page })
    ends :
        (r : Run) (w : World)
        → Step w (record {
          runs = filter (λ s. not (s.conversation_id == r.conversation_id)) w.runs;
          page = finish r w.page;
        })
    handles :
        (w : World) (next : Page)
        → next.active ≡ w.page.active
        → Step w (record { runs = w.runs; page = next })

  pub data Reaches : World → World → Type 0 where
    here : (w : World) → Reaches w w
    then_step : {u v w : World} → Reaches u v → Step v w → Reaches u w

  -- No conversation has two runs, and those that have one are the active ones.
  pub record IsExclusive (w : World) : Type 0 where
    pub distinct : Distinct (run_ids w.runs)
    pub active : (id : Text) → member id w.page.active ≡ member id (run_ids w.runs)

  begin_lem :
      (id : Text) (page : Page) (r : Run) (next : Page)
      → begin id page ≡ some (r, next)
      → (member id page.active ≡ false)
        × (r.conversation_id ≡ id)
        × (next.active ≡ page.active ++ id ∷ [])
  unfolding begin
  begin_lem id page r next h = elim (Bool-cases (member id page.active)) [
    | inl active ↦ absurd (ground (arith, rw (active, begin) at h))
    | inr idle ↦ elim (Option-cases (find_conversation id page.conversations)) [
      | inl missing ↦ absurd (ground (arith, rw (idle, missing, begin) at h))
      | inr (c, found) ↦ elim (Option-cases (find needs_run c.turns)) [
        | inl no_turn ↦ absurd (ground (arith, rw (idle, found, no_turn, begin) at h))
        | inr (turn, at_work) ↦
            let e = some-eq (rw (idle, found, at_work, begin) at h) in
            (idle, ap (λ p. p.0.conversation_id) (sym e), ap (λ p. p.1.active) (sym e))
      ]
    ]
  ]

  member-append :
      (j id : Text) (xs : List Text) → member j (xs ++ id ∷ []) ≡ (id == j || member j xs)
  member-append j id [] = ground arith
  member-append j id (x ∷ xs) = ground (arith, member-append j id xs)

  not_member-All : (id : Text) (xs : List Text) → member id xs ≡ false → All (λ y. id ≢ y) xs
  not_member-All id [] h = tt
  not_member-All id (x ∷ xs) h =
      ((λ e. ground (arith, h, (eq_iff x id).1 (sym e))), not_member-All id xs (ground (arith, h)))

  member-without :
      (j id : Text) (xs : List Text) → member j (without id xs) ≡ (not (id == j) && member j xs)
  member-without j id [] = ground arith
  member-without j id (x ∷ xs) =
      ground (arith, member-without j id xs, eq_iff x id, eq_iff x j, eq_iff id j)

  run_ids-without :
      (id : Text) (rs : List Run)
      → run_ids (filter (λ s. not (s.conversation_id == id)) rs) ≡ without id (run_ids rs)
  run_ids-without id [] = refl
  run_ids-without id (r ∷ rs) = ground (arith, run_ids-without id rs)

  All-without :
      (x id : Text) (xs : List Text) → All (λ y. x ≢ y) xs → All (λ y. x ≢ y) (without id xs)
  All-without x id [] h = tt
  All-without x id (y ∷ ys) (h, hs) = elim (Bool-cases (y == id)) [
    | inl same ↦ rw same (All-without x id ys hs)
    | inr other ↦ rw other (h, All-without x id ys hs)
  ]

  Distinct-without : (id : Text) (xs : List Text) → Distinct xs → Distinct (without id xs)
  Distinct-without id [] h = tt
  Distinct-without id (x ∷ xs) (h, hs) = elim (Bool-cases (x == id)) [
    | inl same ↦ rw same (Distinct-without id xs hs)
    | inr other ↦ rw other (All-without x id xs h, Distinct-without id xs hs)
  ]

  active-update :
      (r : Run) (now : Text) (f : _) (page : Page)
      → (update_turn host r now f page).active ≡ page.active
  unfolding update_conversation
  active-update r now f page =
      elim (Option-cases (find_conversation r.conversation_id page.conversations)) [
        | inl missing ↦ rw (missing, update_conversation) refl
        | inr (c, found) ↦ rw (found, update_conversation) refl
      ]

  active-IsUpdate :
      (r : Run) (now : Text) (page middle : Page)
      → IsUpdate host r now page middle
      → middle.active ≡ page.active
  active-IsUpdate r now page middle (inl same) = ap (λ p. p.active) same
  active-IsUpdate r now page middle (inr (f, keeps, same)) =
      ap (λ p. p.active) same ∙ active-update r now f page

  active-perform :
      (r : Run) (e : Event) (page : Page) → (perform host r e page).active ≡ page.active
  active-perform r e page =
      let (middle, updated, (ts, _, same)) = perform-cases host r e page in
      ap (λ p. p.active) same ∙ active-IsUpdate r _ page middle updated

  IsExclusive-step : {v w : World} → IsExclusive v → Step v w → IsExclusive w
  IsExclusive-step h (begins id v r next started) =
      let (idle, same, added) = begin_lem id v.page r next started in
      record {
        distinct =
            (rw same (not_member-All id (run_ids v.runs) (sym (h.active id) ∙ idle)), h.distinct);
        active = λ j.
            ap (member j) added
            ∙ member-append j id v.page.active
            ∙ ap₂ (λ k b. k == j || b) (sym same) (h.active j);
      }
  IsExclusive-step h (acts r e v) = record {
    distinct = h.distinct;
    active = λ j. ap (member j) (active-perform r e v.page) ∙ h.active j;
  }
  IsExclusive-step h (ends r v) = record {
    distinct =
        rw (run_ids-without r.conversation_id v.runs)
          (Distinct-without r.conversation_id (run_ids v.runs) h.distinct);
    active = λ j.
        unfold finish in
        (member-without j r.conversation_id v.page.active
          ∙ ap (λ b. not (r.conversation_id == j) && b) (h.active j)
          ∙ sym (member-without j r.conversation_id (run_ids v.runs))
          ∙ ap (member j) (sym (run_ids-without r.conversation_id v.runs)));
  }
  IsExclusive-step h (handles v next same) = record {
    distinct = h.distinct;
    active = λ j. ap (member j) same ∙ h.active j;
  }

  -- In whatever order runs begin, act and end, and the handlers come between: no conversation ever has
  -- two runs, and the active conversations are those that have one.
  pub Reaches-IsExclusive : {v w : World} → IsExclusive v → Reaches v w → IsExclusive w
  Reaches-IsExclusive h (here v) = h
  Reaches-IsExclusive h (then_step before last) =
      IsExclusive-step (Reaches-IsExclusive h before) last
