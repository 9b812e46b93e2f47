-- ===== src/Logs/Selected.antt =====
-- web/src/app/logs/page.tsx: which logs are selected, and what is deleted of them.
use gpt2api_image.Base.{
  ℕ, Text, ◌==◌, eq_refl, Bool, true, false, not, ◌||◌, Option, none, some, List, [], ◌∷◌, map,
  filter, any, contains, contains-filter, is_empty, ◌≡◌, refl, sym, arith, Bool-cases, inl, inr,
}
use gpt2api_image.Selection.{
  answered, failed, IsWithin, contains-chosen, has_key-map, retain-IsWithin, toggle-IsWithin,
  any-drop, head-IsWithin,
}
use gpt2api_image.Logs.{SystemLog, LogFilters, LogsCache, LogsPage, items_of, mount, current_logs}
use gpt2api_image.Paging.Whole.{current_rows-any}
use gpt2api_image.Logs.Handlers.{
  same_filters, delete_logs, id_of, load_logs, logs_loaded, set_items, choose_filters,
  clear_filters, toggle_ids, ask_selected, ask_row, confirm_delete, logs_deleted, open_detail,
  delete_finished, next_page, previous_page,
}
use gpt2api_image.Logs.Events

-- Only shown logs are selected, and the cache holds what is shown.
pub record IsConsistent (page : LogsPage) : Type 0 where
  pub selected_shown : IsWithin id_of page.items page.selected_ids
  pub cached_shown : page.items ≡ items_of page.cached_logs

kept :
    (page page' : LogsPage)
    → page'.items ≡ page.items
    → page'.cached_logs ≡ page.cached_logs
    → page'.selected_ids ≡ page.selected_ids
    → IsConsistent page
    → IsConsistent page'
kept page page' a b s c = record {
  selected_shown = rw (a, s) c.selected_shown;
  cached_shown = rw (a, b) c.cached_shown;
}

toggled :
    (ids : List Text) (checked : Bool) (page : LogsPage)
    → IsWithin id_of page.items ids
    → IsConsistent page
    → IsConsistent (toggle_ids ids checked page)
unfolding toggle_ids
toggled ids checked page own c = record {
  selected_shown =
      toggle-IsWithin id_of page.items ids checked page.selected_ids own c.selected_shown;
  cached_shown = c.cached_shown;
}

current_logs-any :
    (page : LogsPage) (p : SystemLog → Bool)
    → any p (current_logs page) ≡ true
    → any p page.items ≡ true
unfolding current_logs
current_logs-any page p h = current_rows-any p page.items page.page 10 h

on_row-IsConsistent :
    (row : Option SystemLog) (f : SystemLog → LogsPage) (page : LogsPage)
    → ((item : SystemLog) → row ≡ some item → IsConsistent (f item))
    → IsConsistent page
    → IsConsistent (Events.on_row row f page)
on_row-IsConsistent none f page h c = c
on_row-IsConsistent (some item) f page h c = h item refl

choose-IsConsistent :
    (filters : LogFilters) (page : LogsPage)
    → IsConsistent page
    → IsConsistent (choose_filters filters page).1
unfolding choose_filters load_logs
choose-IsConsistent filters page c = elim (Bool-cases (same_filters filters page.filters)) [
  | inl same ↦ rw same (kept page _ refl refl refl c)
  | inr other ↦ rw other (kept page _ refl refl refl c)
]

ask-IsConsistent : (page : LogsPage) → IsConsistent page → IsConsistent (ask_selected page)
unfolding ask_selected
ask-IsConsistent page c = elim (Bool-cases (is_empty page.selected_ids || page.is_deleting)) [
  | inl refused ↦ rw refused c
  | inr asked ↦ rw asked (kept page _ refl refl refl c)
]

confirm-IsConsistent : (page : LogsPage) → IsConsistent page → IsConsistent (confirm_delete page).1
unfolding confirm_delete
confirm-IsConsistent page c = elim (Bool-cases (is_empty (map id_of page.deleting_items))) [
  | inl refused ↦ rw refused c
  | inr asked ↦ rw asked (kept page _ refl refl refl c)
]

less-IsWithin :
    (items : List SystemLog) (p : Text → Bool) (selected : List Text)
    → IsWithin id_of items selected
    → IsWithin id_of items (filter p selected)
less-IsWithin items p selected own id h = ground (arith, h, own id, contains-filter id p selected)

step-IsConsistent :
    (event : Events.Event) (page : LogsPage)
    → IsConsistent page
    → IsConsistent (Events.step event page).1
unfolding Events.step load_logs logs_loaded clear_filters logs_deleted open_detail ask_row
    delete_finished next_page previous_page set_items
step-IsConsistent (Events.load true) page c = c
step-IsConsistent (Events.load false) page c = kept page _ refl refl refl c
step-IsConsistent (Events.loaded filters silent (answered items)) page c = record {
  selected_shown = retain-IsWithin id_of items page.selected_ids;
  cached_shown = refl;
}
step-IsConsistent (Events.loaded filters true (failed message)) page c = c
step-IsConsistent (Events.loaded filters false (failed message)) page c =
    kept page _ refl refl refl c
step-IsConsistent (Events.choose filters) page c = choose-IsConsistent filters page c
step-IsConsistent Events.clear page c = choose-IsConsistent _ page c
step-IsConsistent (Events.select_page checked) page c =
    toggled _ checked page
      (λ id e.
        current_logs-any page (λ item. item.id == id)
          (rw (has_key-map id_of id (current_logs page)) at e))
      c
step-IsConsistent (Events.select_all checked) page c =
    toggled _ checked page (λ id e. rw (has_key-map id_of id page.items) at e) c
step-IsConsistent (Events.select_at index checked) page c =
    on_row-IsConsistent (Events.row_at index page) _ page
      (λ item h.
        toggled _ checked page
          (λ id e.
            current_logs-any page (λ row. row.id == id)
              (any-drop (λ row. row.id == id) index (current_logs page)
                (head-IsWithin id_of _ item h id e)))
          c)
      c
step-IsConsistent Events.delete_selected page c = ask-IsConsistent page c
step-IsConsistent (Events.delete_row index) page c =
    on_row-IsConsistent (Events.row_at index page) _ page (λ item h. kept page _ refl refl refl c) c
step-IsConsistent (Events.open_row index) page c =
    on_row-IsConsistent (Events.row_at index page) _ page (λ item h. kept page _ refl refl refl c) c
step-IsConsistent Events.confirm page c = confirm-IsConsistent page c
step-IsConsistent (Events.deleted filters ids seen (answered removed)) page c = record {
  selected_shown = less-IsWithin page.items _ page.selected_ids c.selected_shown;
  cached_shown = c.cached_shown;
}
step-IsConsistent (Events.deleted filters ids seen (failed message)) page c =
    kept page _ refl refl refl c
step-IsConsistent event page c = kept page _ refl refl refl c

run_events-IsConsistent :
    (events : List Events.Event) (page : LogsPage)
    → IsConsistent page
    → IsConsistent (Events.run_events events page)
unfolding Events.run_events
run_events-IsConsistent [] page c = c
run_events-IsConsistent (event ∷ events) page c =
    run_events-IsConsistent events (Events.step event page).1 (step-IsConsistent event page c)

mount-IsConsistent : (cached : Option LogsCache) → IsConsistent (mount cached)
unfolding mount
mount-IsConsistent cached = record { selected_shown = λ id h. cc; cached_shown = refl }

-- The logs that are asked to be deleted are those that are selected.
asked-ids :
    (page : LogsPage)
    → IsConsistent page
    → (id : Text)
    → contains id (map id_of (filter (λ item. contains item.id page.selected_ids) page.items))
      ≡ contains id page.selected_ids
asked-ids page c id = ground (
  arith,
  contains-chosen id_of (λ k. contains k page.selected_ids) id page.items,
  c.selected_shown id,
)

ask_selected-eq :
    (page : LogsPage)
    → page.is_deleting ≡ false
    → is_empty page.selected_ids ≡ false
    → ask_selected page ≡ record page {
      deleting_items = filter (λ item. contains item.id page.selected_ids) page.items;
    }
unfolding ask_selected
ask_selected-eq page idle chosen = rw (chosen, idle) refl

some_ids :
    (ids selected : List Text)
    → ((id : Text) → contains id ids ≡ contains id selected)
    → is_empty selected ≡ false
    → is_empty ids ≡ false
some_ids [] [] same h = cc
some_ids [] (k ∷ selected) same h = absurd (ground (arith, same k, eq_refl k))
some_ids (id ∷ ids) selected same h = refl

none_selected :
    (k : Text) (ids selected : List Text)
    → ((id : Text) → contains id ids ≡ contains id selected)
    → contains k (filter (λ id. not (contains id ids)) selected) ≡ false
none_selected k ids selected same =
    ground (arith, contains-filter k (λ id. not (contains id ids)) selected, same k)

-- After any events on the page, in whatever order, only shown logs are selected and a remount shows the
-- same logs. If logs are selected and no deletion is under way, then asking to delete them and
-- confirming it sends the ids of just these, and after the answer none is selected.
pub confirm_delete-run_events :
    (events : List Events.Event) (cached : Option LogsCache)
    → let page = Events.run_events events (mount cached) in
      page.is_deleting ≡ false
      → is_empty page.selected_ids ≡ false
      → let asked = ask_selected page in
        let ids = map id_of asked.deleting_items in
        IsConsistent page
        × ((mount page.cached_logs).items ≡ page.items)
        × ((confirm_delete asked).0 ≡ delete_logs ids ∷ [])
        × ((id : Text) → contains id ids ≡ contains id page.selected_ids)
        × ((filters : LogFilters) (seen : Option SystemLog) (removed : ℕ) (id : Text)
            → contains id (logs_deleted filters ids seen (answered removed) asked).1.selected_ids
              ≡ false)
unfolding mount confirm_delete logs_deleted
confirm_delete-run_events events cached idle chosen =
    let page = Events.run_events events (mount cached) in
    let c : IsConsistent page =
      run_events-IsConsistent events (mount cached) (mount-IsConsistent cached) in
    let same = asked-ids page c in
    rw (ask_selected-eq page idle chosen) (
      c,
      sym c.cached_shown,
      rw (some_ids _ page.selected_ids same chosen) refl,
      same,
      λ filters seen removed id. none_selected id _ page.selected_ids same,
    )
