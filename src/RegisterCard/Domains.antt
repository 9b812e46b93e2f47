-- ===== src/RegisterCard/Domains.antt =====
-- web/src/app/register/components/register-card.tsx: the domains that are shown are read back from the text.
use gpt2api_image.Base.{
  Text, trim, truthy, Bool, true, false, List, [], ◌∷◌, ◌++◌, map, filter, eqb, join_lines, All,
  Option, ◌≡◌, refl, ap, ◌∙◌, arith, Bool-cases, inl, inr,
}
use gpt2api_image.Base.Host.{Host}
use gpt2api_image.Base.Trim.{has}
use gpt2api_image.Selection.{answered, failed}
use gpt2api_image.RegisterCard.{
  BlacklistResponse, BlacklistCard, shown_domains, blacklist_fetched, blacklist_saved,
  blacklist_cleared, split_domains, without_at, read_domains, save_blacklist, may_save,
  replace_blacklist,
}

abbrev pub starts_at : Text → Bool
starts_at [] = false
starts_at (c ∷ s) = eqb c 64

-- A text without a line break and a comma
abbrev IsItem : Text → Type 0
IsItem s = (has 10 s ≡ false) × (has 44 s ≡ false)

split_domains_item : (s : Text) → IsItem s → split_domains s ≡ s ∷ []
unfolding split_domains
split_domains_item [] h = refl
split_domains_item (c ∷ s) (no_break, no_comma) =
    let first : eqb c 10 ≡ false = ground (arith, no_break) in
    let second : eqb c 44 ≡ false = ground (arith, no_comma) in
    rw (split_domains_item s (ground (arith, no_break), ground (arith, no_comma)))
      (rw (first, second) refl)

split_domains_break : (s t : Text) → IsItem s → split_domains (s ++ 10 ∷ t) ≡ s ∷ split_domains t
unfolding split_domains
split_domains_break [] t h = refl
split_domains_break (c ∷ s) t (no_break, no_comma) =
    let first : eqb c 10 ≡ false = ground (arith, no_break) in
    let second : eqb c 44 ≡ false = ground (arith, no_comma) in
    rw (split_domains_break s t (ground (arith, no_break), ground (arith, no_comma)))
      (rw (first, second) refl)

without_at_idle : (s : Text) → starts_at s ≡ false → without_at s ≡ s
unfolding without_at
without_at_idle [] h = refl
without_at_idle (c ∷ s) h = rw h refl

starts_at-without_at : (s : Text) → starts_at (without_at s) ≡ false
unfolding without_at
starts_at-without_at [] = refl
starts_at-without_at (c ∷ s) = ground (arith, starts_at-without_at s)

module _ (host : Host) where
  -- A domain as the server keeps it: one line without a comma, nothing around it, in lower case, without an
  -- at sign in front, and not empty.
  pub record IsDomain (s : Text) : Type 0 where
    pub item : IsItem s
    pub trimmed : trim s ≡ s
    pub lower : host.lower_case s ≡ s
    pub plain : starts_at s ≡ false
    pub filled : truthy s ≡ true

  abbrev read_item : Text → Text
  read_item item = without_at (host.lower_case (trim item))

  read_item_idle : (s : Text) → IsDomain s → read_item s ≡ s
  read_item_idle s d =
      ap (λ t. without_at (host.lower_case t)) d.trimmed
      ∙ ap without_at d.lower
      ∙ without_at_idle s d.plain

  read_first :
      (s : Text) (items : List Text)
      → IsDomain s
      → filter truthy (map read_item (s ∷ items)) ≡ s ∷ filter truthy (map read_item items)
  read_first s items d =
      ap (λ t. filter truthy (t ∷ map read_item items)) (read_item_idle s d) ∙ rw (d.filled) refl

  read_domains-join_lines :
      (domains : List Text)
      → All IsDomain domains
      → read_domains host (join_lines domains) ≡ domains
  unfolding read_domains split_domains without_at trim
  read_domains-join_lines [] h = ap (λ t. filter truthy (without_at t ∷ [])) host.lower_case_empty
  read_domains-join_lines (s ∷ []) (first, rest) =
      ap (λ items. filter truthy (map read_item items)) (split_domains_item s first.item)
      ∙ read_first s [] first
  read_domains-join_lines (s ∷ next ∷ domains) (first, rest) =
      ap (λ items. filter truthy (map read_item items))
        (split_domains_break s (join_lines (next ∷ domains)) first.item)
      ∙ read_first s (split_domains (join_lines (next ∷ domains))) first
      ∙ ap (λ l. s ∷ l) (read_domains-join_lines (next ∷ domains) rest)

  -- Not empty, and no at sign in front
  abbrev IsNamed : Text → Type 0
  IsNamed s = (truthy s ≡ true) × (starts_at s ≡ false)

  items-IsNamed : (items : List Text) → All IsNamed (filter truthy (map read_item items))
  items-IsNamed [] = tt
  items-IsNamed (item ∷ items) = elim (Bool-cases (truthy (read_item item))) [
    | inl filled ↦
        rw filled
          ((filled, starts_at-without_at (host.lower_case (trim item))), items-IsNamed items)
    | inr bare ↦ rw bare (items-IsNamed items)
  ]

  -- What is sent has no empty domain and none with an at sign in front.
  read_domains-IsNamed : (s : Text) → All IsNamed (read_domains host s)
  unfolding read_domains
  read_domains-IsNamed s = items-IsNamed (split_domains s)

-- If the domains that the server answers with are as it keeps them, to save the text that is shown after a
-- load, a save or a clearing sends just these domains. After a load that failed the save is allowed, and
-- sends no domain.
pub save_blacklist-blacklist_fetched :
    (host : Host) (card : BlacklistCard) (response : BlacklistResponse) (message : Option Text)
    → All (IsDomain host) (shown_domains response)
    → let same = replace_blacklist (shown_domains response) in
      let unknown = blacklist_fetched false (failed message) card in
      ((save_blacklist host (blacklist_fetched false (answered response) card)).0 ≡ same)
      × ((save_blacklist host (blacklist_saved (answered response) card)).0 ≡ same)
      × ((save_blacklist host (blacklist_cleared (answered response) card)).0 ≡ same)
      × (may_save false unknown ≡ true)
      × ((save_blacklist host unknown).0 ≡ replace_blacklist [])
unfolding save_blacklist blacklist_fetched blacklist_saved blacklist_cleared may_save
save_blacklist-blacklist_fetched host card response message h =
    let same = ap replace_blacklist (read_domains-join_lines host (shown_domains response) h) in
    (same, same, same, refl, ap replace_blacklist (read_domains-join_lines host [] tt))
