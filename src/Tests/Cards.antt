-- ===== src/Tests/Cards.antt =====
-- web/src/app/register/components/register-card.tsx at a few domains.
use gpt2api_image.Base.{to_lower, ◌==◌, text, true, false, ◌≡◌, refl, none, some, [], ◌∷◌, trim}
use gpt2api_image.Conversation.Raw.{is_truthy_value, string}
use gpt2api_image.Selection.{answered, failed}
use gpt2api_image.RegisterCard.{
  BlacklistResponse, BlacklistCard, shown_domains, blacklist_fetched, blacklist_saved,
  blacklist_cleared, read_domains, save_blacklist, may_save, replace_blacklist, has_yyds_provider,
}
use gpt2api_image.RegisterCard.Domains.{IsDomain, save_blacklist-blacklist_fetched}
use gpt2api_image.Tests.Data.{plain_host}

abbrev two_domains : BlacklistResponse
two_domains = record { items = none; manual_items = some (text "a.b" ∷ text "c.d" ∷ []) }

abbrev opened : BlacklistCard
opened = record { blacklist_text = []; is_blacklist_loading = true; toasts = [] }

typed_domains : read_domains plain_host (text " @A.b,,\n@@ , c.D ") ≡ text "a.b" ∷ text "c.d" ∷ []
unfolding read_domains to_lower
typed_domains = refl

yyds_among :
    has_yyds_provider plain_host (((text "type", string (text "yyds_mail")) ∷ []) ∷ []) ≡ true
unfolding has_yyds_provider ◌==◌ is_truthy_value
yyds_among = refl

ab-IsDomain : IsDomain plain_host (text "a.b")
unfolding trim to_lower
ab-IsDomain = record {
  item = (refl, refl);
  trimmed = refl;
  lower = refl;
  plain = refl;
  filled = refl;
}

cd-IsDomain : IsDomain plain_host (text "c.d")
unfolding trim to_lower
cd-IsDomain = record {
  item = (refl, refl);
  trimmed = refl;
  lower = refl;
  plain = refl;
  filled = refl;
}

save_blacklist-blacklist_fetched_example :
    let same = replace_blacklist (shown_domains two_domains) in
    let unknown = blacklist_fetched false (failed none) opened in
    ((save_blacklist plain_host (blacklist_fetched false (answered two_domains) opened)).0 ≡ same)
    × ((save_blacklist plain_host (blacklist_saved (answered two_domains) opened)).0 ≡ same)
    × ((save_blacklist plain_host (blacklist_cleared (answered two_domains) opened)).0 ≡ same)
    × (may_save false unknown ≡ true)
    × ((save_blacklist plain_host unknown).0 ≡ replace_blacklist [])
unfolding shown_domains
save_blacklist-blacklist_fetched_example =
    save_blacklist-blacklist_fetched plain_host opened two_domains none
      (ab-IsDomain, (cd-IsDomain, tt))
