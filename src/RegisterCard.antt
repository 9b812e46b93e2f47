-- ===== src/RegisterCard.antt =====
-- web/src/app/register/components/register-card.tsx: the card of the registration: the list of the domains that
-- are not to be used, and the type of a mail provider. The functions are cut at their requests.
pub mod Domains
use gpt2api_image.Base.{
  ℕ, Text, text, ◌==◌, trim, truthy, Bool, true, false, not, ◌&&◌, ◌||◌, Option, none, some, List,
  [], ◌∷◌, ◌++◌, map, filter, any, eqb, lookup, join_lines, is_empty, if◌then◌else◌,
}
use gpt2api_image.Base.Host.{Host}
use gpt2api_image.Conversation.Raw.{Value, undefined, boolean, string, object, to_text}
use gpt2api_image.Selection.{Outcome, answered, failed, message_of, Toast, success, error}
use gpt2api_image.Imports.{add_to_first}
use gpt2api_image.Register.{Provider, or_truthy}
use gpt2api_image.Registration.{RegisterStore}
use gpt2api_image.Registration.Setters.{update_register_provider}

-- The part of `YYDSDomainBlacklistResponse` that is read.
pub record BlacklistResponse : Type 0 where
  pub items : Option (List Text)
  pub manual_items : Option (List Text)

pub record BlacklistCard : Type 0 where
  pub blacklist_text : Text
  pub is_blacklist_loading : Bool
  pub toasts : List Toast

pub data Request : Type 0 where
  fetch_blacklist reset_blacklist : Request
  replace_blacklist : List Text → Request

-- `data.manual_items || data.items || []`
unfoldable pub shown_domains : BlacklistResponse → List Text
shown_domains response = elim response.manual_items [
  | some domains ↦ domains
  | none ↦ elim response.items [ none ↦ [] | some domains ↦ domains ]
]

module _ (host : Host) where
  abbrev entry_of : Option Value → Value
  entry_of none = undefined
  entry_of (some value) = value

  -- `String(provider.type || "") === "yyds_mail"`
  unfoldable pub is_yyds_provider : Provider → Bool
  unfolding to_text lookup
  is_yyds_provider provider =
      to_text host (or_truthy (entry_of (lookup (text "type") provider)) (string []))
      == text "yyds_mail"

  -- `hasYYDSProvider`; the providers of a configuration without any are the empty list.
  unfoldable pub has_yyds_provider : List Provider → Bool
  unfolding is_yyds_provider
  has_yyds_provider providers = any is_yyds_provider providers

-- The effect that runs when `hasYYDSProvider` changes
unfoldable pub provider_changed : Bool → BlacklistCard → Option Request × BlacklistCard
provider_changed false card =
    (none, record card { blacklist_text = []; is_blacklist_loading = false })
provider_changed true card = (some fetch_blacklist, record card { is_blacklist_loading = true })

-- What it does with the answer, unless the effect has run again by then
unfoldable pub blacklist_fetched : Bool → Outcome BlacklistResponse → BlacklistCard → BlacklistCard
unfolding shown_domains
blacklist_fetched true outcome card = card
blacklist_fetched false (answered response) card = record card {
  blacklist_text = join_lines (shown_domains response);
  is_blacklist_loading = false;
}
blacklist_fetched false (failed message) card = record card {
  blacklist_text = [];
  is_blacklist_loading = false;
}

-- `text.split(/[\n,]/)`
unfoldable pub split_domains : Text → List Text
split_domains [] = [] ∷ []
split_domains (c ∷ s) =
    let items = split_domains s in if eqb c 10 || eqb c 44 then [] ∷ items else add_to_first c items

-- `s.replace(/^@+/, "")`
unfoldable pub without_at : Text → Text
without_at [] = []
without_at (c ∷ s) = let rest = without_at s in if eqb c 64 then rest else c ∷ s

unfoldable pub read_domains : Host → Text → List Text
unfolding split_domains without_at trim
read_domains host s =
    filter truthy (map (λ item. without_at (host.lower_case (trim item))) (split_domains s))

unfoldable pub save_blacklist : Host → BlacklistCard → Request × BlacklistCard
unfolding read_domains
save_blacklist host card = (
  replace_blacklist (read_domains host card.blacklist_text),
  record card { is_blacklist_loading = true },
)

unfoldable pub clear_blacklist : BlacklistCard → Request × BlacklistCard
clear_blacklist card = (reset_blacklist, record card { is_blacklist_loading = true })

-- What both do with their answers, with the texts of the toasts
abbrev blacklist_answered : Text → Text → Outcome BlacklistResponse → BlacklistCard → BlacklistCard
blacklist_answered done fallback (answered response) card = record card {
  blacklist_text = join_lines (shown_domains response);
  is_blacklist_loading = false;
  toasts = card.toasts ++ success done ∷ [];
}
blacklist_answered done fallback (failed message) card = record card {
  is_blacklist_loading = false;
  toasts = card.toasts ++ error (message_of message fallback) ∷ [];
}

unfoldable pub blacklist_saved : Outcome BlacklistResponse → BlacklistCard → BlacklistCard
unfolding shown_domains
blacklist_saved = blacklist_answered (text "yyds 禁用域名已保存") (text "保存 yyds 禁用域名失败")

unfoldable pub blacklist_cleared : Outcome BlacklistResponse → BlacklistCard → BlacklistCard
unfolding shown_domains
blacklist_cleared = blacklist_answered (text "yyds 禁用域名已清空") (text "清空 yyds 禁用域名失败")

-- The conditions of the two buttons, with whether a registration is active
unfoldable pub may_save : Bool → BlacklistCard → Bool
may_save is_task_active card = not (is_task_active || card.is_blacklist_loading)

unfoldable pub may_clear : Bool → BlacklistCard → Bool
unfolding trim
may_clear is_task_active card =
    not (is_task_active || card.is_blacklist_loading || not (truthy (trim card.blacklist_text)))

abbrev entry : Text → Value → Text × Value
entry key value = (key, value)

abbrev empty : Text → Text × Value
empty key = (key, string [])

-- What a provider of a type starts with
unfoldable pub type_defaults : Text → Provider
type_defaults type =
    let no_domain : Text × Value = (text "domain", object []) in
    if type == text "cloudflare_temp_email"
    then empty (text "api_base") ∷ empty (text "admin_password") ∷ no_domain ∷ []
    else if type == text "tempmail_lol"
    then empty (text "api_key") ∷ no_domain ∷ []
    else if type == text "moemail"
    then empty (text "api_base") ∷ empty (text "api_key") ∷ no_domain ∷ []
    else if type == text "inbucket"
    then empty (text "api_base") ∷ no_domain ∷ entry (text "random_subdomain") (boolean true) ∷ []
    else if type == text "duckmail"
    then empty (text "api_key") ∷ entry (text "default_domain") (string (text "duckmail.sbs")) ∷ []
    else if type == text "gptmail"
    then empty (text "api_key") ∷ empty (text "default_domain") ∷ []
    else if type == text "yyds_mail"
    then entry (text "api_base") (string (text "https://maliapi.215.im/v1"))
      ∷ empty (text "api_key")
      ∷ no_domain
      ∷ empty (text "subdomain")
      ∷ entry (text "wildcard") (boolean false)
      ∷ []
    else if type == text "cloudmail"
    then empty (text "api_base")
      ∷ empty (text "admin_email")
      ∷ empty (text "admin_password")
      ∷ no_domain
      ∷ []
    else if type == text "outlook_token"
    then empty (text "mailboxes")
      ∷ entry (text "mode") (string (text "auto"))
      ∷ entry (text "imap_host") (string (text "outlook.office365.com"))
      ∷ []
    else []

unfoldable pub update_provider_type : ℕ → Text → RegisterStore → RegisterStore
unfolding type_defaults update_register_provider
update_provider_type index type =
    update_register_provider index (
      entry (text "type") (string type) ∷ entry (text "enable") (boolean true) ∷ type_defaults type)
