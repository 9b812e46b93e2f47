-- ===== src/Imports.antt =====
-- web/src/app/accounts/components/account-import-dialog.tsx: what is read from the text and the JSON that
-- the user gives.
pub mod Dialog
pub mod Handlers
pub mod Sendable
pub mod Lines
pub mod Reading
use gpt2api_image.Base.{
  ℕ, zero, suc, Text, text, ◌==◌, trim, truthy, Bool, true, false, ◌&&◌, ◌||◌, Option, none, some,
  List, [], ◌∷◌, ◌++◌, map, filter, head, eqb, if◌then◌else◌,
}
use gpt2api_image.Base.Host.{Host}
use gpt2api_image.Conversation.Raw.{
  Value, undefined, null, boolean, number, string, object, to_text,
}

abbrev pub add_to_first : ℕ → List Text → List Text
add_to_first c [] = (c ∷ []) ∷ []
add_to_first c (line ∷ lines) = (c ∷ line) ∷ lines

abbrev breaks_next : Text → Bool
breaks_next [] = false
breaks_next (c ∷ s) = eqb c 10

-- `value.split(/\r?\n/)`: a carriage return before a line feed belongs to the break.
unfoldable pub split_breaks : Text → List Text
split_breaks [] = [] ∷ []
split_breaks (c ∷ s) =
    let lines = split_breaks s in
    if eqb c 10
    then [] ∷ lines
    else if eqb c 13 && breaks_next s
    then lines
    else add_to_first c lines

unfoldable pub split_tokens : Text → List Text
unfolding split_breaks trim
split_tokens value = filter truthy (map trim (split_breaks value))

-- What `JSON.parse` gives: an object or an array by the values of its properties, which are `undefined`
-- where there is none, or anything else.
pub data Parsed : Type 0 where
  fields : (Text → Value) → Parsed
  primitive : Value → Parsed

-- `payload?.key`
abbrev pub property : Text → Parsed → Value
property key (fields f) = f key
property key (primitive value) = undefined

-- `a ?? b`
abbrev pub value_or : Value → Value → Value
value_or undefined b = b
value_or null b = b
value_or a b = a

-- `typeof token === "string" ? token.trim() : ""`
abbrev trimmed_text : Value → Text
trimmed_text (string s) = trim s
trimmed_text _ = []

unfoldable pub get_session_access_token : Parsed → Text
unfolding trim
get_session_access_token value = trimmed_text (property (text "accessToken") value)

unfoldable pub get_account_access_token : Parsed → Text
unfolding trim
get_account_access_token value =
    trimmed_text
      (value_or (property (text "access_token") value) (property (text "accessToken") value))

unfoldable pub get_account_refresh_token : Parsed → Text
unfolding trim
get_account_refresh_token value =
    trimmed_text
      (value_or (property (text "refresh_token") value) (property (text "refreshToken") value))

pub data AccountSourceType : Type 0 where
  web codex : AccountSourceType

-- `none` is the empty text.
unfoldable pub get_account_source_type : Host → Parsed → Option AccountSourceType
unfolding to_text trim
get_account_source_type host value =
    let given =
      value_or (property (text "source_type") value)
        (value_or (property (text "sourceType") value) (string [])) in
    let source = trim (host.lower_case (to_text host given)) in
    if source == text "web" then some web else if source == text "codex" then some codex else none
