-- ===== src/Imports/Reading.antt =====
-- web/src/app/accounts/components/account-import-dialog.tsx: the tokens that a text file adds to the input
-- are read back from it.
use gpt2api_image.Base.{
  join_lines, ℕ, Text, trim, truthy, Bool, true, false, ◌&&◌, List, [], ◌∷◌, ◌++◌, map, filter,
  is_empty, All, All-append, ◌≡◌, refl, sym, subst, ap, ◌∙◌, arith, Bool-cases, inl, inr, eqb,
  append_nil, Option, none, some, ◌||◌, ap₂, if◌then◌else◌,
}
use gpt2api_image.Base.Host.{Host}
use gpt2api_image.Base.Trim.{trim_idem, has, has-trim}
use gpt2api_image.Selection.{answered}
use gpt2api_image.Imports.{AccountSourceType, split_breaks, breaks_next, split_tokens}
use gpt2api_image.Imports.Lines.{first_unit, split_breaks-Lines, split_tokens-append}
use gpt2api_image.Imports.Dialog.{
  ImportDialog, Import, is_codex, token_only, submit_tokens, normalized_records, normalized_tokens,
}
use gpt2api_image.Imports.Handlers.{handle_txt_selected, handle_import_token_text}

-- A token without a break, without white space around it, and not empty.
abbrev IsLine : Text → Type 0
IsLine s = (has 10 s ≡ false) × (trim s ≡ s) × (truthy s ≡ true)

abbrev Unbroken : List Text → Type 0
Unbroken = All (λ s. has 10 s ≡ false)

first_unit-Unbroken :
    (c : ℕ) (next : Bool) (line : Text) (more : List Text)
    → Unbroken (line ∷ more)
    → Unbroken (first_unit c next (line ∷ more))
first_unit-Unbroken c next line more (first, rest) = elim (Bool-cases (eqb c 10)) [
  | inl feed ↦ rw feed (refl, (first, rest))
  | inr other ↦ elim (Bool-cases (eqb c 13 && next)) [
    | inl return ↦ rw (other, return) (first, rest)
    | inr plain ↦ rw (other, plain) (ground (arith, other, first), rest)
  ]
]

split_breaks-Unbroken : (s : Text) → Unbroken (split_breaks s)
unfolding split_breaks
split_breaks-Unbroken [] = (refl, tt)
split_breaks-Unbroken (c ∷ s) =
    let (line, more, e) = split_breaks-Lines s in
    subst (λ lines. Unbroken (first_unit c (breaks_next s) lines)) (sym e)
      (first_unit-Unbroken c (breaks_next s) line more (subst Unbroken e (split_breaks-Unbroken s)))

tokens-IsLine : (lines : List Text) → Unbroken lines → All IsLine (filter truthy (map trim lines))
tokens-IsLine [] h = tt
tokens-IsLine (line ∷ lines) (first, rest) = elim (Bool-cases (truthy (trim line))) [
  | inl filled ↦
      rw filled ((has-trim 10 line first, trim_idem line, filled), tokens-IsLine lines rest)
  | inr bare ↦ rw bare (tokens-IsLine lines rest)
]

split_tokens-IsLine : (s : Text) → All IsLine (split_tokens s)
unfolding split_tokens
split_tokens-IsLine s = tokens-IsLine (split_breaks s) (split_breaks-Unbroken s)

starts_unbroken : (s : Text) → has 10 s ≡ false → breaks_next s ≡ false
starts_unbroken [] h = refl
starts_unbroken (c ∷ s) h = ground (arith, h)

split_breaks_line : (s : Text) → has 10 s ≡ false → split_breaks s ≡ s ∷ []
unfolding split_breaks
split_breaks_line [] h = refl
split_breaks_line (c ∷ s) h =
    let later : has 10 s ≡ false = ground (arith, h) in
    let plain : eqb c 10 ≡ false = ground (arith, h) in
    let next : breaks_next s ≡ false = starts_unbroken s later in
    ap (first_unit c (breaks_next s)) (split_breaks_line s later)
    ∙ ap (λ b. first_unit c b (s ∷ [])) next
    ∙ rw plain (ground (arith, h))

split_tokens_line : (s : Text) → IsLine s → split_tokens s ≡ s ∷ []
unfolding split_tokens
split_tokens_line s (unbroken, trimmed, filled) =
    ap (λ lines. filter truthy (map trim lines)) (split_breaks_line s unbroken)
    ∙ ap (λ t. filter truthy (t ∷ [])) trimmed
    ∙ rw filled refl

split_tokens-join_lines :
    (tokens : List Text) → All IsLine tokens → split_tokens (join_lines tokens) ≡ tokens
unfolding split_tokens
split_tokens-join_lines [] h = refl
split_tokens-join_lines (token ∷ []) (first, rest) = split_tokens_line token first
split_tokens-join_lines (token ∷ next ∷ tokens) (first, rest) =
    split_tokens-append token (join_lines (next ∷ tokens))
    ∙ ap (λ l. l ++ split_tokens (join_lines (next ∷ tokens))) (split_tokens_line token first)
    ∙ ap (λ l. token ∷ l) (split_tokens-join_lines (next ∷ tokens) rest)

normalized_tokens_lines :
    (tokens : List Text) → All IsLine tokens → normalized_tokens tokens ≡ tokens
unfolding normalized_tokens
normalized_tokens_lines [] h = refl
normalized_tokens_lines (token ∷ tokens) ((unbroken, trimmed, filled), rest) =
    ap (λ t. filter truthy (t ∷ map trim tokens)) trimmed
    ∙ rw filled (ap (λ l. token ∷ l) (normalized_tokens_lines tokens rest))

none_there : (xs : List Text) → is_empty xs ≡ true → xs ≡ []
none_there [] h = refl
none_there (x ∷ xs) h = cc

none_recorded : (tokens : List Text) → token_only tokens [] ≡ tokens
unfolding token_only
none_recorded [] = refl
none_recorded (token ∷ tokens) = ap (λ l. token ∷ l) (none_recorded tokens)

-- What the input is imported as, without account records
abbrev pub import_of : AccountSourceType → List Text → Option Import
import_of source tokens =
    if is_empty tokens || is_codex source
    then none
    else some (record { tokens = tokens; source_type = source; records = [] })

submit_tokens-lines :
    (host : Host) (tokens : List Text) (dialog : ImportDialog)
    → normalized_tokens tokens ≡ tokens
    → (submit_tokens host tokens none [] dialog).0 ≡ import_of dialog.source_type tokens
unfolding submit_tokens normalized_records
submit_tokens-lines host tokens dialog h = rw h (
    rw (none_recorded tokens) (elim (Bool-cases (is_empty tokens)) [
      | inl bare ↦ rw bare refl
      | inr filled ↦ elim (Bool-cases (is_codex dialog.source_type)) [
        | inl codex_source ↦ rw (filled, codex_source) refl
        | inr web_source ↦ rw (filled, web_source) refl
      ]
    ]))

source-handle_txt_selected :
    (name content : Text) (dialog : ImportDialog)
    → (handle_txt_selected name (answered content) dialog).source_type ≡ dialog.source_type
unfolding handle_txt_selected
source-handle_txt_selected name content dialog =
    elim (Bool-cases (is_empty (split_tokens content))) [
      | inl bare ↦ rw bare refl
      | inr filled ↦ rw filled refl
    ]

tokens-handle_txt_selected :
    (name content : Text) (dialog : ImportDialog)
    → split_tokens (handle_txt_selected name (answered content) dialog).token_input
      ≡ split_tokens dialog.token_input ++ split_tokens content
unfolding handle_txt_selected
tokens-handle_txt_selected name content dialog =
    elim (Bool-cases (is_empty (split_tokens content))) [
      | inl bare ↦ rw bare (
          sym (append_nil (split_tokens dialog.token_input))
          ∙ ap (λ l. split_tokens dialog.token_input ++ l) (sym (none_there _ bare)))
      | inr filled ↦ rw filled (
          split_tokens-join_lines (split_tokens dialog.token_input ++ split_tokens content) (
            All-append IsLine _ _ (split_tokens-IsLine dialog.token_input)
              (split_tokens-IsLine content)))
    ]

-- After a text file was chosen, the input reads as the tokens that it held and then those of the file. An
-- import of the input then sends just these, unless there are none or the source is Codex, for which an
-- import of the input alone sends nothing.
pub split_tokens-handle_txt_selected :
    (host : Host) (name content : Text) (dialog : ImportDialog)
    → let chosen = handle_txt_selected name (answered content) dialog in
      let tokens = split_tokens dialog.token_input ++ split_tokens content in
      (split_tokens chosen.token_input ≡ tokens)
      × ((handle_import_token_text host chosen).0 ≡ import_of dialog.source_type tokens)
unfolding handle_import_token_text
split_tokens-handle_txt_selected host name content dialog =
    let chosen = handle_txt_selected name (answered content) dialog in
    let read = tokens-handle_txt_selected name content dialog in
    (
      read,
      submit_tokens-lines host (split_tokens chosen.token_input) chosen
            (normalized_tokens_lines _ (split_tokens-IsLine chosen.token_input))
          ∙ ap₂ import_of (source-handle_txt_selected name content dialog) read,
    )
