-- ===== src/Imports/Sendable.antt =====
-- web/src/app/accounts/components/account-import-dialog.tsx: what an import sends.
use gpt2api_image.Base.{
  Text, trim, truthy, Bool, true, false, not, ◌&&◌, Option, none, some, List, [], ◌∷◌, map, filter,
  is_empty, contains, All, ◌≡◌, refl, arith, Bool-cases, inl, inr,
}
use gpt2api_image.Base.Trim.{trim_idem}
use gpt2api_image.Base.Host.{Host}
use gpt2api_image.Selection.{Toast}
use gpt2api_image.Imports.{
  Parsed, AccountSourceType, get_account_access_token, get_account_refresh_token,
  get_account_source_type,
}
use gpt2api_image.Imports.Dialog.{
  ImportDialog, Import, is_codex, or_source, show_toast, normalized_tokens, normalized_records,
  token_only, misses_refresh, submit_tokens,
}

All-filter {ℓ} : {A : Type ℓ} (p : A → Bool) (xs : List A) → All (λ x. p x ≡ true) (filter p xs)
All-filter p [] = tt
All-filter p (x ∷ xs) = elim (Bool-cases (p x)) [
  | inl yes' ↦ rw yes' (yes', All-filter p xs)
  | inr no' ↦ rw no' (All-filter p xs)
]

-- A filter that leaves nothing tests false everywhere.
none_left {ℓ} :
    {A : Type ℓ} (p : A → Bool) (xs : List A)
    → is_empty (filter p xs) ≡ true
    → All (λ x. p x ≡ false) xs
none_left p [] h = tt
none_left p (x ∷ xs) h = elim (Bool-cases (p x)) [
  | inl yes' ↦ absurd (ground (arith, rw yes' at h))
  | inr no' ↦ (no', none_left p xs (rw no' at h))
]

abbrev IsToken : Text → Type 0
IsToken item = (trim item ≡ item) × (truthy item ≡ true)

normalized_tokens-IsToken : (tokens : List Text) → All IsToken (normalized_tokens tokens)
unfolding normalized_tokens
normalized_tokens-IsToken [] = tt
normalized_tokens-IsToken (item ∷ tokens) = elim (Bool-cases (truthy (trim item))) [
  | inl filled ↦ rw filled ((trim_idem item, filled), normalized_tokens-IsToken tokens)
  | inr bare ↦ rw bare (normalized_tokens-IsToken tokens)
]

-- What may be sent: something; trimmed tokens that are not empty; records that have an access token; under
-- the Codex source only tokens that a record has; and no record of the Codex source, be it its own or
-- the chosen one, without a refresh token.
pub record IsSendable (host : Host) (sent : Import) : Type 0 where
  pub filled : (is_empty sent.tokens && is_empty sent.records) ≡ false
  pub trimmed : All IsToken sent.tokens
  pub named : All (λ item. truthy (get_account_access_token item) ≡ true) sent.records
  pub recorded :
      is_codex sent.source_type ≡ true
      → All (λ item. contains item (map get_account_access_token sent.records) ≡ true) sent.tokens
  pub refreshable :
      All
        (λ item.
          (is_codex (or_source (get_account_source_type host item) sent.source_type)
            && not (truthy (get_account_refresh_token item)))
          ≡ false)
        sent.records

All-true :
    (p : Text → Bool) (xs : List Text) → All (λ x. not (p x) ≡ false) xs → All (λ x. p x ≡ true) xs
All-true p [] h = tt
All-true p (x ∷ xs) (first, rest) = (ground (arith, first), All-true p xs rest)

abbrev pub Submits : Host → ImportDialog → Option Import × ImportDialog → Type 0
Submits host dialog (none, after) = (toast : Toast) × (after ≡ show_toast toast dialog)
Submits host dialog (some sent, after) =
    IsSendable host sent × (after ≡ record dialog { is_submitting = true })

module _ (host : Host) (tokens : List Text) (override : Option AccountSourceType)
    (account_records : List Parsed) (dialog : ImportDialog) where
  given : List Text
  given = normalized_tokens tokens

  records : List Parsed
  records = normalized_records account_records

  source : AccountSourceType
  source = or_source override dialog.source_type

  checked-IsSendable :
      (is_empty given && is_empty records) ≡ false
      → (is_codex source && not (is_empty (token_only given records))) ≡ false
      → not (is_empty (filter (misses_refresh host source) records)) ≡ false
      → IsSendable host (record { tokens = given; source_type = source; records = records })
  unfolding given records source normalized_records token_only misses_refresh
  checked-IsSendable some_given alone missing = record {
    filled = some_given;
    trimmed = normalized_tokens-IsToken tokens;
    named = All-filter (λ item. truthy (get_account_access_token item)) account_records;
    recorded = λ codex_source.
        All-true (λ item. contains item (map get_account_access_token records)) given
          (none_left _ given (ground (arith, alone, codex_source)));
    refreshable = none_left (misses_refresh host source) records (ground (arith, missing));
  }

  -- An import that the dialog asks for is either sent, and then can be sent, while the dialog waits, or it is
  -- refused with a toast and without another change.
  pub submit_tokens-IsSendable :
      Submits host dialog (submit_tokens host tokens override account_records dialog)
  unfolding submit_tokens given records source
  submit_tokens-IsSendable = elim (Bool-cases (is_empty given && is_empty records)) [
    | inl bare ↦ rw bare (_, refl)
    | inr filled ↦
        elim (Bool-cases (is_codex source && not (is_empty (token_only given records)))) [
          | inl alone ↦ rw (filled, alone) (_, refl)
          | inr recorded ↦
              elim (Bool-cases (not (is_empty (filter (misses_refresh host source) records)))) [
                | inl missing ↦ rw (filled, recorded, missing) (_, refl)
                | inr refreshable ↦
                    rw (filled, recorded, refreshable)
                      (checked-IsSendable filled recorded refreshable, refl)
              ]
        ]
  ]
