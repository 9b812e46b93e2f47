-- ===== src/Accounts.antt =====
-- web/src/app/accounts/page.tsx: an account (web/src/lib/api.ts), and what the page says of it.
pub mod Table
pub mod Handlers
pub mod Events
pub mod Selected
pub mod Asked
use gpt2api_image.Base.{
  ℕ, zero, suc, ◌-◌, Text, text, ◌==◌, ◌or◌, ◌or?◌, truthy?, to_lower, Bool, true, false, not, ◌&&◌,
  ◌||◌, Option, none, some, List, [], ◌∷◌, ◌++◌, map, length, take, drop, leb, if◌then◌else◌,
}
use gpt2api_image.Base.Num.{ℤ, Num, num, lt_num, max_num, floor, le_ℤ}
use gpt2api_image.Base.Host.{Host}

-- 正常, 限流, 异常 and 禁用
pub data AccountStatus : Type 0 where
  normal limited abnormal disabled : AccountStatus

abbrev pub same_status : AccountStatus → AccountStatus → Bool
same_status normal normal = true
same_status limited limited = true
same_status abnormal abnormal = true
same_status disabled disabled = true
same_status _ _ = false

-- The fields that the page computes with. A flag that is absent is false, and a text that is null is
-- absent, as every reader takes them.
pub record Account : Type 0 where
  pub access_token : Text
  pub account_type : Text
  pub source_type : Option Text
  pub status : AccountStatus
  pub quota : Num
  pub initial_quota : Option Num
  pub image_quota_unknown : Bool
  pub upload_quota : Option Num
  pub upload_quota_unknown : Bool
  pub email : Option Text
  pub restore_at : Option Text
  pub rate_limit_reset_at : Option Text
  pub pending_delete : Bool

unfoldable pub is_unlimited_image_quota_account : Account → Bool
is_unlimited_image_quota_account account =
    account.account_type == text "pro" || account.account_type == text "prolite"

unfoldable pub is_usable_account : Account → Bool
unfolding lt_num
is_usable_account account =
    same_status account.status normal
    && not account.pending_delete
    && not account.image_quota_unknown
    && lt_num (num 0) account.quota

unfoldable pub format_quota : Host → Account → Text
unfolding is_unlimited_image_quota_account max_num
format_quota host account =
    if is_unlimited_image_quota_account account
    then text "∞"
    else if account.image_quota_unknown
    then text "未知"
    else host.show_num (max_num (num 0) account.quota)

unfoldable pub upload_quota_unknown : Account → Bool
upload_quota_unknown account =
    account.upload_quota_unknown || elim account.upload_quota [ none ↦ true | some n ↦ false ]

-- `a || b` of texts that may be absent
abbrev or_else : Option Text → Option Text → Option Text
or_else a b = if truthy? a then a else b

-- Whether the limit is still on at a time: a reset date that cannot be read counts as still on.
unfoldable pub has_active_limit_window : Host → ℤ → Account → Bool
unfolding le_ℤ
has_active_limit_window host now account =
    let reset_at = or_else account.rate_limit_reset_at account.restore_at in
    same_status account.status limited && elim reset_at [
      | none ↦ false
      | some at ↦
          if truthy? (some at)
          then elim (host.time_of at) [ none ↦ true | some time ↦ not (le_ℤ time now) ]
          else false
    ]

unfoldable pub is_upload_usable_account : Host → ℤ → Account → Bool
unfolding has_active_limit_window upload_quota_unknown
is_upload_usable_account host now account =
    not (same_status account.status abnormal)
    && not (same_status account.status disabled)
    && not account.pending_delete
    && not (has_active_limit_window host now account)
    && not (upload_quota_unknown account)

-- `value ?? 0`
abbrev or_zero : Option Num → Num
or_zero none = num 0
or_zero (some n) = n

unfoldable pub format_upload_quota : Host → Account → Text
unfolding upload_quota_unknown max_num floor
format_upload_quota host account =
    if upload_quota_unknown account
    then text "未知"
    else host.show_num (max_num (num 0) (floor (or_zero account.upload_quota)))

-- The first 16 and the last 8 units of a long token.
unfoldable pub mask_token : Option Text → Text
mask_token none = text "—"
mask_token (some []) = text "—"
mask_token (some (c ∷ s)) =
    let token : Text = c ∷ s in
    if leb (length token) 18
    then token
    else take 16 token ++ (text "..." ++ drop (length token - 8) token)

unfoldable pub display_account_type : Account → Text
display_account_type account = account.account_type or text "Free"

unfoldable pub display_account_source : Account → Text
unfolding to_lower
display_account_source account =
    if map to_lower (account.source_type or? text "web") == text "codex"
    then text "Codex"
    else text "Web"

unfoldable pub quota_upper_bound : Account → Num
unfolding max_num floor lt_num display_account_type
quota_upper_bound account =
    let initial = max_num (num 0) (floor (or_zero account.initial_quota)) in
    if lt_num (num 0) initial
    then initial
    else if display_account_type account == text "Plus"
    then num 50
    else num 25
