-- ===== src/Page/Inputs.antt =====
-- web/src/app/image/page.tsx: the handlers that fill the composer, and the quota that bounds it. The
-- quotas of the server are integers. A file and its preview are one reference image, and what comes of
-- reading files is an argument.
pub mod Allowance
pub mod Reply
use gpt2api_image.Base.{
  remove_at, ℕ, zero, suc, ◌+◌, Text, text, ◌==◌, truthy, trim, Bool, true, false, not, ◌&&◌, ◌||◌,
  Option, none, some, List, [], ◌∷◌, ◌++◌, is_empty, if◌then◌else◌,
}
use gpt2api_image.Base.Num.{ℤ, pos, negsuc, fin, le_ℤ, sub_ℤ}
use gpt2api_image.Base.Host.{Host}
use gpt2api_image.Conversation.{ReferenceImage, ImageTurn}
use gpt2api_image.Conversation.Ordering.{find_conversation}
use gpt2api_image.Auth.{AuthRole}
use gpt2api_image.Page.{Page, toast, emit, find_turn, is_high_resolution}
use gpt2api_image.Page.Composer.{regenerated_count}

-- One of the three limits of `AuthIdentity`; `none` is `null` or absent.
pub record Limit : Type 0 where
  pub unlimited : Bool
  pub remaining : Option ℤ
  pub quota : ℤ
  pub used : ℤ

-- What `loadQuota` reads of `AuthIdentity`; a flag that is absent is `false`.
pub record Identity : Type 0 where
  pub role : AuthRole
  pub account_tier : Option Text
  pub can_use_paid_image_accounts : Bool
  pub can_use_high_resolution : Bool
  pub daily : Limit
  pub monthly : Limit
  pub total : Limit

abbrev is_admin : AuthRole → Bool
is_admin AuthRole.admin = true
is_admin AuthRole.user = false

abbrev is_premium : Option Text → Bool
is_premium none = false
is_premium (some tier) = tier == text "premium"

abbrev pub min_ℤ : ℤ → ℤ → ℤ
min_ℤ a b = if le_ℤ a b then a else b

-- `Math.max(0, a)`
abbrev at_least_zero : ℤ → ℤ
at_least_zero (pos n) = pos n
at_least_zero (negsuc n) = pos 0

abbrev pub or_rest : Option ℤ → ℤ → ℤ
or_rest none rest = rest
or_rest (some n) rest = n

-- `limit.remaining ?? Math.max(0, limit.quota - limit.used)`
unfoldable pub remaining_of : Limit → ℤ
unfolding sub_ℤ
remaining_of limit = or_rest limit.remaining (at_least_zero (sub_ℤ limit.quota limit.used))

abbrev candidate : Limit → List ℤ → List ℤ
candidate limit rest = if limit.unlimited then rest else remaining_of limit ∷ rest

abbrev pub candidates : Identity → List ℤ
candidates identity =
    candidate identity.daily (candidate identity.monthly (candidate identity.total []))

-- `Math.min(...candidates)` of at least one candidate
abbrev pub least : ℤ → List ℤ → ℤ
least n [] = n
least n (m ∷ ms) = min_ℤ n (least m ms)

abbrev pub quota_text : Host → List ℤ → Text
quota_text host [] = text "∞"
quota_text host (n ∷ ns) = host.show_num (fin (least n ns) 0)

abbrev can_high_resolution : Identity → Bool
can_high_resolution identity =
    is_admin identity.role
    || identity.can_use_high_resolution
    || identity.can_use_paid_image_accounts
    || is_premium identity.account_tier

-- `loadQuota` of the root administrator, who asks nothing
unfoldable pub load_root_quota : Page → Page
load_root_quota page = record page { can_use_high_resolution = true; available_quota = text "∞" }

-- `loadQuota` of the others, when the server has answered
unfoldable pub load_quota : Host → Identity → Page → Page
unfolding remaining_of is_high_resolution
load_quota host identity page = record page {
  can_use_high_resolution = can_high_resolution identity;
  resolution =
      if not (can_high_resolution identity) && is_high_resolution page.resolution
      then []
      else page.resolution;
  available_quota = quota_text host (candidates identity);
}

-- `loadQuota`, when the request has failed
unfoldable pub quota_failed : Page → Page
unfolding ◌==◌
quota_failed page = record page {
  available_quota =
      if page.available_quota == text "加载中..." then text "--" else page.available_quota;
}

-- What reading some files has come to.
pub data Reading : Type 0 where
  read_images : List ReferenceImage → Reading
  unreadable : Text → Reading

-- `appendReferenceImages`, of at least one file
unfoldable pub append_reference_images : Reading → Page → Page
append_reference_images (read_images previews) page = record page {
  reference_images = page.reference_images ++ previews;
}
append_reference_images (unreadable message) page = emit (toast message) page

-- `handleRemoveReferenceImage`
unfoldable pub handle_remove_reference_image : ℕ → Page → Page
handle_remove_reference_image index page = record page {
  reference_images = remove_at index page.reference_images;
}

-- `handleContinueEdit`, when the image is read; an image that has no source is read as no image.
unfoldable pub handle_continue_edit : Text → Reading → Page → Page
handle_continue_edit id (read_images []) page = page
handle_continue_edit id (read_images (image ∷ rest)) page =
    emit (toast (text "已加入当前参考图，继续输入描述即可编辑")) (record page {
      selected = some id;
      reference_images = page.reference_images ++ image ∷ [];
      prompt = [];
    })
handle_continue_edit id (unreadable message) page = emit (toast message) page

-- `handleReplyToTurn`, where the images of the turn can be decoded
unfoldable pub handle_reply_to_turn : Text → Text → Text → Page → Page
handle_reply_to_turn id turn_id ai_message page = elim (find_conversation id page.conversations) [
  | none ↦ page
  | some c ↦ elim (find_turn turn_id c.turns) [
    | none ↦ page
    | some turn ↦ record page {
      selected = some id;
      reply_target = some (record {
        conversation_id = id;
        context = record {
          source_turn_id = turn_id;
          source_prompt = turn.prompt;
          ai_message = ai_message;
        };
      });
      reference_images =
          if is_empty turn.reference_images then page.reference_images else turn.reference_images;
    }
  ]
]

abbrev reused_resolution : Bool → Option Text → Text
reused_resolution can_high none = []
reused_resolution can_high (some r) = if not can_high && is_high_resolution r then [] else r

-- `handleReuseTurnConfig`, where the images of the turn can be decoded
unfoldable pub handle_reuse_turn_config : Host → Text → Text → Page → Page
unfolding is_high_resolution trim
handle_reuse_turn_config host id turn_id page = elim (find_conversation id page.conversations) [
  | none ↦ page
  | some c ↦ elim (find_turn turn_id c.turns) [
    | none ↦ page
    | some turn ↦
        if is_empty (trim turn.prompt)
        then page
        else emit (toast (text "已复用这条提示词配置")) (record page {
          selected = some id;
          prompt = turn.prompt;
          count = host.show_num (regenerated_count turn);
          size = turn.size;
          resolution = reused_resolution page.can_use_high_resolution turn.resolution;
          reference_images = turn.reference_images;
        })
  ]
]
