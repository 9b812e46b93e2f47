-- ===== src/Tests/Pages.antt =====
-- web/src/app/image/page.tsx: the handlers of the page at the two sample conversations.
use gpt2api_image.Base.{true, text, ◌==◌, ◌≡◌, ◌⊎◌, refl, false, ◌||◌, none, some, List, All}
use gpt2api_image.Base.Num.{le_ℤ, num, pos}
use gpt2api_image.Conversation.{ImageConversation, ImageTurn}
use gpt2api_image.Conversation.Ordering.{find_conversation}
use gpt2api_image.Page.{
  Page, TurnPart, clear_history, handle_clear_history, handle_rename_conversation,
  handle_delete_conversation, find_turn, handle_delete_turn_part, turns_without,
}
use gpt2api_image.Page.Agreement.{IsSynced}
use gpt2api_image.Page.Agreement.Handlers.{handlers-IsSynced}
use gpt2api_image.Auth.{AuthRole}
use gpt2api_image.Page.Inputs.{Identity, Limit, candidates, load_quota, quota_text, remaining_of}
use gpt2api_image.Page.Inputs.Allowance.{admits_all, load_quota-admits}
use gpt2api_image.Page.Deletion.{IsQuiet, delete_results-IsQuiet}
use gpt2api_image.Page.Composer.{ensure_quota_for_request}
use gpt2api_image.Page.Composer.Quota.{is_none, is_placeholder}
use gpt2api_image.Tests.Data.{
  cat_turn, noon, cats-IsPast_noon, both, cats, home, home-IsOrderly, plain_host,
}

abbrev rest : List ImageTurn
rest = turns_without TurnPart.results (text "t1") cats.turns

cats_found : find_conversation (text "c1") both ≡ some cats
unfolding ◌==◌
cats_found = refl

delete_results-IsQuiet_example :
    let r =
      handle_delete_turn_part plain_host both
        (text "7")
        (text "c1")
        (text "t1")
        TurnPart.results
        home in
    (find_conversation (text "c1") r.conversations ≡ none)
    ⊎ ((d : ImageConversation) × (find_conversation (text "c1") r.conversations ≡ some d)
        × All (IsQuiet (text "t1")) d.turns)
delete_results-IsQuiet_example =
    delete_results-IsQuiet plain_host (text "7") (text "c1") (text "t1") home cats home-IsOrderly
      cats_found

not_placeholder :
    (text "3" == text "∞" || text "3" == text "加载中..." || text "3" == text "--") ≡ false
unfolding ◌==◌
not_placeholder = refl

handlers-IsSynced_example :
    IsSynced plain_host noon home
      (handle_rename_conversation plain_host both noon.iso (text "c1") (text "cats") home)
    × IsSynced plain_host noon home (handle_delete_conversation both (text "c1") home)
    × IsSynced plain_host noon home (
        handle_delete_turn_part plain_host both noon.iso
          (text "c1")
          (text "t1")
          TurnPart.prompt
          home)
    × IsSynced plain_host noon home
        (clear_history (handle_clear_history home).0 (handle_clear_history home).1)
handlers-IsSynced_example =
    handlers-IsSynced plain_host noon (text "c1") (text "t1") (text "cats") TurnPart.prompt home
      home-IsOrderly cats-IsPast_noon

abbrev unlimited : Limit
unlimited = record { unlimited = true; remaining = none; quota = pos 0; used = pos 0 }

-- Three images are left of the day, and four of all.
abbrev ann : Identity
ann = record {
  role = AuthRole.user;
  account_tier = none;
  can_use_paid_image_accounts = false;
  can_use_high_resolution = false;
  daily = record { unlimited = false; remaining = none; quota = pos 5; used = pos 2 };
  monthly = unlimited;
  total = record { unlimited = false; remaining = some (pos 4); quota = pos 9; used = pos 5 };
}

ann_shown : is_placeholder (quota_text plain_host (candidates ann)) ≡ false
unfolding remaining_of le_ℤ ◌==◌
ann_shown = refl

load_quota-admits_example :
    is_none (ensure_quota_for_request plain_host (num 4) (load_quota plain_host ann home))
    ≡ admits_all 4 ann
load_quota-admits_example = load_quota-admits plain_host 3 ann home refl (λ h. ann_shown)

cat_turn_there : find_turn (text "t1") cats.turns ≡ some cat_turn
unfolding ◌==◌
cat_turn_there = refl
