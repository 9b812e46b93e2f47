-- ===== src/Tests/Data.antt =====
-- Sample values of the types of web/src/store/image-conversations.ts, and a host: texts are collated by
-- their code units, a date is its first code unit, and a number from 0 on is written as one character.
use gpt2api_image.Base.{
  to_lower, map, ℕ, zero, suc, ◌-◌, ◌+◌, Text, some-eq, subst, text, ◌==◌, ltb, eqb, Bool, true,
  false, ◌||◌, ◌≡◌, ◌≢◌, refl, Option, none, some, List, [], ◌∷◌, All, if◌then◌else◌, arith,
}
use gpt2api_image.Base.Num.{
  ℤ, Num, nan, neg_inf, pos_inf, fin, pos, negsuc, num, max_num, is_truthy, le_ℤ,
}
use gpt2api_image.Base.Host.{Host}
use gpt2api_image.Conversation.{
  StoredImage, ImageTurn, TurnStatus, ConversationMode, ImageConversation,
}
use gpt2api_image.Conversation.Normalize.{Clock}
use gpt2api_image.Conversation.Lookup.{NodupIds}
use gpt2api_image.Conversation.RoundTrip.{IsNormal, IsNormalTurn, IsNormalImage}
use gpt2api_image.Store.{Disk, get_timestamp, read_stored, set_item}
use gpt2api_image.Store.Lookup.{IsClean, read-set_item, set_item-IsClean}
use gpt2api_image.Task.{ImageTask, TaskStatus}
use gpt2api_image.Page.{Page}
use gpt2api_image.Page.Agreement.{IsPast}
use gpt2api_image.Page.Memory.{IsOrderly}
use gpt2api_image.Page.Composer.{loading_image}

abbrev pub before : Text → Text → Bool
before [] t = true
before (a ∷ s) [] = false
before (a ∷ s) (b ∷ t) = if eqb a b then before s t else ltb a b

pub before_total : (s t : Text) → (before s t || before t s) ≡ true
before_total [] t = refl
before_total (a ∷ s) [] = refl
before_total (a ∷ s) (b ∷ t) = ground (arith, before_total s t)

pub before_trans : (s t u : Text) → before s t ≡ true → before t u ≡ true → before s u ≡ true
before_trans [] t u h k = refl
before_trans (a ∷ s) [] u h k = cc
before_trans (a ∷ s) (b ∷ t) [] h k = cc
before_trans (a ∷ s) (b ∷ t) (c ∷ u) h k = ground (arith, before_trans s t u)

abbrev pub date_of : Text → Option ℤ
date_of [] = none
date_of (c ∷ s) = some (pos c)

abbrev pub write_num : Num → Text
write_num nan = 0 ∷ []
write_num neg_inf = 1 ∷ []
write_num pos_inf = 2 ∷ []
write_num (fin (pos n) zero) = (48 + n) ∷ []
write_num (fin (pos n) (suc f)) = 0 ∷ n ∷ f ∷ []
write_num (fin (negsuc n) f) = 1 ∷ n ∷ f ∷ []

abbrev pub read_num : Text → Num
read_num (c ∷ []) =
    if eqb c 0 then nan else if eqb c 1 then neg_inf else if eqb c 2 then pos_inf else num (c - 48)
read_num (k ∷ n ∷ f ∷ []) = if eqb k 0 then fin (pos n) (suc f) else fin (negsuc n) f
read_num _ = nan

pub write_num-nonempty : (n : Num) → write_num n ≢ []
write_num-nonempty n = ground arith

pub read-write_num : (n : Num) → read_num (write_num n) ≡ n
read-write_num nan = refl
read-write_num neg_inf = refl
read-write_num pos_inf = refl
read-write_num (fin (pos n) zero) = ground arith
read-write_num (fin (pos n) (suc f)) = refl
read-write_num (fin (negsuc n) f) = refl

abbrev pub plain_host : Host
plain_host = record {
  collate = before;
  collate_total = before_total;
  collate_trans = before_trans;
  lower_case = map to_lower;
  lower_case_empty = refl;
  time_of = date_of;
  number_of = read_num;
  show_num = write_num;
  show_num_nonempty = write_num-nonempty;
  number_show = read-write_num;
}

abbrev pub noon : Clock
noon = record { millis = text "5"; iso = text "5" }

abbrev pub cat_images : List StoredImage
cat_images = loading_image (text "t1-0") ∷ loading_image (text "t1-1") ∷ []

-- A turn that waits for two images.
abbrev pub cat_turn : ImageTurn
cat_turn = record {
  id = text "t1";
  prompt = text "a cat";
  model = text "gpt-image-2";
  mode = ConversationMode.generate;
  reference_images = [];
  count = num 2;
  size = [];
  resolution = some [];
  images = cat_images;
  created_at = text "1";
  status = TurnStatus.queued;
  error = none;
  prompt_deleted = false;
  results_deleted = false;
  reply_context = none;
}

abbrev pub cats : ImageConversation
cats = record {
  id = text "c1";
  title = text "a cat";
  created_at = text "1";
  updated_at = text "1";
  turns = cat_turn ∷ [];
}

abbrev pub blank : ImageConversation
blank = record {
  id = text "c2";
  title = text "blank";
  created_at = text "2";
  updated_at = text "2";
  turns = [];
}

-- The newer of the two comes first.
abbrev pub both : List ImageConversation
both = blank ∷ cats ∷ []

abbrev pub stored : Disk
stored = set_item both

loading-IsNormal : (c : ℕ) (id : Text) → IsNormalImage (loading_image (c ∷ id))
loading-IsNormal c id = record { task_id = λ e. cc; url = λ e. cc; status = λ e. cc }

cat_turn-IsNormal : IsNormalTurn cat_turn
unfolding max_num is_truthy
cat_turn-IsNormal = record {
  id = λ e. cc;
  model = λ e. cc;
  references = tt;
  count = refl;
  counted = refl;
  resolution = λ e. cc;
  images = (loading-IsNormal _ _, (loading-IsNormal _ _, tt));
  created_at = λ e. cc;
  reply = tt;
}

pub cats-IsNormal : IsNormal cats
cats-IsNormal = record {
  id = λ e. cc;
  created_at = λ e. cc;
  updated_at = λ e. cc;
  turns = (cat_turn-IsNormal, tt);
}

pub blank-IsNormal : IsNormal blank
blank-IsNormal = record { id = λ e. cc; created_at = λ e. cc; updated_at = λ e. cc; turns = tt }

pub both-IsNormal : All IsNormal both
both-IsNormal = (blank-IsNormal, (cats-IsNormal, tt))

pub both-NodupIds : NodupIds both
unfolding ◌==◌
both-NodupIds = (refl, (refl, tt))

pub stored-IsClean : (clock : Clock) → IsClean plain_host clock stored
stored-IsClean clock = set_item-IsClean plain_host clock both both-IsNormal both-NodupIds

pub read-stored : (clock : Clock) → read_stored plain_host clock stored ≡ both
read-stored clock = read-set_item plain_host clock both both-IsNormal

abbrev pub finished_task : ImageTask
finished_task = record {
  id = text "t1-0";
  client_task_id = none;
  status = TaskStatus.success;
  items = some (record { b64_json = none; url = some (text "/a.png"); revised_prompt = none } ∷ []);
  error = none;
}

abbrev pub running_task : ImageTask
running_task = record {
  id = text "t1-1";
  client_task_id = none;
  status = TaskStatus.running;
  items = none;
  error = none;
}

-- The page with the two conversations, a prompt, and a quota of three images.
abbrev pub home : Page
home = record {
  conversations = both;
  shown = both;
  selected = some (text "c1");
  prompt = text "a dog";
  count = text "2";
  size = [];
  resolution = [];
  reference_images = [];
  reply_target = none;
  can_use_high_resolution = false;
  available_quota = text "3";
  is_root_admin = false;
  active = [];
  effects = [];
}

pub home-IsOrderly : IsOrderly plain_host home
home-IsOrderly = record { sorted = ((refl, tt), (tt, tt)); nodup = both-NodupIds; shown = refl }

-- The first conversation of the page is older than the present.
pub cats-IsPast : IsPast plain_host (text "c1") (text "6") home
unfolding ◌==◌ le_ℤ
cats-IsPast c e =
    subst
      (λ d.
        le_ℤ (get_timestamp plain_host d.updated_at) (get_timestamp plain_host (text "6")) ≡ true)
      (some-eq e) refl

pub cats-IsPast_noon : IsPast plain_host (text "c1") noon.iso home
unfolding ◌==◌ le_ℤ
cats-IsPast_noon c e =
    subst
      (λ d. le_ℤ (get_timestamp plain_host d.updated_at) (get_timestamp plain_host noon.iso) ≡ true)
      (some-eq e) refl
