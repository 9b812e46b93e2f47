-- ===== src/Page/Composer/Limits.antt =====
-- web/src/app/image/page.tsx: the bounds of `clampImageCount` and the images of `createLoadingImages`.
use gpt2api_image.Base.{
  ℕ, zero, suc, ◌+◌, ◌≤◌, ◌<◌, Text, text, show-injective, ◌≡◌, ◌≢◌, refl, sym, ap, ◌∙◌, some, List,
  [], ◌∷◌, ◌++◌, map, length, All, leb, Bool-cases, inl, inr, arith,
}
use gpt2api_image.Base.Num.{
  Num, nan, neg_inf, pos_inf, fin, pos, negsuc, num, to_length, num_or, max_num, min_num, floor,
}
use gpt2api_image.Base.Host.{Host}
use gpt2api_image.Conversation.{StoredImage}
use gpt2api_image.Page.Composer.{
  loading_image, image_id, loading_images_from, create_loading_images, clamp_count,
  clamp_image_count,
}

clamped :
    (n : Num)
    → (m : ℕ) × (min_num (num 8) (max_num (num 1) (floor (num_or n (num 1)))) ≡ num m)
      × (1 ≤ m)
      × (m ≤ 8)
unfolding num_or max_num min_num floor
clamped nan = (1, refl, omega arith, omega arith)
clamped neg_inf = (1, refl, omega arith, omega arith)
clamped pos_inf = (8, refl, omega arith, omega arith)
clamped (fin (negsuc n) f) = (1, refl, omega arith, omega arith)
clamped (fin (pos zero) zero) = (1, refl, omega arith, omega arith)
clamped (fin (pos zero) (suc f)) = (1, refl, omega arith, omega arith)
clamped (fin (pos (suc n)) f) = elim (Bool-cases (leb 8 (suc n))) [
  | inl big ↦ (8, ground arith, omega arith, omega arith)
  | inr small ↦ (suc n, ground arith, omega arith, ground arith)
]

clamped_again :
    (m : ℕ)
    → 1 ≤ m
    → m ≤ 8
    → min_num (num 8) (max_num (num 1) (floor (num_or (num m) (num 1)))) ≡ num m
unfolding num_or max_num min_num floor
clamped_again zero low high = absurd (omega (arith, low))
clamped_again (suc m) low high = ground arith

-- Whatever is typed as the number of images, it is read as a whole number from 1 to 8, and the text
-- that replaces it stands for that number.
pub clamp_count-bounds :
    (host : Host) (value : Text)
    → (m : ℕ) × (clamp_count host value ≡ num m)
      × (1 ≤ m)
      × (m ≤ 8)
      × (host.number_of (clamp_image_count host value) ≡ num m)
      × (clamp_image_count host (clamp_image_count host value) ≡ clamp_image_count host value)
unfolding clamp_count clamp_image_count
clamp_count-bounds host value =
    let (m, e, low, high) = clamped (host.number_of value) in
    let reads = host.number_show (clamp_count host value) ∙ e in
    (
      m,
      e,
      low,
      high,
      reads,
      ap (λ n. host.show_num (min_num (num 8) (max_num (num 1) (floor (num_or n (num 1)))))) reads
          ∙ ap host.show_num (clamped_again m low high ∙ sym e),
    )

cancel_left {ℓ} : {A : Type ℓ} (s : List A) {t u : List A} → s ++ t ≡ s ++ u → t ≡ u
cancel_left [] e = e
cancel_left (c ∷ s) e = cancel_left s (ground arith)

image_id-injective : (turn_id : Text) (i j : ℕ) → image_id turn_id i ≡ image_id turn_id j → i ≡ j
image_id-injective turn_id i j e =
    show-injective i j (cancel_left (text "-") (cancel_left turn_id e))

abbrev pub Distinct {ℓ} : {A : Type ℓ} → List A → Type ℓ
Distinct [] = Unit
Distinct (x ∷ xs) = All (λ y. x ≢ y) xs × Distinct xs

abbrev pub ids : List StoredImage → List Text
ids images = map (λ image. image.id) images

later_ids :
    (turn_id : Text) (i j n : ℕ)
    → i < j
    → All (λ id. image_id turn_id i ≢ id) (ids (loading_images_from turn_id j n))
later_ids turn_id i j zero h = tt
later_ids turn_id i j (suc n) h = (
  λ e. absurd (omega (arith, h, image_id-injective turn_id i j e)),
  later_ids turn_id i (j + 1) n (omega arith),
)

ids-Distinct : (turn_id : Text) (i n : ℕ) → Distinct (ids (loading_images_from turn_id i n))
ids-Distinct turn_id i zero = tt
ids-Distinct turn_id i (suc n) =
    (later_ids turn_id i (i + 1) n (omega arith), ids-Distinct turn_id (i + 1) n)

loading_images-length : (turn_id : Text) (i n : ℕ) → length (loading_images_from turn_id i n) ≡ n
loading_images-length turn_id i zero = refl
loading_images-length turn_id i (suc n) = ap suc (loading_images-length turn_id (i + 1) n)

-- An image that waits for the task that has the image's id.
abbrev pub IsFresh : StoredImage → Type 0
IsFresh image = image ≡ loading_image image.id

loading_images-IsFresh : (turn_id : Text) (i n : ℕ) → All IsFresh (loading_images_from turn_id i n)
loading_images-IsFresh turn_id i zero = tt
loading_images-IsFresh turn_id i (suc n) = (refl, loading_images-IsFresh turn_id (i + 1) n)

-- As many images as were asked for are made; each waits for a task of its own, and no two of them for
-- the same one.
pub create_loading_images_lem :
    (turn_id : Text) (n : ℕ)
    → n ≤ 8
    → (images : List StoredImage) × (create_loading_images turn_id (num n) ≡ some images)
      × (length images ≡ n)
      × All IsFresh images
      × Distinct (ids images)
unfolding create_loading_images to_length
create_loading_images_lem turn_id n h = (
  loading_images_from turn_id 0 n,
  ground arith,
  loading_images-length turn_id 0 n,
  loading_images-IsFresh turn_id 0 n,
  ids-Distinct turn_id 0 n,
)
