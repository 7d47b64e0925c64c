-- ===== src/Services/Uploads.antt =====
-- api/app/services/upload_service.py, api/app/schemas/upload.py and api/app/api/routers/upload.py.
-- Pillow is a parameter. The threads that resize share no state; the uploads end in an order that is an
-- argument, and all of them are made, also after one has failed.
pub mod Stored
pub mod Removed
pub mod Workers
use proyecto_1_back.Prelude.{
  ℕ, suc, ◌*◌, Bool, true, false, not, Option, none, some, List, [], ◌∷◌, ◌++◌, any, ◌==◌, ltb,
  drop, length, if◌then◌else◌,
}
use proyecto_1_back.Http.{
  Exc, Result, ok, err, value_error, value_error_of, too_large, invalid_type, http, key_error,
  bad_request, message, ◌>>=◌, require,
}
use proyecto_1_back.Text.{Text, codes, text_eq, starts_with, rstrip}
use proyecto_1_back.Text.Split.{before_last}
use proyecto_1_back.Config.{Settings}
use proyecto_1_back.Storage.{
  Client, generate_object_key, upload_file, delete_file, get_public_prefix,
}

-- the keys of IMAGE_VARIANTS
pub data Variant : Type 0 where
  thumbnail medium large : Variant

abbrev pub variant_name : Variant → Text
variant_name thumbnail = codes "thumbnail"
variant_name medium = codes "medium"
variant_name large = codes "large"

abbrev pub side : Variant → ℕ
side thumbnail = 150
side medium = 400
side large = 800

abbrev pub quality : Variant → ℕ
quality thumbnail = 80
quality medium = 85
quality large = 90

abbrev pub same_variant : Variant → Variant → Bool
same_variant v u = text_eq (variant_name v) (variant_name u)

-- a dict whose keys are the variants, such as UploadResponse
pub record PerVariant (A : Type 0) : Type 0 where
  pub at_thumbnail : A
  pub at_medium : A
  pub at_large : A

abbrev pub at : {A : Type 0} → PerVariant A → Variant → A
at p thumbnail = p.at_thumbnail
at p medium = p.at_medium
at p large = p.at_large

-- What the program asks of Pillow: `Image.open`, `img.mode`, `img.convert("RGB")`,
-- `img.thumbnail((side, side))` and `img.save` as WEBP.
pub record Pillow (I : Type 0) : Type 0 where
  pub open_image : Text → Result I
  pub mode : I → Text
  pub convert_rgb : I → Result I
  pub shrink : ℕ → I → Result I
  pub save_webp : ℕ → I → Result Text

abbrev pub allowed_content_types : List Text
allowed_content_types = codes "image/jpeg" ∷ codes "image/png" ∷ codes "image/webp" ∷ []

module _ {I : Type 0} (pillow : Pillow I) where
  unfoldable pub process_image_variant : Text → ℕ → ℕ → Result Text
  process_image_variant image_bytes size quality = do
    opened ← pillow.open_image image_bytes
    img ←
        if any (text_eq (pillow.mode opened)) (codes "RGBA" ∷ codes "P" ∷ [])
        then pillow.convert_rgb opened
        else ok opened
    small ← pillow.shrink size img
    pillow.save_webp quality small

  -- `variant_data`: the tasks are awaited in the order of IMAGE_VARIANTS
  unfoldable pub variant_data : Text → Result (PerVariant Text)
  unfolding process_image_variant
  variant_data file_bytes = do
    t ← process_image_variant file_bytes (side thumbnail) (quality thumbnail)
    m ← process_image_variant file_bytes (side medium) (quality medium)
    l ← process_image_variant file_bytes (side large) (quality large)
    ok (record { at_thumbnail = t; at_medium = m; at_large = l })

-- `key.rsplit(".", 1)[0] + ".webp"`
unfoldable pub variant_key : Text → Text → Text → Variant → Text
unfolding generate_object_key before_last
variant_key unique prefix original_filename v =
    before_last 46 (generate_object_key unique (prefix ++ (47 ∷ variant_name v)) original_filename)
    ++ codes ".webp"

-- an entry of the dict of URLs
unfoldable pub url_at : List (Variant × Text) → Variant → Option Text
url_at [] v = none
url_at ((u, url) ∷ results) v =
    let rest = url_at results v in if same_variant v u then some url else rest

-- `UploadResponse(**urls)`
unfoldable pub upload_response : List (Variant × Text) → Result (PerVariant Text)
unfolding url_at
upload_response results = do
  t ← require (url_at results thumbnail) key_error
  m ← require (url_at results medium) key_error
  l ← require (url_at results large) key_error
  ok (record { at_thumbnail = t; at_medium = m; at_large = l })

module _ {S : Type 0} (client : Client S) (settings : Settings) where
  -- `_upload_one`
  unfoldable pub upload_one : (Variant → Text) → PerVariant Text → Variant → S → Result Text × S
  unfolding upload_file
  upload_one key payloads v s =
      upload_file client settings (at payloads v) (key v) (codes "image/webp") s

  -- `asyncio.gather`: the first exception, or all results
  abbrev pub gathered :
      Variant → Result Text → Result (List (Variant × Text)) → Result (List (Variant × Text))
  gathered v (err e) rest = err e
  gathered v (ok url) (err e) = err e
  gathered v (ok url) (ok results) = ok ((v, url) ∷ results)

  unfoldable pub upload_each :
      (Variant → Text) → PerVariant Text → List Variant → S → Result (List (Variant × Text)) × S
  unfolding upload_one
  upload_each key payloads [] s = (ok [], s)
  upload_each key payloads (v ∷ order) s =
      let first = upload_one key payloads v s in
      let rest = upload_each key payloads order first.1 in (gathered v first.0 rest.0, rest.1)

  -- `_get_executor`: Python's ThreadPoolExecutor takes no `max_workers` of 0. One that was made before had
  -- the same setting.
  unfoldable pub get_executor : Result (Unit {0})
  get_executor =
      if settings.image_worker_count == 0
      then err (value_error_of (message "max_workers must be greater than 0"))
      else ok tt

  -- what the tests, the executor and the resizing raise, or the payloads
  unfoldable pub checked_payloads :
      {I : Type 0} → Pillow I → List Text → Text → Text → Result (PerVariant Text)
  unfolding variant_data get_executor
  checked_payloads pillow allowed file_bytes content_type =
      if ltb (settings.image_max_size_mb * 1024 * 1024) (length file_bytes)
      then err (value_error_of (too_large settings.image_max_size_mb))
      else (if not (any (text_eq content_type) allowed_content_types)
          then err (value_error_of (invalid_type allowed))
          else get_executor >>= λ _. variant_data pillow file_bytes)

  abbrev pub upload_payloads :
      (Variant → Text) → List Variant → Result (PerVariant Text) → S → Result (PerVariant Text) × S
  upload_payloads key order (err e) s = (err e, s)
  upload_payloads key order (ok payloads) s =
      let sent = upload_each key payloads order s in (sent.0 >>= upload_response, sent.1)

  -- `allowed` is ALLOWED_CONTENT_TYPES in the order that the set has when it is printed
  unfoldable pub process_and_upload_image :
      {I : Type 0}
      → Pillow I
      → List Text
      → (Variant → Text)
      → List Variant
      → Text
      → Text
      → Text
      → Text
      → S
      → Result (PerVariant Text) × S
  unfolding checked_payloads upload_each upload_response
  process_and_upload_image pillow allowed unique order file_bytes content_type prefix
        original_filename s =
      upload_payloads (λ v. variant_key (unique v) prefix original_filename v) order
        (checked_payloads pillow allowed file_bytes content_type) s

  abbrev pub delete_under : Text → Result Text → S → Result (Unit {0}) × S
  delete_under url (err e) s = (err e, s)
  delete_under url (ok public_prefix) s =
      if starts_with (rstrip 47 public_prefix) url
      then delete_file client settings (drop (suc (length (rstrip 47 public_prefix))) url) s
      else (ok tt, s)

  unfoldable pub delete_image : Text → S → Result (Unit {0}) × S
  unfolding get_public_prefix delete_file
  delete_image url s = delete_under url (get_public_prefix settings) s
