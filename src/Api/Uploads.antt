-- ===== src/Api/Uploads.antt =====
-- api/app/api/routers/upload.py, on the state of the service and the bucket.
pub mod Refused
use proyecto_1_back.Prelude.{ℕ, Bool, Option, none, some, List, [], ◌∷◌, ◌++◌, if◌then◌else◌}
use proyecto_1_back.Http.{
  Exc, Result, ok, err, value_error, value_error_of, http, bad_request, message, ◌>>=◌,
}
use proyecto_1_back.Text.{Text, codes, rstrip}
use proyecto_1_back.Env.{Env}
use proyecto_1_back.Models.{Uuid, Restaurant}
use proyecto_1_back.App.{World}
use proyecto_1_back.Config.{Settings, truthy}
use proyecto_1_back.Storage.{Client, get_public_prefix}
use proyecto_1_back.Services.Restaurants.{get_by_owner}
use proyecto_1_back.Services.Uploads.{
  Pillow, Variant, PerVariant, process_and_upload_image, delete_image,
}
use proyecto_1_back.Security.{get_current_user_id}
use proyecto_1_back.Api.{Bearer}

-- `prefix: str = Query(pattern="^(logos|dishes)$")`
pub data Folder : Type 0 where
  logos dishes : Folder

abbrev pub folder_name : Folder → Text
folder_name logos = codes "logos"
folder_name dishes = codes "dishes"

-- an UploadFile
pub record UploadFile : Type 0 where
  pub filename : Option Text
  pub content_type : Option Text
  pub content : Text

-- `x or default`
abbrev pub or_default : Option Text → Text → Text
or_default none default = default
or_default (some s) default = s

-- `except ValueError`
unfoldable pub value_errors_as_400 : {A : Type 0} → Result A → Result A
value_errors_as_400 (ok a) = ok a
value_errors_as_400 (err (value_error_of detail)) = err (http 400 detail)
value_errors_as_400 (err value_error) = err (bad_request "")
value_errors_as_400 (err e) = err e

-- `except Exception`
unfoldable pub exceptions_as_500 : {A : Type 0} → Result A → Result A
exceptions_as_500 (ok a) = ok a
exceptions_as_500 (err e) = err (http 500 (message "Failed to delete image"))

module _ {S : Type 0} (client : Client S) (settings : Settings) (env : Env) where
  -- the user of the token, who has a restaurant
  abbrev pub owner : Bearer → World → Result Restaurant
  owner b w = do user_id ← get_current_user_id env b.at b.token; (get_by_owner user_id w).0

  abbrev pub for_owner : {A : Type 0} → Result Restaurant → (S → Result A × S) → S → Result A × S
  for_owner (err e) f s = (err e, s)
  for_owner (ok restaurant) f s = f s

  unfoldable pub upload_image :
      {I : Type 0}
      → Pillow I
      → List Text
      → (Variant → Text)
      → List Variant
      → Bearer
      → UploadFile
      → Folder
      → World
      → S
      → Result (PerVariant Text) × S
  unfolding process_and_upload_image value_errors_as_400 truthy
  upload_image pillow allowed unique order b file prefix w s =
      for_owner (owner b w)
        (λ s.
          let sent =
            process_and_upload_image client settings pillow allowed unique order file.content
              (or_default (truthy file.content_type) (codes "application/octet-stream"))
              (folder_name prefix) (or_default (truthy file.filename) (codes "image.jpg")) s in
          (value_errors_as_400 sent.0, sent.1))
        s

  abbrev pub delete_named : Text → Result Text → S → Result (Unit {0}) × S
  delete_named filename (err e) s = (err e, s)
  delete_named filename (ok public_prefix) s =
      let deleted = delete_image client settings (rstrip 47 public_prefix ++ (47 ∷ filename)) s in
      (exceptions_as_500 deleted.0, deleted.1)

  unfoldable pub delete_uploaded_image : Bearer → Text → World → S → Result (Unit {0}) × S
  unfolding delete_image exceptions_as_500 get_public_prefix
  delete_uploaded_image b filename w s =
      for_owner (owner b w) (delete_named filename (get_public_prefix settings)) s
