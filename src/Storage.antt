-- ===== src/Storage.antt =====
-- api/app/core/storage.py. The clients of boto3 and google-cloud-storage are a parameter. The backend is
-- chosen once, by settings that do not change; creating a missing S3 bucket is left to the client.
pub mod Keys
use proyecto_1_back.Prelude.{
  ℕ, ◌≡◌, Bool, true, false, Option, none, some, List, [], ◌∷◌, ◌++◌, any, ◌==◌, if◌then◌else◌,
}
use proyecto_1_back.Http.{Result, ok, err, runtime_error, ◌>>=◌}
use proyecto_1_back.Text.{Text, codes, text_eq, rstrip}
use proyecto_1_back.Text.Split.{before_last, after_last}
use proyecto_1_back.Config.{Backend, s3, gcs, Settings, truthy}

-- The objects of a bucket: `put_object` or `upload_from_string`, `delete_object` or `blob.delete`, and
-- what a reader of the public URL of a key gets.
pub record Client (S : Type 0) : Type 0 where
  pub put_object : Text → Text → Text → S → Result (Unit {0}) × S
  pub delete_object : Text → S → Result (Unit {0}) × S
  pub object : Text → S → Option Text

-- `GCSStorage.__init__` wants a bucket
unfoldable pub get_storage : Settings → Result Backend
unfolding truthy
get_storage settings = chosen settings.storage_backend (truthy settings.gcs_bucket)
  where
    chosen : Backend → Option Text → Result Backend
    chosen s3 bucket = ok s3
    chosen gcs none = err runtime_error
    chosen gcs (some bucket) = ok gcs

-- an f-string prints a missing value as None
abbrev pub printed : Option Text → Text
printed none = codes "None"
printed (some s) = s

abbrev pub gcs_prefix : Option Text → Option Text → Text
gcs_prefix none bucket = codes "https://storage.googleapis.com/" ++ printed bucket
gcs_prefix (some url) bucket = rstrip 47 url

unfoldable pub public_prefix : Settings → Backend → Text
unfolding truthy rstrip
public_prefix settings s3 = rstrip 47 settings.s3_public_url
public_prefix settings gcs = gcs_prefix (truthy settings.gcs_public_url) settings.gcs_bucket

unfoldable pub get_public_prefix : Settings → Result Text
unfolding get_storage public_prefix
get_public_prefix settings = do backend ← get_storage settings; ok (public_prefix settings backend)

abbrev pub extension : Text → Text
extension filename = if any (λ c. c == 46) filename then after_last 46 filename else codes "webp"

-- `unique` is `uuid.uuid4().hex[:12]`
unfoldable pub generate_object_key : Text → Text → Text → Text
unfolding after_last
generate_object_key unique prefix filename = prefix ++ (47 ∷ (unique ++ (46 ∷ extension filename)))

module _ {S : Type 0} (client : Client S) (settings : Settings) where
  -- what a call of the client makes a method return
  abbrev pub returning : {A : Type 0} → A → Result (Unit {0}) × S → Result A × S
  returning a (ok done, s) = (ok a, s)
  returning a (err e, s) = (err e, s)

  abbrev pub upload_to : Text → Text → Text → Result Backend → S → Result Text × S
  upload_to file_bytes key content_type (err e) s = (err e, s)
  upload_to file_bytes key content_type (ok backend) s =
      returning (public_prefix settings backend ++ (47 ∷ key))
        (client.put_object key file_bytes content_type s)

  -- `upload` of the backend
  unfoldable pub upload_file : Text → Text → Text → S → Result Text × S
  unfolding get_storage
  upload_file file_bytes key content_type s =
      upload_to file_bytes key content_type (get_storage settings) s

  abbrev pub delete_from : Text → Result Backend → S → Result (Unit {0}) × S
  delete_from key (err e) s = (err e, s)
  delete_from key (ok backend) s = client.delete_object key s

  -- `delete` of the backend
  unfoldable pub delete_file : Text → S → Result (Unit {0}) × S
  unfolding get_storage
  delete_file key s = delete_from key (get_storage settings) s
