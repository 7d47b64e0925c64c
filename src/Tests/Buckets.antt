-- ===== src/Tests/Buckets.antt =====
-- A bucket that is a list, a Pillow that changes nothing, and uploads to them.
use proyecto_1_back.Prelude.{
  ◌≡◌, refl, ◌⊎◌, true, false, Option, none, some, List, [], ◌∷◌, ◌++◌, any, if◌then◌else◌,
}
use proyecto_1_back.Http.{Exc, Result, ok, err}
use proyecto_1_back.Text.{Text, codes, text_eq, text_eq_refl}
use proyecto_1_back.Config.{Settings, s3}
use proyecto_1_back.Storage.{Client, get_storage, public_prefix}
use proyecto_1_back.Services.Uploads.{
  Variant, thumbnail, medium, large, PerVariant, at, Pillow, process_and_upload_image, delete_image,
}
use proyecto_1_back.Services.Uploads.Stored.{
  IsStore, Accepts, stored_key, stored_url, process_and_upload_image_stores,
}
use proyecto_1_back.Services.Uploads.Removed.{delete_image_removes}
use proyecto_1_back.Api.Uploads.{dishes, UploadFile, upload_image}
use proyecto_1_back.Api.Uploads.Refused.{Granted, upload_image-Granted}
use proyecto_1_back.Middleware.{parts, client_ip}
use proyecto_1_back.Middleware.Proxies.{client_ip-proxies}
use proyecto_1_back.Tests.Sample.{env, world}

-- the newest object first
abbrev Bucket : Type 0
Bucket = List (Text × Option Text)

abbrev object_in : Text → Bucket → Option Text
object_in key [] = none
object_in key ((k, body) ∷ s) = if text_eq k key then body else object_in key s

abbrev bucket : Client Bucket
bucket = record {
  put_object = λ key body content_type s. (ok tt, (key, some body) ∷ s);
  delete_object = λ key s. (ok tt, (key, none) ∷ s);
  object = object_in;
}

bucket-IsStore : IsStore bucket
bucket-IsStore = record {
  put_there = λ key body content_type s s' h. rw⁻¹ (written h) (rw (text_eq_refl key) refl);
  put_others = λ key body content_type other s s' h e. rw⁻¹ (written h) (rw e refl);
  delete_gone = λ key s s' h. rw⁻¹ (written h) (rw (text_eq_refl key) refl);
  delete_others = λ key other s s' h e. rw⁻¹ (written h) (rw e refl);
}
  where
    written : {s s' : Bucket} → ◌≡◌ {A = Result (Unit {0}) × Bucket} (ok tt, s) (ok tt, s') → s ≡ s'
    written h = cc h

bucket-Accepts : Accepts bucket
bucket-Accepts key body content_type s = ((key, some body) ∷ s, refl)

abbrev settings : Settings
settings = record {
  app_env = codes "dev";
  app_name = codes "livemenu-api";
  debug = false;
  gcp_project_id = none;
  cors_origins = [];
  database_url = [];
  cloud_sql_connection_name = none;
  db_user = none;
  db_name = none;
  jwt_secret = codes "s";
  jwt_algorithm = codes "HS256";
  jwt_access_ttl_min = 15;
  jwt_refresh_ttl_days = 7;
  ip_hash_salt = codes "t";
  trusted_proxies = 1;
  rate_limit_per_minute = 100;
  log_level = codes "INFO";
  enable_docs = true;
  storage_backend = s3;
  s3_endpoint = codes "http://minio:9000";
  s3_access_key = codes "a";
  s3_secret_key = codes "b";
  s3_bucket = codes "livemenu";
  s3_public_url = codes "http://h/b/";
  gcs_bucket = none;
  gcs_public_url = none;
  image_max_size_mb = 5;
  image_worker_count = 4;
}

abbrev pillow : Pillow Text
pillow = record {
  open_image = λ bytes. ok bytes;
  mode = λ img. codes "RGB";
  convert_rgb = λ img. ok img;
  shrink = λ size img. ok img;
  save_webp = λ quality img. ok (quality ∷ img);
}

abbrev unique : Variant → Text
unique v = codes "abc123"

abbrev order : List Variant
order = large ∷ thumbnail ∷ medium ∷ []

abbrev payloads : PerVariant Text
payloads = record {
  at_thumbnail = 80 ∷ 1 ∷ 2 ∷ [];
  at_medium = 85 ∷ 1 ∷ 2 ∷ [];
  at_large = 90 ∷ 1 ∷ 2 ∷ [];
}

abbrev every : (v : Variant) → any (proyecto_1_back.Services.Uploads.same_variant v) order ≡ true
unfolding text_eq
every thumbnail = refl
every medium = refl
every large = refl

process_and_upload_image_stores_example :
    (urls : PerVariant Text) × (s' : Bucket) × (process_and_upload_image bucket settings pillow []
        unique order
        (1 ∷ 2 ∷ [])
        (codes "image/png")
        (codes "dishes")
        (codes "../x.y/z.PNG")
        []
      ≡ (ok urls, s'))
    × ((v : Variant)
        → (at urls v ≡ stored_url settings s3 unique (codes "dishes") v)
          × (object_in (stored_key unique (codes "dishes") v) s' ≡ some (at payloads v)))
    × ((k : Text)
        → ((v : Variant) → text_eq (stored_key unique (codes "dishes") v) k ≡ false)
        → object_in k s' ≡ none)
unfolding get_storage proyecto_1_back.Services.Uploads.checked_payloads text_eq
process_and_upload_image_stores_example =
    process_and_upload_image_stores bucket bucket-IsStore bucket-Accepts settings s3 refl pillow []
      unique order every (1 ∷ 2 ∷ []) (codes "image/png") (codes "dishes") (codes "../x.y/z.PNG")
      payloads refl []

abbrev held : Bucket
held = (codes "dishes/large/abc123.webp", some (1 ∷ [])) ∷ []

delete_image_removes_example :
    (delete_image bucket settings
        (public_prefix settings s3 ++ codes "/dishes/large/abc123.webp")
        held
      ≡ (ok tt, (codes "dishes/large/abc123.webp", none) ∷ held))
    × (object_in
          (codes "dishes/large/abc123.webp")
          ((codes "dishes/large/abc123.webp", none) ∷ held)
        ≡ none)
    × ((other : Text)
        → text_eq (codes "dishes/large/abc123.webp") other ≡ false
        → object_in other ((codes "dishes/large/abc123.webp", none) ∷ held) ≡ object_in other held)
unfolding get_storage public_prefix
delete_image_removes_example =
    delete_image_removes bucket bucket-IsStore settings s3 refl refl 47
      (codes "dishes/large/abc123.webp") held _ refl

abbrev photo : UploadFile
photo = record {
  filename = some (codes "a.gif");
  content_type = some (codes "image/gif");
  content = 1 ∷ 2 ∷ [];
}

upload_image-Granted_example :
    ((e : Exc) × (upload_image bucket settings env pillow [] unique order
          (record { at = 17; token = 1 ∷ 101 ∷ codes "access" })
          photo
          dishes
          world
          held
        ≡ (err e, held)))
    ⊎ Granted bucket settings env pillow []
        (record { at = 17; token = 1 ∷ 101 ∷ codes "access" })
        photo
        world
upload_image-Granted_example =
    upload_image-Granted bucket settings env pillow [] unique order
      (record { at = 17; token = 1 ∷ 101 ∷ codes "access" }) photo dishes world held

client_ip-proxies_example :
    client_ip 2
      (some (codes "1.1.1.1, 2.2.2.2" ++ (44 ∷ codes " 9.9.9.9, 10.0.0.1")))
      (codes "10.0.0.2")
    ≡ codes "9.9.9.9"
unfolding parts
client_ip-proxies_example =
    client_ip-proxies 1 (codes "1.1.1.1, 2.2.2.2") (codes " 9.9.9.9, 10.0.0.1") (codes "9.9.9.9")
      (codes "10.0.0.2") (codes "10.0.0.1" ∷ []) refl refl
