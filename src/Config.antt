-- ===== src/Config.antt =====
-- api/app/core/config.py and api/app/core/secrets.py. Reading the environment and the `.env` file into the
-- fields is pydantic's; what the classes add to it is here. `int` fields are natural numbers.
use proyecto_1_back.Prelude.{
  ℕ, Bool, Option, none, some, List, [], ◌∷◌, map, filter, not, if◌then◌else◌,
}
use proyecto_1_back.Http.{Result, ok, ◌>>=◌}
use proyecto_1_back.Text.{Text, codes, starts_with}
use proyecto_1_back.Text.Words.{trim, split, is_empty}

pub data Backend : Type 0 where
  s3 gcs : Backend

pub record Settings : Type 0 where
  pub app_env : Text
  pub app_name : Text
  pub debug : Bool
  pub gcp_project_id : Option Text
  pub cors_origins : List Text
  pub database_url : Text
  pub cloud_sql_connection_name : Option Text
  pub db_user : Option Text
  pub db_name : Option Text
  pub jwt_secret : Text
  pub jwt_algorithm : Text
  pub jwt_access_ttl_min : ℕ
  pub jwt_refresh_ttl_days : ℕ
  pub ip_hash_salt : Text
  pub trusted_proxies : ℕ
  pub rate_limit_per_minute : ℕ
  pub log_level : Text
  pub enable_docs : Bool
  pub storage_backend : Backend
  pub s3_endpoint : Text
  pub s3_access_key : Text
  pub s3_secret_key : Text
  pub s3_bucket : Text
  pub s3_public_url : Text
  pub gcs_bucket : Option Text
  pub gcs_public_url : Option Text
  pub image_max_size_mb : ℕ
  pub image_worker_count : ℕ

-- `x or None` and `if x:` of an optional text: an empty one counts as none
unfoldable pub truthy : Option Text → Option Text
truthy none = none
truthy (some []) = none
truthy (some (c ∷ s)) = some (c ∷ s)

-- `v: str | list[str]`
pub data Origins : Type 0 where
  one : Text → Origins
  many : List Text → Origins

module _ (json_loads : Text → Result (List Text)) where
  unfoldable pub parse_text_origins : Text → Result (List Text)
  unfolding trim split
  parse_text_origins v =
      if starts_with (codes "[") v
      then (do origins ← json_loads v; ok (map trim origins))
      else ok (map trim (filter (λ origin. not (is_empty (trim origin))) (split 44 v)))

  unfoldable pub parse_cors_origins : Origins → Result (List Text)
  unfolding parse_text_origins
  parse_cors_origins (many v) = ok v
  parse_cors_origins (one v) = parse_text_origins (trim v)

-- `os.getenv`, and Secret Manager, which returns none when it is not installed or the read fails
pub record Sources : Type 0 where
  pub getenv : Text → Option Text
  pub access_secret_version : Text → Text → Option Text

module _ (from : Sources) where
  unfoldable pub project_id_of_env : Option Text
  unfolding truthy
  project_id_of_env = truthy (from.getenv (codes "GCP_PROJECT_ID"))

  unfoldable pub fetch_from_secret_manager : Text → Text → Option Text
  fetch_from_secret_manager secret_name project_id =
      from.access_secret_version project_id secret_name

  abbrev pub or_else : Option Text → Option Text → Option Text
  or_else none o = o
  or_else (some v) o = some v

  abbrev pub from_project : Text → Option Text → Option Text
  from_project name none = none
  from_project name (some project_id) = fetch_from_secret_manager name project_id

  unfoldable pub get_secret : Text → Option Text → Option Text
  unfolding project_id_of_env fetch_from_secret_manager
  get_secret name default =
      or_else (from_project name project_id_of_env) (or_else (from.getenv name) default)

  abbrev pub overlay : Option Text → Text → Text
  overlay none loaded = loaded
  overlay (some v) loaded = v

  abbrev pub with_secrets : Option Text → Settings → Settings
  with_secrets none s = s
  with_secrets (some project) s = record s {
    jwt_secret = overlay (truthy (get_secret (codes "JWT_SECRET") none)) s.jwt_secret;
    ip_hash_salt = overlay (truthy (get_secret (codes "IP_HASH_SALT") none)) s.ip_hash_salt;
    database_url = overlay (truthy (get_secret (codes "DATABASE_URL") none)) s.database_url;
  }

  -- `_build_settings`, from the settings that pydantic loaded
  unfoldable pub build_settings : Settings → Settings
  unfolding truthy get_secret
  build_settings s = with_secrets (truthy s.gcp_project_id) s
