-- ===== src/Config.antt =====
-- internal/config/config.go: the configuration, read from environment variables.
pub mod Access
use artifact_registry_servic.Base.{
  String, ◌==◌, Bool, false, not, List, [], ◌∷◌, ◌++◌, map, none, some, trim_space, split,
  equal_fold, to_lower, ℤ, pos, parse_int, if◌then◌else◌,
}
use artifact_registry_servic.Auth.{scope_read, scope_write, scope_admin, KeyEntry, Store, new_store}

-- `os.Getenv`: the value of a variable, empty if it is not set.
abbrev pub Env : Type 0
Env = String → String

pub record S3Config : Type 0 where
  pub endpoint : String
  pub region : String
  pub bucket : String
  pub access_key_id : String
  pub secret_access_key : String
  pub use_ssl : Bool
  pub force_path_style : Bool
  pub prefix : String

pub record Config : Type 0 where
  pub port : ℤ
  pub storage_dir : String
  pub storage_backend : String
  pub database_path : String
  pub max_upload_mb : ℤ
  pub base_url : String
  pub auth : Store
  pub webhook_urls : List String
  pub webhook_secret : String
  pub s3 : S3Config

-- The loop of `splitKeys` over the parts.
unfoldable pub trimmed : List String → List String
unfolding trim_space
trimmed [] = []
trimmed (k ∷ parts) =
    let rest = trimmed parts in if not (trim_space k == "") then trim_space k ∷ rest else rest

unfoldable pub split_keys : String → List String
unfolding trimmed split
split_keys s = trimmed (split s b',')

unfoldable pub get_env : Env → String → String → String
get_env env key def = if not (env key == "") then env key else def

abbrev pub entries : List String → List String → List KeyEntry
entries scopes = map (λ raw. record { key = raw; scopes = scopes })

unfoldable pub load_keys : Env → List KeyEntry
load_keys env =
    entries (scope_admin ∷ scope_write ∷ scope_read ∷ []) (split_keys (env "ARS_ADMIN_KEYS"))
    ++ (entries (scope_write ∷ scope_read ∷ []) (split_keys (env "ARS_WRITE_KEYS"))
        ++ entries (scope_read ∷ []) (split_keys (env "ARS_READ_KEYS")))

abbrev number_or : ℤ → String → ℤ
number_or def s = if s == "" then def else elim (parse_int s) [ none ↦ def | some v ↦ v ]

unfoldable pub load : Env → Config
unfolding load_keys get_env split_keys equal_fold to_lower parse_int new_store
load env = record {
  port = number_or (pos 8080) (env "PORT");
  storage_dir = get_env env "STORAGE_DIR" "./data/artifacts";
  storage_backend = to_lower (get_env env "STORAGE_BACKEND" "local");
  database_path = get_env env "DATABASE_PATH" "./data/registry.db";
  max_upload_mb = number_or (pos 500) (env "MAX_UPLOAD_MB");
  base_url = get_env env "BASE_URL" "http://localhost:8080";
  auth =
      new_store (load_keys env) (not (equal_fold (get_env env "ARS_AUTH_DISABLED" "false") "true"));
  webhook_urls = split_keys (env "WEBHOOK_URLS");
  webhook_secret = env "WEBHOOK_SECRET";
  s3 = record {
    endpoint = env "S3_ENDPOINT";
    region = get_env env "S3_REGION" "us-east-1";
    bucket = env "S3_BUCKET";
    access_key_id = env "S3_ACCESS_KEY_ID";
    secret_access_key = env "S3_SECRET_ACCESS_KEY";
    use_ssl = not (equal_fold (get_env env "S3_USE_SSL" "true") "false");
    force_path_style = equal_fold (get_env env "S3_FORCE_PATH_STYLE" "false") "true";
    prefix = env "S3_PREFIX";
  };
}
