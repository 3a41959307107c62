-- ===== src/Storage/S3.antt =====
-- internal/storage/s3/s3.go: the backend on an S3-compatible store. The AWS client is a parameter;
-- the temporary file of `Store` is gone when it returns, so `objects` does not hold it.
pub mod Laws
use artifact_registry_servic.Base.{
  ℕ, String, ◌<>◌, ◌==◌, Bool, ◌||◌, eqb, false, Option, none, some, length, includes,
  if◌then◌else◌, ◌⊎◌, inl, inr,
}
use artifact_registry_servic.Domain.Errors.{Error, sentinel, wrapped, other, not_found}
use artifact_registry_servic.Exec.{◌>>=◌, ◌>>◌, Exec, Result, ok, err, return, fail, on_error}
use artifact_registry_servic.World.{World, Bytes, external}
use artifact_registry_servic.Platform.{Platform}
use artifact_registry_servic.Storage.{Reader, Stored, Backend}

-- An error of the client: its text, whether `errors.As` finds a NoSuchKey in it, and the status code
-- that `errors.As` finds in it.
pub record ClientError : Type 0 where
  pub text : String
  pub no_such_key : Bool
  pub status : Option ℕ

-- The calls of `s3.Client` and `s3.PresignClient`: first the bucket, then the key.
pub record Client : Type 0 where
  pub put_object : String → String → Bytes → Exec World (Unit {0})
  pub get_object : String → String → World → (ClientError ⊎ Bytes) × World
  pub presign : String → String → ℕ → Exec World String
  pub delete_object : String → String → Exec World (Unit {0})

pub record S3Settings : Type 0 where
  pub endpoint : String
  pub region : String
  pub bucket : String
  pub access_key_id : String
  pub secret_access_key : String
  pub force_path_style : Bool
  pub prefix : String

-- `objectKey`, for a prefix.
unfoldable pub object_key : String → String → String
object_key prefix key = if prefix == "" then key else prefix <> "/" <> key

abbrev is_http_404 : Option ℕ → Bool
is_http_404 none = false
is_http_404 (some status) = eqb status 404

-- `mapNotFound`.
unfoldable pub map_not_found : Platform → ClientError → String → Error
unfolding includes
map_not_found go e key =
    if e.no_such_key
    then sentinel not_found
    else if includes e.text "404" || is_http_404 e.status
    then sentinel not_found
    else wrapped ("s3 get object " <> go.quote key <> ": ") (other e.text) ""

-- `io.Copy` into the temporary file.
buffered : Option String → Exec World (Unit {0})
unfolding external
buffered none = external
buffered (some text) = do external; fail (other text)

opened : Platform → String → (ClientError ⊎ Bytes) × World → Result Bytes × World
opened go key (inl e, w) = (err (map_not_found go e key), w)
opened go key (inr content, w) = (ok content, w)

module _ (go : Platform) (client : Client) (bucket prefix : String) where
  put : String → Bytes → Exec World Stored
  put key content = do
    on_error (λ e. wrapped ("s3 put object " <> go.quote key <> ": ") e "")
        (client.put_object bucket (object_key prefix key) content)
    return (record { size = length content; consumed = content })

  store : String → Reader → Exec World Stored
  unfolding buffered put external
  store key r = do
    on_error (λ e. wrapped "create temp file: " e "") external
    on_error (λ e. wrapped "buffer artifact: " e "") (buffered r.failure)
    on_error (λ e. wrapped "seek temp file: " e "") external
    put key r.content

  open_key : String → Exec World Bytes
  unfolding opened
  open_key key w = opened go key (client.get_object bucket (object_key prefix key) w)

  get_signed_url : String → ℕ → Exec World String
  get_signed_url key ttl =
      on_error (λ e. wrapped ("presign get object " <> go.quote key <> ": ") e "")
        (client.presign bucket (object_key prefix key) ttl)

  delete : String → Exec World (Unit {0})
  delete key =
      on_error (λ e. wrapped ("s3 delete object " <> go.quote key <> ": ") e "")
        (client.delete_object bucket (object_key prefix key))

  -- `Backend` as a `storage.Backend`.
  unfoldable pub s3 : Backend
  unfolding store open_key get_signed_url delete
  s3 = record {
    store = store;
    open_key = open_key;
    get_signed_url = get_signed_url;
    delete = delete;
  }

-- `New`: the first setting that is missing is reported.
unfoldable pub new_s3 : Platform → (S3Settings → Client) → S3Settings → Result Backend
unfolding s3
new_s3 go connect cfg =
    if cfg.bucket == ""
    then err (other "S3_BUCKET is required")
    else if cfg.region == ""
    then err (other "S3_REGION is required")
    else if cfg.access_key_id == ""
    then err (other "S3_ACCESS_KEY_ID is required")
    else if cfg.secret_access_key == ""
    then err (other "S3_SECRET_ACCESS_KEY is required")
    else if cfg.endpoint == ""
    then err (other "S3_ENDPOINT is required")
    else ok (s3 go (connect cfg) cfg.bucket cfg.prefix)
