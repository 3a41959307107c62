-- ===== src/Storage/Factory.antt =====
-- internal/storage/factory.go: which backend a configuration asks for.
pub mod Laws
use artifact_registry_servic.Base.{String, ◌<>◌, ◌==◌, ◌||◌, to_lower, if◌then◌else◌}
use artifact_registry_servic.Domain.Errors.{wrapped, other}
use artifact_registry_servic.Exec.{◌>>=◌, ◌>>◌, Exec, return, fail, lift, on_error}
use artifact_registry_servic.World.{World, external}
use artifact_registry_servic.Platform.{Platform}
use artifact_registry_servic.Config.{Config}
use artifact_registry_servic.Storage.{Backend}
use artifact_registry_servic.Storage.Local.{local}
use artifact_registry_servic.Storage.S3.{Client, S3Settings, new_s3}

-- `local.New`: the directory is made.
new_local : Platform → String → Exec World Backend
unfolding external local
new_local go base_dir = do
  on_error (λ e. wrapped ("create storage dir " <> go.quote base_dir <> ": ") e "") external
  return (local go base_dir)

abbrev settings : Config → S3Settings
settings cfg = record {
  endpoint = cfg.s3.endpoint;
  region = cfg.s3.region;
  bucket = cfg.s3.bucket;
  access_key_id = cfg.s3.access_key_id;
  secret_access_key = cfg.s3.secret_access_key;
  force_path_style = cfg.s3.force_path_style;
  prefix = cfg.s3.prefix;
}

unfoldable pub new_backend : Platform → (S3Settings → Client) → Config → Exec World Backend
unfolding new_local new_s3 to_lower
new_backend go connect cfg =
    let kind = to_lower cfg.storage_backend in
    if kind == "s3"
    then lift (new_s3 go connect (settings cfg))
    else if kind == "" || kind == "local"
    then new_local go cfg.storage_dir
    else fail (
        other (
          "unknown STORAGE_BACKEND "
          <> go.quote cfg.storage_backend
          <> ": must be \"local\" or \"s3\""))
