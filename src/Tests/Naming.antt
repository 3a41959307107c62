-- ===== src/Tests/Naming.antt =====
-- Examples for identifiers, keys and versions.
use artifact_registry_servic.Base.{
  String, ◌==◌, ◌≡◌, ◌≢◌, arith, refl, ◌↔◌, true, not, ◌&&◌, leb, trim_space, byte_len, all_chars,
  has_prefix,
}
use artifact_registry_servic.Exec.{ok}
use artifact_registry_servic.Registry.Identifier.{validate_identifier, storage_key}
use artifact_registry_servic.Registry.Identifier.Laws.{
  is_identifier_char, Answers, validate_identifier-Answers,
}
use artifact_registry_servic.Registry.Version.{is_semver, normalize_version}
use artifact_registry_servic.Registry.Version.Grammar.{IsSemver, is_semver_iff}
use artifact_registry_servic.Registry.Version.Normal.{is_version_text, normalize_version-IsNormal}
use artifact_registry_servic.Storage.{IsBackend}
use artifact_registry_servic.Storage.Path.{join}
use artifact_registry_servic.Storage.Local.{local, full_path}
use artifact_registry_servic.Storage.Local.Paths.{full_path_shared}
use artifact_registry_servic.Registry.Ids.{new_id}
use artifact_registry_servic.Registry.Ids.Laws.{new_id_apart}
use artifact_registry_servic.Storage.Local.Laws.{local-IsBackend}
use artifact_registry_servic.Tests.{plain}

validate_identifier-Answers_example :
    let t = trim_space "my app" in
    Answers
      (not (t == "") && (leb (byte_len t) 128 && all_chars is_identifier_char t))
      (validate_identifier plain "my app")
validate_identifier-Answers_example = validate_identifier-Answers plain "my app"

abbrev jar : String
jar = "jar"

abbrev app : String
app = "app"

abbrev version : String
version = "v1.0.0"

is_semver_iff_example : (is_semver "1.2.3-rc.1" ≡ true) ↔ IsSemver "1.2.3-rc.1"
is_semver_iff_example = is_semver_iff "1.2.3-rc.1"

normalize_version-IsNormal_example :
    (is_semver "v1.2.3" ≡ true)
    × (has_prefix "v1.2.3" "v" ≡ true)
    × (is_version_text "v1.2.3" ≡ true)
    × (normalize_version "v1.2.3" ≡ ok "v1.2.3")
unfolding normalize_version
normalize_version-IsNormal_example = normalize_version-IsNormal " 1.2.3" "v1.2.3" refl

local-IsBackend_example : IsBackend (local plain "/data") (full_path plain "/data")
local-IsBackend_example = local-IsBackend plain "/data"

-- `..` is an identifier, and a key of it leaves the base directory.
dots_accepted : validate_identifier plain ".." ≡ ok tt
unfolding validate_identifier
dots_accepted = refl

dots_escape : full_path plain "/srv/data" (storage_key ".." ".." "v1.0.0") ≡ "/v1.0.0/artifact"
unfolding join storage_key
dots_escape = refl

full_path_shared_example :
    full_path plain "/data" (storage_key "jar" ".." "v1.0.0")
    ≡ full_path plain "/data" (storage_key "npm" ".." "v1.0.0")
full_path_shared_example = full_path_shared plain "/data" refl "jar" "npm" "v1.0.0" refl refl refl

new_id_apart_example : new_id 16 ≢ new_id 1
new_id_apart_example = new_id_apart 16 1 (omega arith) (omega arith) (omega arith)
