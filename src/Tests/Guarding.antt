-- ===== src/Tests/Guarding.antt =====
-- Examples for keys, scopes and routes.
use artifact_registry_servic.Base.{
  negsuc, arith, ◌-◌, ◌*◌, ◌^◌, ◌≡◌, refl, ◌⊎◌, true, ◌||◌, ◌==◌, [], ◌∷◌, All, select,
  if◌then◌else◌, none, trim_space,
}
use artifact_registry_servic.Auth.{Store, scope_read, scope_write, scope_admin, allowed}
use artifact_registry_servic.Config.{Env, load, split_keys}
use artifact_registry_servic.Config.Access.{has, auth_off, allowed-load_iff}
use artifact_registry_servic.Exec.{ok}
use artifact_registry_servic.Registry.Version.{is_semver}
use artifact_registry_servic.Registry.Version.Grammar.{IsSemver, is_semver_iff}
use artifact_registry_servic.Api.Middleware.{extract_bearer}
use artifact_registry_servic.Api.Limits.{max_bytes, max_bytes_wraps}
use artifact_registry_servic.Api.Router.{routes}
use artifact_registry_servic.Api.Router.Guards.{is_post, IsRefused, posts-IsRefused}
use artifact_registry_servic.Api.Handlers.{Form, handle_promote, handle_upload}
use artifact_registry_servic.Api.Handlers.Refusals.{IsRefusal, invalid_version-answers}
use artifact_registry_servic.Api.Reads.{handle_health, handle_get_version, handle_download}
use artifact_registry_servic.Api.Handlers.Answers.{IsFailed, IsAnnounced, promote-answers}
use artifact_registry_servic.Tests.{calm_world, stable_db, handler, fresh}

abbrev keys : Store
keys = record {
  keys =
      record { key = "r1"; scopes = scope_read ∷ [] }
      ∷ record { key = "w1"; scopes = scope_write ∷ scope_read ∷ [] }
      ∷ [];
  enabled = true;
}

abbrev env : Env
env name =
    if name == "ARS_ADMIN_KEYS"
    then "root , boss"
    else if name == "ARS_READ_KEYS"
    then "guest"
    else ""

allowed-load_iff_example :
    (allowed (load env).auth "boss" scope_admin
      ≡ (auth_off env "boss" || has "boss" (split_keys (env "ARS_ADMIN_KEYS"))))
    × (allowed (load env).auth "boss" scope_write ≡ (
        auth_off env "boss"
        || has "boss" (split_keys (env "ARS_ADMIN_KEYS"))
        || has "boss" (split_keys (env "ARS_WRITE_KEYS"))))
    × (allowed (load env).auth "boss" scope_read ≡ (
        auth_off env "boss"
        || has "boss" (split_keys (env "ARS_ADMIN_KEYS"))
        || has "boss" (split_keys (env "ARS_WRITE_KEYS"))
        || has "boss" (split_keys (env "ARS_READ_KEYS"))))
allowed-load_iff_example = allowed-load_iff env "boss"

posts-IsRefused_example :
    All (IsRefused keys "Bearer r1" handle_health (calm_world stable_db)) (select is_post routes)
unfolding allowed extract_bearer
posts-IsRefused_example = posts-IsRefused keys "Bearer r1" handle_health (calm_world stable_db) refl

promote-answers_example :
    let w = calm_world stable_db in
    let s = handle_promote handler fresh 30 "stable" "jar" "app" "1.0.0" "ci" w in
    IsFailed handler fresh 30 "stable" "jar" "app" "1.0.0" "ci" w.db w.objects s
    ⊎ IsAnnounced handler fresh 30 "stable" "jar" "app" "1.0.0" "ci" w.db w.objects w.faults s
promote-answers_example =
    promote-answers handler fresh 30 "stable" "jar" "app" "1.0.0" "ci" stable_db
      (calm_world stable_db).objects (calm_world stable_db)
      (record { tables = refl; stored = refl })

-- A form that asks for the version `latest`.
abbrev latest_form : Form
latest_form = record {
  file = ok (record { content = 1 ∷ []; failure = none }, "");
  version = "latest";
  metadata = ok [];
}

latest_outside : ¬ IsSemver (trim_space "latest")
unfolding is_semver trim_space
latest_outside h = let e : is_semver "latest" ≡ true = (is_semver_iff "latest").1 h in cc

invalid_version-answers_example :
    let w = calm_world stable_db in
    IsRefusal 400 w (handle_upload handler fresh 20 30 "jar" "app" (ok latest_form) w)
    × IsRefusal 400 w (handle_promote handler fresh 30 "stable" "jar" "app" "latest" "ci" w)
    × IsRefusal 500 w (handle_get_version handler "jar" "app" "latest" w)
    × IsRefusal 500 w (handle_download handler "jar" "app" "latest" w)
invalid_version-answers_example =
    invalid_version-answers handler fresh 20 30 "stable" "jar" "app" "ci" latest_form
      (calm_world stable_db) latest_outside

abbrev huge : Env
huge name = if name == "MAX_UPLOAD_MB" then "8796093022208" else ""

max_bytes_wraps_example : max_bytes (load huge) ≡ negsuc (2 ^ 64 - 1 - 8796093022208 * 2 ^ 20)
unfolding load
max_bytes_wraps_example = max_bytes_wraps huge 8796093022208 refl (omega arith)
