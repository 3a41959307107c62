-- ===== src/Tests/Keeping.antt =====
-- Files of a running service, and reads with steps between them.
use mathlib.Core.Bool.{true≢false}
use artifact_registry_servic.Base.{
  ℕ, ◌==◌, ◌≡◌, ◌≢◌, refl, ap, [], ◌∷◌, All, String, length, hex_text,
}
use artifact_registry_servic.Domain.{Artifact}
use artifact_registry_servic.Exec.{ok}
use artifact_registry_servic.World.{Bytes}
use artifact_registry_servic.Api.Middleware.{extract_bearer}
use artifact_registry_servic.Auth.{allowed}
use artifact_registry_servic.Registry.Ids.{new_id}
use artifact_registry_servic.Registry.Identifier.{validate_identifier, storage_key}
use artifact_registry_servic.Registry.Version.{normalize_version}
use artifact_registry_servic.Registry.Service.{
  check_upload, stored_artifact, artifact_of, find_target, point, save_pointer,
}
use artifact_registry_servic.Sqlite.Artifacts.{save_artifact, get_artifact, find_artifact}
use artifact_registry_servic.Sqlite.Channels.{get_channel, save_channel, find_channel}
use artifact_registry_servic.Storage.Path.{join}
use artifact_registry_servic.Storage.Local.{local, full_path}
use artifact_registry_servic.Server.Threads.{uploads, inserting, begin, advance}
use artifact_registry_servic.Server.System.{System, accept, move}
use artifact_registry_servic.Server.System.Files.{Reach-files}
use artifact_registry_servic.Server.System.Reading.{stays, goes, resolve_between}
use artifact_registry_servic.Server.System
use artifact_registry_servic.Server.Safekeeping.Runs.{
  Separate, starts, accepts, moves, Separate-open,
}
use artifact_registry_servic.Server.Safekeeping.Steps.{IsUnused}
use artifact_registry_servic.Tests.{plain, request, checked}
use artifact_registry_servic.Tests.Running.{
  quiet, open_store, chance, asked, new_world, final, reached, disk, newer,
}

abbrev record_at : ℕ → String → Artifact
record_at t version =
    artifact_of plain t t (checked version) (record { size = 2; consumed = 1 ∷ 2 ∷ [] })

Reach-files_example :
    (◌≡◌ {A = String} "jar" "jar")
    × (◌≡◌ {A = String} "app" "app")
    × (◌≡◌ {A = String} "v1.0.0" "v1.0.0")
unfolding begin advance allowed extract_bearer check_upload validate_identifier normalize_version
    stored_artifact artifact_of new_id storage_key join local find_target point save_pointer
    save_artifact get_artifact get_channel save_channel find_artifact
Reach-files_example =
    Reach-files quiet open_store (full_path plain "/data") disk refl reached plain "/data" refl
      "jar" "app" "v1.0.0" "jar" "app" "v1.0.0" (record_at 1 "v1.0.0") (record_at 1 "v1.0.0") refl
      refl refl refl refl refl refl

-- An upload between the two reads.
abbrev grown : System
grown = accept quiet open_store (chance 12) 12 (asked (uploads (request "3.0.0"))) final

resolve_between_example :
    (a : Artifact) × (get_artifact "jar" "app" "v2.0.0" grown.world ≡ (ok a, grown.world))
    × (newer.artifact_id ≡ a.id)
unfolding begin advance allowed extract_bearer check_upload validate_identifier normalize_version
    stored_artifact artifact_of new_id storage_key join local find_target point save_pointer
    save_artifact get_artifact get_channel save_channel find_channel
resolve_between_example =
    resolve_between quiet open_store (full_path plain "/data") disk refl reached
      (goes stays (System.Step.accepts (chance 12) 12 (asked (uploads (request "3.0.0"))) final))
      "stable" "jar" "app" newer refl refl

-- Two uploads, the second while the first has not saved its row.
abbrev started : System
started =
    accept quiet open_store (chance 1) 1 (asked (uploads (request "1.0.0")))
      (record { world = new_world; threads = [] })

abbrev both : System
both = accept quiet open_store (chance 2) 2 (asked (uploads (request "2.0.0"))) started

abbrev saved : System
saved =
    move quiet open_store (chance 3) [] (inserting (record_at 1 "v1.0.0"))
      (inserting (record_at 2 "v2.0.0") ∷ []) both.world

first-IsUnused : IsUnused (full_path plain "/data") [] [] (uploads (request "1.0.0"))
first-IsUnused = (tt, tt)

second-IsUnused : IsUnused (full_path plain "/data") [] started.threads (uploads (request "2.0.0"))
unfolding begin allowed extract_bearer check_upload validate_identifier normalize_version
    stored_artifact artifact_of new_id storage_key join local
second-IsUnused = (tt, (other, tt))
  where
    other : ◌≢◌ {A = String} "/data/jar/app/v1.0.0/artifact" "/data/jar/app/v2.0.0/artifact"
    other = λ e. true≢false (ap (λ s. s == "/data/jar/app/v1.0.0/artifact") e)

separated : Separate quiet open_store (full_path plain "/data") saved
unfolding begin allowed extract_bearer check_upload validate_identifier normalize_version
    stored_artifact artifact_of new_id storage_key join local
separated =
    moves (chance 3) [] (inserting (record_at 1 "v1.0.0")) (inserting (record_at 2 "v2.0.0") ∷ [])
      both.world
      (accepts (chance 2) 2 (asked (uploads (request "2.0.0")))
        (accepts (chance 1) 1 (asked (uploads (request "1.0.0"))) (starts new_world) first-IsUnused)
        second-IsUnused)

Separate-open_example :
    All
      (λ a.
        (content : Bytes) × ((local plain "/data").open_key a.storage_key saved.world
          ≡ (ok content, saved.world))
        × (a.size_bytes ≡ length content)
        × (a.sha256 ≡ hex_text (plain.sha256 content)))
      saved.world.db.artifacts
unfolding begin allowed extract_bearer check_upload validate_identifier normalize_version
    stored_artifact artifact_of new_id storage_key join local advance save_artifact
Separate-open_example =
    Separate-open quiet open_store (full_path plain "/data") disk refl separated refl

one_row : length saved.world.db.artifacts ≡ 1
unfolding begin allowed extract_bearer check_upload validate_identifier normalize_version
    stored_artifact artifact_of new_id storage_key join local advance save_artifact
one_row = refl
