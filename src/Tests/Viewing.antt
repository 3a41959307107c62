-- ===== src/Tests/Viewing.antt =====
-- The catalog of a running service.
use artifact_registry_servic.Base.{◌≡◌, refl, [], ◌∷◌, List, some, select}
use artifact_registry_servic.Delivery.{channel_promoted}
use artifact_registry_servic.Api.Middleware.{extract_bearer}
use artifact_registry_servic.Auth.{allowed}
use artifact_registry_servic.Registry.Identifier.{validate_identifier, storage_key}
use artifact_registry_servic.Registry.Version.{normalize_version}
use artifact_registry_servic.Registry.Service.{
  check_upload, stored_artifact, artifact_of, find_target, point, save_pointer,
}
use artifact_registry_servic.Registry.Ids.{new_id}
use artifact_registry_servic.Sqlite.Artifacts.{save_artifact, get_artifact}
use artifact_registry_servic.Sqlite.Channels.{get_channel, save_channel, find_channel, is_channel}
use artifact_registry_servic.Storage.Path.{join}
use artifact_registry_servic.Storage.Local.{local, full_path}
use artifact_registry_servic.Server.Threads.{saving, uploads, promotes, begin, advance}
use artifact_registry_servic.Server.System.{System, move, moves, starts}
use artifact_registry_servic.Server.System.Invariant.{Reach-IsRunning}
use artifact_registry_servic.Server.Catalog.{view, Change}
use artifact_registry_servic.Server.Catalog.Steps.{Step-Change}
use artifact_registry_servic.Server.Catalog.Latest.{newest, Reach-newest}
use artifact_registry_servic.Tests.{plain, request}
use artifact_registry_servic.Tests.Running.{
  quiet, open_store, chance, Move, call, first, play, play-Reach, new_world, reached, disk, newer,
  world,
}

-- A promotion that has made its pointer.
abbrev started : List Move
started =
    call 1 (uploads (request "1.0.0"))
    ∷ first 2
    ∷ call 3 (uploads (request "2.0.0"))
    ∷ first 4
    ∷ call 5 (promotes "stable" "jar" "app" "1.0.0" "ci")
    ∷ first 6
    ∷ first 7
    ∷ call 8 (promotes "stable" "jar" "app" "2.0.0" "ci")
    ∷ first 9
    ∷ []

abbrev before : System
before = play quiet started [] new_world

abbrev after : System
after = move quiet open_store (chance 10) [] (saving channel_promoted newer) [] before.world

Step-Change_example : Change (view before.world.db) (view after.world.db)
unfolding begin advance allowed extract_bearer check_upload validate_identifier normalize_version
    stored_artifact artifact_of new_id storage_key join local find_target point save_pointer
    save_artifact get_artifact get_channel save_channel find_channel
Step-Change_example =
    Step-Change quiet open_store (full_path plain "/data") disk refl
      (moves (chance 10) [] (saving channel_promoted newer) [] before.world)
      (Reach-IsRunning quiet open_store (full_path plain "/data") disk refl
        (play-Reach quiet started [] new_world (starts new_world)))

Reach-newest_example :
    find_channel world.db "stable" "jar" "app"
    ≡ newest (select (is_channel "stable" "jar" "app") world.db.channel_history)
Reach-newest_example =
    Reach-newest quiet open_store (full_path plain "/data") disk refl reached "stable" "jar" "app"

-- Both sides are the second promotion.
newest_run : newest (select (is_channel "stable" "jar" "app") world.db.channel_history) ≡ some newer
unfolding begin advance allowed extract_bearer check_upload validate_identifier normalize_version
    stored_artifact artifact_of new_id storage_key join local find_target point save_pointer
    save_artifact get_artifact get_channel save_channel find_channel
newest_run = refl
