-- ===== src/Tests/Ending.antt =====
-- A delivery that the end of the process leaves behind.
use artifact_registry_servic.Base.{◌≡◌, refl, true, ◌||◌, List, [], ◌∷◌, All, any, some, length}
use artifact_registry_servic.World.{World}
use artifact_registry_servic.Api.Handlers.{Handler}
use artifact_registry_servic.Server.Threads.Covered.{is_final, works_on}
use artifact_registry_servic.Server.System.Rest
use artifact_registry_servic.Server.System.Rest.{Alive, Alive-final}
use artifact_registry_servic.Delivery.{failed, DeliveryRecord}
use artifact_registry_servic.Api.Middleware.{extract_bearer}
use artifact_registry_servic.Auth.{allowed}
use artifact_registry_servic.Registry.Ids.{new_id}
use artifact_registry_servic.Registry.Identifier.{validate_identifier, storage_key}
use artifact_registry_servic.Registry.Version.{normalize_version}
use artifact_registry_servic.Registry.Service.{check_upload, stored_artifact, artifact_of}
use artifact_registry_servic.Sqlite.Artifacts.{save_artifact}
use artifact_registry_servic.Storage.Path.{join}
use artifact_registry_servic.Storage.Local.{local}
use artifact_registry_servic.Sqlite.Deliveries.{find_delivery, create_delivery, update_delivery}
use artifact_registry_servic.Webhooks.Replay.{replay_check}
use artifact_registry_servic.Storage.Local.{full_path}
use artifact_registry_servic.Server.Threads.{Chance, Thread, uploads, replays, begin, advance}
use artifact_registry_servic.Server.System.{System, accept}
use artifact_registry_servic.Server.System.Stranded.{stays, accepts, restart_strands}
use artifact_registry_servic.Tests.{plain, handler, request, record_in, db_with, calm_world}
use artifact_registry_servic.Tests.Running.{
  open_store, chance, asked, disk, Move, call, first, play, new_world,
}

abbrev left : DeliveryRecord
left = record_in failed

abbrev ended : System
ended = record { world = calm_world (db_with [] [] failed); threads = [] }

abbrev later : Chance
later = record (chance 20) { id = "d2" }

-- A request to replay it.
abbrev asked_for : System
asked_for = accept handler open_store later 20 (asked (replays "d1")) ended

restart_strands_example : find_delivery asked_for.world.db "d1" ≡ some left
unfolding find_delivery begin allowed extract_bearer replay_check
restart_strands_example =
    restart_strands handler open_store "d1" (full_path plain "/data") disk refl left refl ended
      asked_for refl (accepts later 20 (asked (replays "d1")) stays refl)

play-Alive :
    (h : Handler) (ms : List Move) (ts : List Thread) (w : World)
    → Alive h open_store (record { world = w; threads = ts })
    → Alive h open_store (play h ms ts w)
play-Alive h [] ts w r = r
play-Alive h (call t c ∷ ms) ts w r =
    play-Alive h ms _ _ (Rest.Alive.accepts (chance t) t (asked c) r)
play-Alive h (first t ∷ ms) [] w r = play-Alive h ms [] w r
play-Alive h (first t ∷ ms) (x ∷ xs) w r =
    play-Alive h ms _ _ (Rest.Alive.moves (chance t) [] x xs w r refl refl)

-- An upload, its event, and two deliveries, to their end.
abbrev whole : List Move
whole =
    call 1 (uploads (request "1.0.0"))
    ∷ first 2
    ∷ first 3
    ∷ first 4
    ∷ first 5
    ∷ first 6
    ∷ first 7
    ∷ []

abbrev over : System
over = play handler whole [] new_world

Alive-final_example :
    All
      (λ d. (is_final d.status || any (works_on d.delivery_id) over.threads) ≡ true)
      over.world.db.webhook_deliveries
Alive-final_example =
    Alive-final handler open_store (full_path plain "/data") disk refl 0 (1000 ∷ 5000 ∷ []) refl
      (play-Alive handler whole [] new_world (Rest.Alive.starts new_world))

at_rest : (length over.world.db.webhook_deliveries ≡ 1) × (over.threads ≡ [])
unfolding begin advance allowed extract_bearer check_upload validate_identifier normalize_version
    stored_artifact artifact_of new_id storage_key join local save_artifact create_delivery
    update_delivery
at_rest = (refl, refl)
