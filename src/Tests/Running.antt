-- ===== src/Tests/Running.antt =====
-- Examples for the running service: two uploads and two promotions, one goroutine at a time.
use artifact_registry_servic.Time.{rfc3339_nano}
use artifact_registry_servic.Base.{
  All, ◌+◌, ◌≤◌, text_ltb, ℕ, String, ◌≡◌, refl, List, [], ◌∷◌, false,
}
use artifact_registry_servic.Domain.{Artifact, ChannelPointer}
use artifact_registry_servic.Auth.{Store}
use artifact_registry_servic.Exec.{ok}
use artifact_registry_servic.Auth.{allowed}
use artifact_registry_servic.Api.Middleware.{extract_bearer}
use artifact_registry_servic.Registry.Version.{normalize_version}
use artifact_registry_servic.Registry.Identifier.{validate_identifier, storage_key}
use artifact_registry_servic.Storage.Path.{join}
use artifact_registry_servic.Registry.Ids.{new_id}
use artifact_registry_servic.Registry.Service.{
  check_upload, stored_artifact, artifact_of, find_target, point, save_pointer,
}
use artifact_registry_servic.Sqlite.Artifacts.{save_artifact, get_artifact}
use artifact_registry_servic.Sqlite.Channels.{get_channel, save_channel}
use artifact_registry_servic.World.{World}
use artifact_registry_servic.Storage.{IsBackend}
use artifact_registry_servic.Storage.Local.{local, full_path}
use artifact_registry_servic.Storage.Local.Laws.{local-IsBackend}
use artifact_registry_servic.Sqlite.Channels.{find_channel, history_rows}
use artifact_registry_servic.Sqlite.Channels.Laws.{with_channel}
use artifact_registry_servic.Registry.Service.{resolve_latest, rollback}
use artifact_registry_servic.Registry.Service.Rollback.{restored}
use artifact_registry_servic.Webhooks.Dispatcher.{responded}
use artifact_registry_servic.Api.Handlers.{Handler}
use artifact_registry_servic.Server.Threads.{
  Chance, Thread, Call, uploads, promotes, announcing, Request, begin, advance,
}
use artifact_registry_servic.Server.System.{
  System, no_rows, accept, move, accepts, moves, Reach, starts, then_step,
}
use artifact_registry_servic.Server.System.Invariant.{IsNext, Step-IsNext, Reach-IsRunning}
use artifact_registry_servic.Server.System.Pointers.{Reach-resolve_latest, Reach-rollback}
use artifact_registry_servic.Server.Threads.Work.{total}
use artifact_registry_servic.Server.System.Retries.{Reach-attempts}
use artifact_registry_servic.Server.System.Settling.{goes, rests, Run-total}
use artifact_registry_servic.Tests.{plain, event, sqlite, handler, hooks, request}

-- No receivers, and no keys.
abbrev pub quiet : Handler
quiet = record handler { wh = record hooks { urls = [] } }

abbrev pub open_store : Store
open_store = record { keys = []; enabled = false }

abbrev pub chance : ℕ → Chance
chance now = record { id = "d1"; timestamp = "t"; now = now; answer = responded 200; faults = [] }

-- A request at a time, or a step of the first goroutine.
pub data Move : Type 0 where
  call : ℕ → Call → Move
  first : ℕ → Move

abbrev pub asked : Call → Request
asked c = record { authorization = ""; call = c }

abbrev pub play : Handler → List Move → List Thread → World → System
play h [] ts w = record { world = w; threads = ts }
play h (call t c ∷ ms) ts w =
    let s = accept h open_store (chance t) t (asked c) (record { world = w; threads = ts }) in
    play h ms s.threads s.world
play h (first t ∷ ms) [] w = play h ms [] w
play h (first t ∷ ms) (x ∷ xs) w =
    let s = move h open_store (chance t) [] x xs w in play h ms s.threads s.world

pub play-Reach :
    (h : Handler) (ms : List Move) (ts : List Thread) (w : World)
    → Reach h open_store (record { world = w; threads = ts })
    → Reach h open_store (play h ms ts w)
play-Reach h [] ts w r = r
play-Reach h (call t c ∷ ms) ts w r =
    play-Reach h ms _ _
      (then_step r (accepts (chance t) t (asked c) (record { world = w; threads = ts })))
play-Reach h (first t ∷ ms) [] w r = play-Reach h ms [] w r
play-Reach h (first t ∷ ms) (x ∷ xs) w r =
    play-Reach h ms _ _ (then_step r (moves (chance t) [] x xs w))

abbrev pub new_world : World
new_world = record { db = no_rows; objects = []; faults = [] }

abbrev pub script : List Move
script =
    call 1 (uploads (request "1.0.0"))
    ∷ first 2
    ∷ call 3 (uploads (request "2.0.0"))
    ∷ first 4
    ∷ call 5 (promotes "stable" "jar" "app" "1.0.0" "ci")
    ∷ first 6
    ∷ first 7
    ∷ call 8 (promotes "stable" "jar" "app" "2.0.0" "ci")
    ∷ first 9
    ∷ first 10
    ∷ []

abbrev pub final : System
final = play quiet script [] new_world

abbrev pub disk : IsBackend (local plain "/data") (full_path plain "/data")
disk = local-IsBackend plain "/data"

pub reached : Reach quiet open_store final
reached = play-Reach quiet script [] new_world (starts new_world)

-- The second promotion made the current pointer, and the first is the other row of the history.
abbrev pointing_at : ℕ → String → String → String → ChannelPointer
pointing_at at version id before = record {
  channel = "stable";
  type = "jar";
  name = "app";
  version = version;
  artifact_id = id;
  previous_version = before;
  promoted_at = at;
  promoted_by = "ci";
}

abbrev older : ChannelPointer
older = pointing_at 6 "v1.0.0" "01000000000000000000000000000000" ""

abbrev pub newer : ChannelPointer
newer = pointing_at 9 "v2.0.0" "03000000000000000000000000000000" "v1.0.0"

abbrev pub world : World
world = final.world

Reach-resolve_latest_example :
    (a : Artifact) × (resolve_latest plain "stable" "jar" "app" world ≡ (ok a, world))
    × (newer.artifact_id ≡ a.id)
unfolding begin advance allowed extract_bearer check_upload validate_identifier normalize_version
    stored_artifact artifact_of new_id storage_key join local find_target point save_pointer
    save_artifact get_artifact get_channel save_channel find_channel
Reach-resolve_latest_example =
    Reach-resolve_latest quiet open_store (full_path plain "/data") disk refl final reached plain
      "stable" "jar" "app" newer refl refl

Reach-rollback_example :
    (a : Artifact) × (older.artifact_id ≡ a.id)
    × (let ch = restored sqlite "stable" "jar" "app" 11 "ci" older a world.db in
        rollback sqlite 11 "stable" "jar" "app" "ci" world
        ≡ (ok ch, record world { db = with_channel world.db ch }))
unfolding begin advance allowed extract_bearer check_upload validate_identifier normalize_version
    stored_artifact artifact_of new_id storage_key join local find_target point save_pointer
    save_artifact get_artifact get_channel save_channel history_rows text_ltb rfc3339_nano
Reach-rollback_example =
    Reach-rollback quiet open_store (full_path plain "/data") disk refl final reached 11 "stable"
      "jar" "app" "ci" newer older [] refl refl

Step-IsNext_example :
    IsNext final (accept quiet open_store (chance 12) 12 (asked (uploads (request "3.0.0"))) final)
Step-IsNext_example =
    Step-IsNext quiet open_store (full_path plain "/data") disk refl
      (accepts (chance 12) 12 (asked (uploads (request "3.0.0"))) final)
      (Reach-IsRunning quiet open_store (full_path plain "/data") disk refl reached)

abbrev emitting : Thread
emitting = announcing event "{}" ("http://one" ∷ "http://two" ∷ [])

Run-total_example :
    1 + total handler (move handler open_store (chance 1) [] emitting [] world).threads
    ≤ total handler (emitting ∷ [])
Run-total_example = Run-total handler open_store (
    goes (chance 1) [] emitting [] world
      (rests (move handler open_store (chance 1) [] emitting [] world)))

-- An upload with receivers: its deliveries start, and one of them makes an attempt.
abbrev loud_script : List Move
loud_script =
    call 1 (uploads (request "1.0.0")) ∷ first 2 ∷ first 3 ∷ first 4 ∷ first 5 ∷ first 6 ∷ []

abbrev loud : System
loud = play handler loud_script [] new_world

Reach-attempts_example : All (λ d. d.attempt_count ≤ 3) loud.world.db.webhook_deliveries
Reach-attempts_example =
    Reach-attempts handler open_store (full_path plain "/data") disk refl
      (play-Reach handler loud_script [] new_world (starts new_world))
