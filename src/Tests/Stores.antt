-- ===== src/Tests/Stores.antt =====
-- Examples for the storage backends, on an S3 client that keeps its objects in memory.
use artifact_registry_servic.Base.{
  pos, [], ◌==◌, if◌then◌else◌, String, ◌<>◌, refl, ◌⊎◌, inl, inr, true, List, Option, none, some,
  lookup, insert, remove,
}
use artifact_registry_servic.Config.{Config, Env, load}
use artifact_registry_servic.Exec.{Exec, ok, ◌>>◌}
use artifact_registry_servic.Exec.Triple.{Triple, Triple-bind, Triple-weaken}
use artifact_registry_servic.World.{World, Db, Bytes, external}
use artifact_registry_servic.World.Laws.{At, Triple-external, external-calm}
use artifact_registry_servic.Storage.{AtBut, IsBackend}
use artifact_registry_servic.Storage.Local.{local}
use artifact_registry_servic.Storage.S3.{ClientError, Client, s3}
use artifact_registry_servic.Storage.S3.Laws.{IsFetched, IsClient, object_name, s3-IsBackend}
use artifact_registry_servic.Storage.Factory.{new_backend}
use artifact_registry_servic.Webhooks.Dispatcher.{sqlite_store, new_dispatcher, responded}
use artifact_registry_servic.Server.Threads.{Chance, uploads, Request}
use artifact_registry_servic.Server.System.{System, no_rows, accept, accepts, starts, then_step}
use artifact_registry_servic.Server.System.Invariant.{IsRunning}
use artifact_registry_servic.Server.Start.{Server, start}
use artifact_registry_servic.Server.Start.Wiring.{start-IsRunning}
use artifact_registry_servic.Tests.{plain, sqlite, codec_of, event, request, stable_db, calm_world}

abbrev at : String → String → String
at bucket key = bucket <> "/" <> key

abbrev set_object : String → Bytes → Exec World (Unit {0})
set_object name content w = (ok tt, record w { objects = insert name content w.objects })

abbrev drop_object : String → Exec World (Unit {0})
drop_object name w = (ok tt, record w { objects = remove name w.objects })

abbrev fetched : Option Bytes → ClientError ⊎ Bytes
fetched none = inl (record { text = "NoSuchKey"; no_such_key = true; status = some 404 })
fetched (some content) = inr content

abbrev in_memory : Client
in_memory = record {
  put_object = λ bucket key content. external >> set_object (at bucket key) content;
  get_object = λ bucket key w. (fetched (lookup (at bucket key) w.objects), w);
  presign = λ bucket key ttl w. (ok (at bucket key), w);
  delete_object = λ bucket key. external >> drop_object (at bucket key);
}

fetched-IsFetched : (o : Option Bytes) (w : World) → IsFetched o (fetched o, w) w
fetched-IsFetched none w = (_, refl, refl)
fetched-IsFetched (some content) w = refl

kept :
    (name : String) (db : Db) (objects : List (String × Bytes))
    → Triple (At db objects) external (λ _. At db objects) (λ _. AtBut name db objects)
kept name db objects =
    Triple-weaken external Triple-external (λ _ w h. h)
      (λ _ w h. record { tables = h.tables; others = λ j ne. rw h.stored refl })

in_memory-IsClient : IsClient in_memory at
in_memory-IsClient = record {
  put_keeps = λ bucket key content db objects.
      Triple-bind external _ (kept (at bucket key) db objects)
        (λ _. record { at = λ w h. record { tables = h.tables; stored = rw h.stored refl } });
  delete_keeps = λ bucket key db objects.
      Triple-bind external _ (kept (at bucket key) db objects)
        (λ _. record { at = λ w h. record { tables = h.tables; stored = rw h.stored refl } });
  put_calm = λ bucket key content w calm. rw (external-calm w calm) refl;
  delete_calm = λ bucket key w calm. rw (external-calm w calm) refl;
  get_calm = λ bucket key w calm. fetched-IsFetched (lookup (at bucket key) w.objects) w;
}

s3-IsBackend_example :
    IsBackend
      (s3 plain in_memory "artifacts" "prod")
      (object_name plain in_memory at in_memory-IsClient "artifacts" "prod")
s3-IsBackend_example = s3-IsBackend plain in_memory at in_memory-IsClient "artifacts" "prod"

-- Nothing is set in the environment.
abbrev defaults : Config
defaults = load (λ name. "")

-- One key that may write.
abbrev write_env : Env
write_env name = if name == "ARS_WRITE_KEYS" then "w1" else ""

abbrev started : Server
started = record {
  port = pos 8080;
  auth = (load write_env).auth;
  handler = record {
    go = plain;
    codec = codec_of event;
    engine = sqlite;
    stor = local plain "./data/artifacts";
    base_url = "http://localhost:8080";
    wh = new_dispatcher [] "" (some (sqlite_store sqlite));
  };
}

abbrev empty : System
empty = record { world = record (calm_world stable_db) { db = no_rows }; threads = [] }

abbrev chance : Chance
chance = record { id = "d1"; timestamp = "t"; now = 2; answer = responded 200; faults = [] }

abbrev upload_asked : Request
upload_asked = record { authorization = "Bearer w1"; call = uploads (request "1.0.0") }

start-IsRunning_example :
    IsRunning (accept started.handler started.auth chance 1 upload_asked empty)
unfolding start new_backend load external new_dispatcher
start-IsRunning_example =
    start-IsRunning plain (codec_of event) sqlite (λ s. in_memory) (λ s. at)
      (λ s. in_memory-IsClient) write_env (calm_world stable_db) started refl
      (then_step (starts (calm_world stable_db)) (accepts chance 1 upload_asked empty))
