-- ===== src/Server/Catalog/Steps.antt =====
-- Each step of the service, as a change of the catalog.
use artifact_registry_servic.Base.{String, ◌≡◌, ◌∷◌, some}
use artifact_registry_servic.Auth.{Store}
use artifact_registry_servic.Storage.{IsBackend}
use artifact_registry_servic.Webhooks.Dispatcher.{sqlite_store}
use artifact_registry_servic.Api.Handlers.{Handler}
use artifact_registry_servic.Server.Threads.Kept.{IsPending}
use artifact_registry_servic.Server.Threads.Changes.{advance-Change, begin-Change}
use artifact_registry_servic.Server.System.{System, given, Step, accepts, moves, restarts}
use artifact_registry_servic.Server.System.Invariant.{All-halves, IsRunning}
use artifact_registry_servic.Server.Catalog.{view, Change, rests}

module _ (h : Handler) (store : Store) (name : String → String) (bk : IsBackend h.stor name)
    (is : h.wh.store ≡ some (sqlite_store h.engine)) where
  -- The service refines the catalog. With a backend that keeps its laws and deliveries in the
  -- database, and from a state where the tables are consistent and every goroutine may go on:
  -- whatever step the service makes, the catalog that the tables show stays as it is, or changes in
  -- one of four ways. An artifact appears whose key and identifier are new; one channel gets a
  -- pointer to an artifact that is there, and its history the same pointer at its end; a pending
  -- delivery appears under a new identifier, numbered above all of its aggregate; or one delivery
  -- gets another status, count of attempts and error, and stays the same otherwise.
  pub Step-Change :
      {s s' : System}
      → Step h store s s'
      → IsRunning s
      → Change (view s.world.db) (view s'.world.db)
  Step-Change (accepts c id_time req s) r =
      begin-Change h c name bk is (given c s.world) store id_time req
  Step-Change (moves c before t after w) r =
      advance-Change h c name bk is (given c w) t
        (All-halves (IsPending w.db.artifacts) before (t ∷ after) r.pending).1.0
  Step-Change (restarts s) r = rests
