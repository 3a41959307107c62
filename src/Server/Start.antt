-- ===== src/Server/Start.antt =====
-- cmd/server/main.go up to the listener, and `New` of internal/repository/sqlite/sqlite.go. A
-- failure ends the process before it listens. What the listener and the signals do is left out.
pub mod Wiring
use artifact_registry_servic.Base.{ℤ, some}
use artifact_registry_servic.Domain.Errors.{wrapped}
use artifact_registry_servic.Exec.{◌>>=◌, ◌>>◌, Exec, return, on_error}
use artifact_registry_servic.World.{World, Engine, external}
use artifact_registry_servic.Platform.{Platform}
use artifact_registry_servic.Auth.{Store}
use artifact_registry_servic.Config.{Config, Env, load}
use artifact_registry_servic.Storage.{Backend}
use artifact_registry_servic.Storage.S3.{Client, S3Settings}
use artifact_registry_servic.Storage.Factory.{new_backend}
use artifact_registry_servic.Webhooks.Event.{Codec}
use artifact_registry_servic.Webhooks.Dispatcher.{sqlite_store, new_dispatcher}
use artifact_registry_servic.Api.Handlers.{Handler}

-- What listens: the port, the keys, and what the handlers share.
pub record Server : Type 0 where
  pub port : ℤ
  pub auth : Store
  pub handler : Handler

-- `New`: opening the file and the two scripts of CREATE TABLE IF NOT EXISTS, which leave the rows
-- that there are.
open_database : Exec World (Unit {0})
unfolding external
open_database = do
  on_error (λ e. wrapped "open sqlite: " e "") external
  on_error (λ e. wrapped "apply schema: " e "") external
  on_error (λ e. wrapped "apply webhook schema: " e "") external

module _ (go : Platform) (codec : Codec) (engine : Engine) (connect : S3Settings → Client) where
  -- `service.New`, `NewDispatcher` and `NewRouter`; the repository is the delivery store.
  server_of : Config → Backend → Server
  unfolding new_dispatcher
  server_of cfg stor = record {
    port = cfg.port;
    auth = cfg.auth;
    handler = record {
      go = go;
      codec = codec;
      engine = engine;
      stor = stor;
      base_url = cfg.base_url;
      wh = new_dispatcher cfg.webhook_urls cfg.webhook_secret (some (sqlite_store engine));
    };
  }

  start_with : Config → Exec World Server
  unfolding server_of open_database
  start_with cfg = do stor ← new_backend go connect cfg; open_database; return (server_of cfg stor)

  unfoldable pub start : Env → Exec World Server
  unfolding start_with load
  start env = start_with (load env)
