-- ===== src/Api/Router.antt =====
-- internal/api/router.go: the routes, and the scope that each requires. How chi matches a path is
-- chi's; a request comes here with its route.
pub mod Guards
use artifact_registry_servic.Base.{String, List, [], ◌∷◌, Option, none, some}
use artifact_registry_servic.Auth.{Store, scope_read, scope_write, scope_admin}
use artifact_registry_servic.World.{World}
use artifact_registry_servic.Api.Reply.{Served}
use artifact_registry_servic.Api.Middleware.{require_scope}

pub data Method : Type 0 where
  get post : Method

-- The handler that a route ends in.
pub data Endpoint : Type 0 where
  health upload list_versions resolve_latest get_version download : Endpoint
  promote rollback channel_state channel_history replay_webhook : Endpoint

pub record Route : Type 0 where
  pub method : Method
  pub pattern : String
  pub scope : Option String
  pub endpoint : Endpoint

abbrev pub route : Method → String → Option String → Endpoint → Route
route method pattern scope endpoint = record {
  method = method;
  pattern = pattern;
  scope = scope;
  endpoint = endpoint;
}

-- `NewRouter`.
abbrev pub routes : List Route
routes =
    route get "/v1/health" none health
    ∷ route post "/v1/artifacts/{type}/{name}/" (some scope_write) upload
    ∷ route get "/v1/artifacts/{type}/{name}/versions" (some scope_read) list_versions
    ∷ route get "/v1/artifacts/{type}/{name}/latest" (some scope_read) resolve_latest
    ∷ route get "/v1/artifacts/{type}/{name}/{version}" (some scope_read) get_version
    ∷ route get "/v1/artifacts/{type}/{name}/{version}/download" (some scope_read) download
    ∷ route post "/v1/channels/{channel}/promote/{type}/{name}/{version}" (some scope_admin) promote
    ∷ route post "/v1/channels/{channel}/rollback/{type}/{name}" (some scope_admin) rollback
    ∷ route get "/v1/channels/{channel}/state/{type}/{name}" (some scope_read) channel_state
    ∷ route get "/v1/channels/{channel}/history/{type}/{name}" (some scope_read) channel_history
    ∷ route post "/v1/admin/webhooks/{delivery_id}/replay" (some scope_admin) replay_webhook
    ∷ []

-- The middleware of a route around its handler.
unfoldable pub guarded : Store → Option String → (World → Served) → String → World → Served
unfolding require_scope
guarded store none next header = next
guarded store (some scope) next header = require_scope store scope next header
