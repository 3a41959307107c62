-- ===== src/Api/Middleware.antt =====
-- internal/api/middleware.go: the scope that a route requires. The log line of `requestLogger` is
-- left out: it changes nothing of the answer.
use artifact_registry_servic.Base.{
  String, ◌<>◌, not, ◌&&◌, Option, none, some, cut_prefix, trim_space, if◌then◌else◌,
}
use artifact_registry_servic.Auth.{Store, allowed, authenticated}
use artifact_registry_servic.World.{World}
use artifact_registry_servic.Api.Reply.{Served, write_error}

abbrev bearer : Option String → String
bearer (some after) = trim_space after
bearer none = ""

-- `extractBearer`, from the Authorization header.
unfoldable pub extract_bearer : String → String
unfolding cut_prefix trim_space
extract_bearer header = bearer (cut_prefix header "Bearer ")

unfoldable pub require_scope : Store → String → (World → Served) → String → World → Served
require_scope store scope next header w =
    let key = extract_bearer header in
    if not (allowed store key scope)
    then if store.enabled && not (authenticated store key)
      then write_error 401 "missing or invalid API key" w
      else write_error 403 ("insufficient scope — required: " <> scope) w
    else next w
