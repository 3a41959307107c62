-- ===== src/Api/Reply.antt =====
-- What a handler sends, and internal/api/handlers.go's `writeJSON` and `writeError`.
use artifact_registry_servic.Base.{ℕ, String, List, []}
use artifact_registry_servic.Domain.{Artifact, ChannelPointer}
use artifact_registry_servic.World.{World, Bytes}
use artifact_registry_servic.Webhooks.Dispatcher.{Task}

-- The body, before `json.Encode`; `stream` is the file itself with its headers, `redirect` the
-- location.
pub data Body : Type 0 where
  problem : (error : String) → Body
  artifact_body : Artifact → Body
  artifact_with_url : Artifact → (download_url : String) → Body
  artifacts_body : List Artifact → Body
  channel_body : ChannelPointer → Body
  channels_body : List ChannelPointer → Body
  health_body : (service version : String) → Body
  replaying : (delivery_id : String) → Body
  redirect : (location : String) → Body
  stream : (content_type sha256 version : String) → Bytes → Body

pub record Reply : Type 0 where
  pub status : ℕ
  pub body : Body

-- A handler answers always; it may start deliveries.
abbrev pub Served : Type 0
Served = Reply × List Task × World

abbrev pub write_json : ℕ → Body → World → Served
write_json status body w = (record { status = status; body = body }, [], w)

abbrev pub write_error : ℕ → String → World → Served
write_error status msg = write_json status (problem msg)
