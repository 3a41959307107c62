-- ===== src/Webhooks/Event.antt =====
-- internal/webhooks/webhook.go and signer.go: the event envelope and its signature.
pub mod Signing
use artifact_registry_servic.Base.{ℕ, String, hex_text, utf8_bytes}
use artifact_registry_servic.Delivery.{EventType}
use artifact_registry_servic.Exec.{Result}
use artifact_registry_servic.World.{Bytes}
use artifact_registry_servic.Platform.{Platform}

-- `ArtifactUploadedData` and `ChannelEventData`.
pub data EventData : Type 0 where
  uploaded : (artifact_id version sha256 : String) (size_bytes : ℕ) → EventData
  moved : (channel from_version to_version : String) → EventData

-- `Event`; the data are JSON text already.
pub record Event : Type 0 where
  pub event_id : String
  pub event_type : EventType
  pub timestamp : String
  pub aggregate_key : String
  pub payload : String
  pub signature : String

-- `json.Marshal` on the data of an event and on its envelope, and `json.Unmarshal` of an envelope.
pub record Codec : Type 0 where
  pub marshal_data : EventData → Result String
  pub marshal_event : Event → Result String
  pub unmarshal_event : String → Result Event

-- `computeSignature`.
unfoldable pub compute_signature : Platform → Bytes → String → String
unfolding hex_text utf8_bytes
compute_signature go secret body = hex_text (go.hmac_sha256 secret (utf8_bytes body))
