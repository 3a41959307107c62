-- ===== src/Delivery.antt =====
-- internal/webhooks/store.go and the event types of webhook.go: delivery records.
use artifact_registry_servic.Base.{ℕ, String, Bool, true, false}

-- `EventType`.
pub data EventType : Type 0 where
  artifact_uploaded channel_promoted channel_rollback : EventType

abbrev pub event_name : EventType → String
event_name artifact_uploaded = "artifact.uploaded"
event_name channel_promoted = "channel.promoted"
event_name channel_rollback = "channel.rollback"

-- `DeliveryStatus`.
pub data Status : Type 0 where
  pending delivered failed dead_letter : Status

abbrev pub is_dead_letter : Status → Bool
is_dead_letter dead_letter = true
is_dead_letter _ = false

pub record DeliveryRecord : Type 0 where
  pub delivery_id : String
  pub event_id : String
  pub event_type : EventType
  pub target_url : String
  pub aggregate_key : String
  pub payload_json : String
  pub signature : String
  pub status : Status
  pub attempt_count : ℕ
  pub last_error : String
  pub sequence_hint : ℕ
  pub created_at : ℕ
  pub updated_at : ℕ
