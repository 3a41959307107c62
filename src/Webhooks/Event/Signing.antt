-- ===== src/Webhooks/Event/Signing.antt =====
-- The signing contract of internal/webhooks/webhook.go, from a receiver's side.
use artifact_registry_servic.Base.{String, ◌==◌, Bool, false}
use artifact_registry_servic.Exec.{ok, err}
use artifact_registry_servic.World.{Bytes}
use artifact_registry_servic.Platform.{Platform}
use artifact_registry_servic.Webhooks.Event.{Event, Codec, compute_signature}

-- The check that the comment on `Event` tells receivers to make: unmarshal the body, zero the
-- signature, marshal again, and compare the HMAC of that with the X-Signature header.
unfoldable pub accepts : Platform → Codec → Bytes → String → String → Bool
accepts go codec secret header body = elim (codec.unmarshal_event body) [
  | err x ↦ false
  | ok e ↦ elim (codec.marshal_event (record e { signature = "" })) [
    | err x ↦ false
    | ok text ↦ header == compute_signature go secret text
  ]
]

module _ (go : Platform) (codec : Codec) (secret : Bytes) (e : Event) where
  abbrev with_signature : String → Event
  with_signature unsigned = record e { signature = compute_signature go secret unsigned }
