-- ===== src/Webhooks/Emit.antt =====
-- `Emit` of internal/webhooks/dispatcher.go. Every `go d.deliver(…)` is a `Task` that the function
-- returns; UUIDs and the readings of the clock are arguments.
pub mod Tasks
use artifact_registry_servic.Base.{ℕ, ◌+◌, String, List, [], ◌∷◌, Option, none, some}
use artifact_registry_servic.Delivery.{EventType, pending, DeliveryRecord}
use artifact_registry_servic.Exec.{Result, ok, err}
use artifact_registry_servic.World.{World, Bytes}
use artifact_registry_servic.Platform.{Platform}
use artifact_registry_servic.Sqlite.Deliveries
use artifact_registry_servic.Webhooks.Event.{EventData, Event, Codec, compute_signature}
use artifact_registry_servic.Webhooks.Dispatcher.{DeliveryStore, Dispatcher, Task}

-- The record that `Emit` creates for a delivery.
abbrev pub record_of : ℕ → Task → String → DeliveryRecord
record_of now task aggregate_key = record {
  delivery_id = task.delivery_id;
  event_id = task.event_id;
  event_type = task.event_type;
  target_url = task.url;
  aggregate_key = aggregate_key;
  payload_json = task.body;
  signature = task.sig;
  status = pending;
  attempt_count = 0;
  last_error = "";
  sequence_hint = 0;
  created_at = now;
  updated_at = 0;
}

-- A failure to persist is logged, and the delivery goes on without a record.
unfoldable pub persist_new : Option DeliveryStore → ℕ → DeliveryRecord → World → World
persist_new none now rec w = w
persist_new (some store) now rec w = (store.create_delivery now rec w).1

-- The loop of `Emit` over the URLs; `ids i` and `now i` are the UUID and the time of the `i`-th.
unfoldable pub emit_urls :
    Option DeliveryStore
    → (ℕ → String)
    → (ℕ → ℕ)
    → Event
    → String
    → ℕ
    → List String
    → World
    → List Task × World
unfolding persist_new
emit_urls store ids now e body i [] w = ([], w)
emit_urls store ids now e body i (url ∷ urls) w =
    let task : Task = record {
      delivery_id = ids i;
      event_id = e.event_id;
      event_type = e.event_type;
      url = url;
      body = body;
      sig = e.signature;
    } in
    let w1 = persist_new store (now i) (record_of (now i) task e.aggregate_key) w in
    let (tasks, w2) = emit_urls store ids now e body (i + 1) urls w1 in (task ∷ tasks, w2)

abbrev pub unsigned_event : EventType → String → String → String → String → Event
unsigned_event event_type event_id timestamp aggregate_key payload = record {
  event_id = event_id;
  event_type = event_type;
  timestamp = timestamp;
  aggregate_key = aggregate_key;
  payload = payload;
  signature = "";
}

-- The envelope and its body, signed; an error of `json.Marshal` ends `Emit` with a log line.
unfoldable pub sign_event : Platform → Codec → Bytes → Event → Result (Event × String)
unfolding compute_signature
sign_event go codec secret e = elim (codec.marshal_event e) [
  | err x ↦ err x
  | ok unsigned ↦
      let signed = record e { signature = compute_signature go secret unsigned } in
      elim (codec.marshal_event signed) [ err x ↦ err x | ok body ↦ ok (signed, body) ]
]

emit_signed :
    Dispatcher → (ℕ → String) → (ℕ → ℕ) → Result (Event × String) → World → List Task × World
unfolding emit_urls
emit_signed d ids now (err x) w = ([], w)
emit_signed d ids now (ok (e, body)) w = emit_urls d.store ids now e body 0 d.urls w

-- The signed envelope of an event, from the marshaled data.
unfoldable pub envelope :
    Platform
    → Codec
    → Bytes
    → EventType
    → String
    → String
    → String
    → Result String
    → Result (Event × String)
unfolding sign_event
envelope go codec secret event_type aggregate_key event_id timestamp (err x) = err x
envelope go codec secret event_type aggregate_key event_id timestamp (ok raw) =
    sign_event go codec secret (unsigned_event event_type event_id timestamp aggregate_key raw)

unfoldable pub emit :
    Platform
    → Codec
    → Dispatcher
    → EventType
    → String
    → EventData
    → String
    → String
    → (ℕ → String)
    → (ℕ → ℕ)
    → World
    → List Task × World
unfolding emit_signed envelope
emit go codec d event_type aggregate_key content event_id timestamp ids now w = elim d.urls [
  | [] ↦ ([], w)
  | url ∷ urls ↦
      emit_signed d ids now
        (envelope go codec d.secret event_type aggregate_key event_id timestamp
          (codec.marshal_data content))
        w
]
