-- ===== src/Webhooks/Replay.antt =====
-- `Replay` of internal/webhooks/dispatcher.go. The delivery that it starts is the `Task` that it
-- returns.
pub mod Repeats
pub mod Outcomes
use artifact_registry_servic.Base.{ℕ, String, Option, none, some, if◌then◌else◌}
use artifact_registry_servic.Domain.Errors.{sentinel, wrapped, other, not_dead_letter}
use artifact_registry_servic.Delivery.{pending, is_dead_letter, DeliveryRecord}
use artifact_registry_servic.Exec.{◌>>=◌, ◌>>◌, Exec, return, fail, on_error}
use artifact_registry_servic.World.{World}
use artifact_registry_servic.Sqlite.Deliveries
use artifact_registry_servic.Webhooks.Dispatcher.{DeliveryStore, Dispatcher, Task}

-- The first half of `Replay`: the record, if it may be replayed.
unfoldable pub replay_check : DeliveryStore → String → Exec World DeliveryRecord
replay_check store id = do
  rec ← store.get_delivery id
  if is_dead_letter rec.status then return rec else fail (sentinel not_dead_letter)

-- The second half: the status is reset, and the delivery starts again.
unfoldable pub replay_reset : DeliveryStore → ℕ → DeliveryRecord → String → Exec World Task
replay_reset store now rec id = do
  on_error (λ e. wrapped "reset delivery status: " e "")
      (store.update_delivery now id pending rec.attempt_count "")
  return (record {
    delivery_id = id;
    event_id = rec.event_id;
    event_type = rec.event_type;
    url = rec.target_url;
    body = rec.payload_json;
    sig = rec.signature;
  })

replay_with : Option DeliveryStore → ℕ → String → Exec World Task
unfolding replay_check replay_reset
replay_with none now id = fail (other "no delivery store configured")
replay_with (some store) now id = do rec ← replay_check store id; replay_reset store now rec id

unfoldable pub replay : Dispatcher → ℕ → String → Exec World Task
unfolding replay_with
replay d now id = replay_with d.store now id
