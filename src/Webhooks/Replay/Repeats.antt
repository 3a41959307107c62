-- ===== src/Webhooks/Replay/Repeats.antt =====
-- `Replay`: which deliveries start again, and with what.
use artifact_registry_servic.Base.{
  ℕ, String, ◌≡◌, refl, ◌∙◌, true, false, none, some, arith, if◌then◌else◌,
}
use artifact_registry_servic.Domain.Errors.{sentinel, delivery_not_found, not_dead_letter}
use artifact_registry_servic.Delivery.{pending, is_dead_letter, DeliveryRecord}
use artifact_registry_servic.Exec.{ok, err}
use artifact_registry_servic.World.{World, Engine}
use artifact_registry_servic.World.Laws.{IsCalm}
use artifact_registry_servic.Sqlite.Deliveries.{set_row, find_delivery}
use artifact_registry_servic.Sqlite.Deliveries.Laws.{
  update_delivery_calm, get_delivery_calm, find-update_rows,
}
use artifact_registry_servic.Webhooks.Dispatcher.{sqlite_store, Dispatcher, Task}
use artifact_registry_servic.Webhooks.Replay.{replay_check, replay_reset, replay}
use artifact_registry_servic.Webhooks.Dispatcher.Delivering.{updated}

-- The task that sends a record again: its body and its signature as they were.
abbrev pub resent : String → DeliveryRecord → Task
resent id rec = record {
  delivery_id = id;
  event_id = rec.event_id;
  event_type = rec.event_type;
  url = rec.target_url;
  body = rec.payload_json;
  sig = rec.signature;
}

module _ (engine : Engine) where
  pub replay_check_calm :
      (id : String) (rec : DeliveryRecord) (w : World)
      → IsCalm w
      → find_delivery w.db id ≡ some rec
      → replay_check (sqlite_store engine) id w
        ≡ ((if is_dead_letter rec.status then ok rec else err (sentinel not_dead_letter)), w)
  unfolding replay_check
  replay_check_calm id rec w calm found = rw (get_delivery_calm w calm id) (rw found (ground arith))

  pub replay_reset_calm :
      (now : ℕ) (rec : DeliveryRecord) (id : String) (w : World)
      → IsCalm w
      → replay_reset (sqlite_store engine) now rec id w
        ≡ (ok (resent id rec), updated w now id pending rec.attempt_count "")
  unfolding replay_reset
  replay_reset_calm now rec id w calm =
      rw (update_delivery_calm w calm now id pending rec.attempt_count "")

  module _ (d : Dispatcher) (stored : d.store ≡ some (sqlite_store engine)) (now : ℕ) (id : String)
      (w : World) (calm : IsCalm w) where
    -- Where the database answers, `Replay` of a dead letter resets the record to pending, keeps its
    -- attempt count, and starts one delivery with the stored payload and signature.
    pub replay_dead_letter :
        (rec : DeliveryRecord)
        → find_delivery w.db id ≡ some rec
        → is_dead_letter rec.status ≡ true
        → replay d now id w ≡ (ok (resent id rec), updated w now id pending rec.attempt_count "")
    unfolding replay
    replay_dead_letter rec found dead =
        rw stored (
          rw (replay_check_calm id rec w calm found)
            (rw dead (replay_reset_calm now rec id w calm)))

    -- Where the database answers, `Replay` of a record in any other state is refused with
    -- `ErrNotDeadLetter`, and nothing changes.
    pub replay_refused :
        (rec : DeliveryRecord)
        → find_delivery w.db id ≡ some rec
        → is_dead_letter rec.status ≡ false
        → replay d now id w ≡ (err (sentinel not_dead_letter), w)
    unfolding replay
    replay_refused rec found alive =
        rw stored (rw (replay_check_calm id rec w calm found) (rw alive refl))

    -- Where the database answers, `Replay` of an unknown identifier is refused with
    -- `ErrDeliveryNotFound`, and nothing changes.
    pub replay_unknown :
        find_delivery w.db id ≡ none → replay d now id w ≡ (err (sentinel delivery_not_found), w)
    unfolding replay
    replay_unknown missing =
        rw stored (unfold replay_check in rw (get_delivery_calm w calm id) (rw missing refl))

  -- A record that has been replayed cannot be replayed again before it is a dead letter again.
  pub replay_twice :
      (d : Dispatcher)
      → d.store ≡ some (sqlite_store engine)
      → (t1 t2 : ℕ) (id : String) (rec : DeliveryRecord) (w : World) → IsCalm w
      → find_delivery w.db id ≡ some rec
      → is_dead_letter rec.status ≡ true
      → let w1 = (replay d t1 id w).1 in
        ((replay d t1 id w).0 ≡ ok (resent id rec))
        × (replay d t2 id w1 ≡ (err (sentinel not_dead_letter), w1))
  replay_twice d stored t1 t2 id rec w calm found dead =
      let first = replay_dead_letter d stored t1 id w calm rec found dead in
      let w1 = updated w t1 id pending rec.attempt_count "" in
      let now_pending : find_delivery w1.db id
          ≡ some (set_row t1 pending rec.attempt_count "" rec) =
        unfold find_delivery in
        find-update_rows t1 id pending rec.attempt_count "" w.db.webhook_deliveries rec
          (unfold find_delivery in found) in
      rw first (refl, replay_refused d stored t2 id w1 calm _ now_pending refl)

  -- Two `Replay` calls that both read the record before either resets it both start a delivery of
  -- the same payload.
  pub replay_race :
      (t1 t2 : ℕ) (id : String) (rec : DeliveryRecord) (w : World)
      → IsCalm w
      → find_delivery w.db id ≡ some rec
      → is_dead_letter rec.status ≡ true
      → let store = sqlite_store engine in
        let (r1, w1) = replay_check store id w in
        let (r2, w2) = replay_check store id w1 in
        let (s1, w3) = replay_reset store t1 rec id w2 in
        let (s2, w4) = replay_reset store t2 rec id w3 in
        (r1 ≡ ok rec) × (r2 ≡ ok rec) × (s1 ≡ ok (resent id rec)) × (s2 ≡ ok (resent id rec))
  replay_race t1 t2 id rec w calm found dead =
      let check : replay_check (sqlite_store engine) id w ≡ (ok rec, w) =
        replay_check_calm id rec w calm found ∙ rw dead refl in
      rw check (
        rw check (
          rw (replay_reset_calm t1 rec id w calm) (
            rw (replay_reset_calm t2 rec id (updated w t1 id pending rec.attempt_count "") calm)
              (refl, refl, refl, refl))))
