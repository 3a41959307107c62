-- ===== src/Webhooks/Replay/Outcomes.antt =====
-- What `Replay` does whatever fails.
use artifact_registry_servic.Base.{ℕ, String, ◌≡◌, true, refl, List, some, Bool-cases, inl, inr}
use artifact_registry_servic.Delivery.{DeliveryRecord, pending, is_dead_letter}
use artifact_registry_servic.Exec.Triple.{
  Triple, Triple-bind, Triple-on_error, Triple-return, Triple-fail, Triple-fact, Triple-weaken,
}
use artifact_registry_servic.World.{World, Db, Bytes, Engine}
use artifact_registry_servic.World.Laws.{At}
use artifact_registry_servic.Sqlite.Deliveries.{find_delivery, update_rows}
use artifact_registry_servic.Sqlite.Deliveries.Laws.{
  with_deliveries, update_delivery-Triple, get_delivery-Triple,
}
use artifact_registry_servic.Webhooks.Dispatcher.{sqlite_store, Dispatcher, Task}
use artifact_registry_servic.Webhooks.Replay.{replay_check, replay_reset, replay_with, replay}
use artifact_registry_servic.Webhooks.Replay.Repeats.{resent}

-- The record of the identifier is a dead letter.
abbrev pub IsDead : Db → String → DeliveryRecord → Type 0
IsDead db id d = (find_delivery db id ≡ some d) × (is_dead_letter d.status ≡ true)

pub replay_check-Triple :
    (engine : Engine) (id : String) (db : Db) (objects : List (String × Bytes))
    → Triple
        (At db objects)
        (replay_check (sqlite_store engine) id)
        (λ d w. At db objects w × IsDead db id d)
        (λ _. At db objects)
unfolding replay_check
replay_check-Triple engine id db objects = Triple-bind _ _ (get_delivery-Triple db objects id) λ d.
    Triple-fact {F = find_delivery db id ≡ some d} _ λ found.
      elim (Bool-cases (is_dead_letter d.status)) [
        | inl dead ↦ rw dead (Triple-return d (λ w k. (k, (found, dead))))
        | inr live ↦ rw live (Triple-fail _ (λ w k. k))
      ]

-- The record is reset, and its body and signature are sent again.
pub replay_reset-Triple :
    (engine : Engine) (now : ℕ) (d : DeliveryRecord) (id : String) (db : Db)
    (objects : List (String × Bytes))
    → Triple
        (At db objects)
        (replay_reset (sqlite_store engine) now d id)
        (λ task w.
          At
            (with_deliveries db
              (update_rows now id pending d.attempt_count "" db.webhook_deliveries))
            objects
            w
          × (task ≡ resent id d))
        (λ _. At db objects)
unfolding replay_reset
replay_reset-Triple engine now d id db objects =
    Triple-bind _ _
      (Triple-on_error _ _ (update_delivery-Triple db objects now id pending d.attempt_count ""))
      (λ u. Triple-return _ (λ w h. (h, refl)))

module _ (d : Dispatcher) (engine : Engine) (is : d.store ≡ some (sqlite_store engine)) (now : ℕ)
    (id : String) (db : Db) (objects : List (String × Bytes)) where
  -- A dead letter of the identifier has been reset, and is sent again.
  abbrev pub IsReplayed : Task → World → Type 0
  IsReplayed task w =
      (rec : DeliveryRecord) × IsDead db id rec
      × (task ≡ resent id rec)
      × At
          (with_deliveries db
            (update_rows now id pending rec.attempt_count "" db.webhook_deliveries))
          objects w

  pub replay-Triple : Triple (At db objects) (replay d now id) IsReplayed (λ _. At db objects)
  unfolding replay replay_with
  replay-Triple = rw is (
      Triple-bind _ _ (replay_check-Triple engine id db objects) λ rec.
        Triple-fact {F = IsDead db id rec} _ λ dead.
          Triple-weaken _ (replay_reset-Triple engine now rec id db objects)
            (λ task w k. (rec, dead, k.1, k.0)) (λ _ w k. k))
