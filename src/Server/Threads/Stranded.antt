-- ===== src/Server/Threads/Stranded.antt =====
-- A delivery that no goroutine carries on, and that is no dead letter: no step changes its row.
pub mod Steps
use artifact_registry_servic.Base.{
  ℕ, String, ◌==◌, ◌≡◌, refl, ap, ◌∙◌, false, Bool-cases, inl, inr, List, All, Option, none, some,
  find,
}
use artifact_registry_servic.Domain.Errors.{Error}
use artifact_registry_servic.Delivery.{DeliveryRecord, Status, dead_letter}
use artifact_registry_servic.Exec.{Exec, Result, ok, err}
use artifact_registry_servic.Exec.Triple.{Triple, Triple-outcome}
use artifact_registry_servic.World.{World, Db}
use artifact_registry_servic.World.Laws.{At}
use artifact_registry_servic.Sqlite.Artifacts.Laws.{find-append_old}
use artifact_registry_servic.Sqlite.Deliveries.{has_id}
use artifact_registry_servic.Sqlite.Deliveries.Laws.{
  create_delivery-Triple, update_delivery-Triple, find-update_rows_other,
}
use artifact_registry_servic.Webhooks.Dispatcher.{
  DeliveryStore, sqlite_store, persist_status, give_up,
}
use artifact_registry_servic.Webhooks.Emit.{persist_new}
use artifact_registry_servic.Api.Handlers.{Handler}
use artifact_registry_servic.Server.Threads.{Thread, resetting, delivering}

module _ (id : String) where
  -- The goroutine does not work on the delivery.
  abbrev pub IsElsewhere : Thread → Type 0
  IsElsewhere (delivering task i last delays) = (task.delivery_id == id) ≡ false
  IsElsewhere (resetting other d) = (other == id) ≡ false
  IsElsewhere _ = Unit {0}

module _ (id : String) (d : DeliveryRecord) where
  -- The row is this one, and no goroutine works on it.
  pub record IsLeft (out : List Thread × World) : Type 0 where
    pub row : find (has_id id) out.1.db.webhook_deliveries ≡ some d
    pub elsewhere : All (IsElsewhere id) out.0

  module _ (w : World) (row : find (has_id id) w.db.webhook_deliveries ≡ some d) where
    pub same_rows :
        (ts : List Thread) (v : World)
        → v.db.webhook_deliveries ≡ w.db.webhook_deliveries
        → All (IsElsewhere id) ts
        → IsLeft (ts, v)
    same_rows ts v e p = record { row = rw e row; elsewhere = p }

    -- A call that leaves the deliveries, whatever its outcome.
    pub called :
        {A : Type 0} (m : Exec World A) (next : Result A → List Thread) {Q : A → World → Type 0}
        {R : Error → World → Type 0}
        → Triple (At w.db w.objects) m Q R
        → ((a : A) (v : World) → Q a v → v.db.webhook_deliveries ≡ w.db.webhook_deliveries)
        → ((e : Error) (v : World) → R e v → v.db ≡ w.db)
        → ((r : Result A) → All (IsElsewhere id) (next r))
        → IsLeft (next (m w).0, (m w).1)
    called m next t q r p =
        Triple-outcome m (λ x v. IsLeft (next x, v)) w t (record { tables = refl; stored = refl })
          (λ a v k. same_rows _ v (q a v k) (p (ok a)))
          (λ e v k. same_rows _ v (ap (λ (x : Db). x.webhook_deliveries) (r e v k)) (p (err e)))

    module _ (h : Handler) (store : Option DeliveryStore)
        (is : store ≡ some (sqlite_store h.engine)) (ts : List Thread) (p : All (IsElsewhere id) ts)
        (now : ℕ) where
      pub persisted :
          (other : String) (s : Status) (n : ℕ) (e : String)
          → (other == id) ≡ false
          → IsLeft (ts, (persist_status store now other s n e w).1)
      unfolding persist_status
      persisted other s n e far = rw is (elim (Bool-cases (other == "")) [
        | inl blank ↦ rw blank (same_rows ts w refl p)
        | inr given ↦ rw given (
            Triple-outcome _ (λ _ v. IsLeft (ts, v)) w
              (update_delivery-Triple w.db w.objects now other s n e)
              (record { tables = refl; stored = refl })
              (λ _ v k. record {
                row =
                    rw k.tables
                      (find-update_rows_other now other id s n e w.db.webhook_deliveries far ∙ row);
                elsewhere = p;
              })
              (λ _ v k. same_rows ts v (ap (λ (x : Db). x.webhook_deliveries) k.tables) p))
      ])

      pub given_up :
          (other : String) (n : ℕ) (last : Option String)
          → (other == id) ≡ false
          → IsLeft (ts, (give_up store now other n last w).1)
      unfolding give_up
      given_up other n none far = same_rows ts w refl p
      given_up other n (some e) far = persisted other dead_letter n e far

      pub recorded : (r : DeliveryRecord) → IsLeft (ts, persist_new store now r w)
      unfolding persist_new
      recorded r = rw is (
          Triple-outcome _ (λ _ v. IsLeft (ts, v)) w
            (create_delivery-Triple h.engine now r w.db w.objects)
            (record { tables = refl; stored = refl })
            (λ hint v k. record {
              row = rw k.state.tables (find-append_old _ w.db.webhook_deliveries _ d row);
              elsewhere = p;
            })
            (λ _ v k. same_rows ts v (ap (λ (x : Db). x.webhook_deliveries) k.tables) p))
