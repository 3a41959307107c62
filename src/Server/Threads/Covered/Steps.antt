-- ===== src/Server/Threads/Covered/Steps.antt =====
-- The steps of goroutines, where the database answers, leave no delivery behind.
use artifact_registry_servic.World.Laws.{IsCalm}
use artifact_registry_servic.Delivery.{dead_letter}
use artifact_registry_servic.Webhooks.Dispatcher.{give_up}
use artifact_registry_servic.Base.{
  Bool, ◌||◌, any, eq_refl, ℕ, ◌+◌, String, ◌==◌, ◌≡◌, refl, ap, false, List, [], ◌∷◌, All, Option,
  none, some, length,
}
use artifact_registry_servic.Delivery.{DeliveryRecord, pending, delivered, failed, channel_rollback}
use artifact_registry_servic.Exec.Triple.{Triple-outcome}
use artifact_registry_servic.World.{World, Db}
use artifact_registry_servic.Storage.{IsBackend}
use artifact_registry_servic.Sqlite.Artifacts.Laws.{save_artifact-Triple}
use artifact_registry_servic.Registry.Service.Promote.{
  find_target-Triple, point-Triple, save_pointer-Triple,
}
use artifact_registry_servic.Webhooks.Dispatcher.{DeliveryStore, sqlite_store, Task, post}
use artifact_registry_servic.Webhooks.Emit.{record_of}
use artifact_registry_servic.Webhooks.Replay.Outcomes.{replay_reset-Triple}
use artifact_registry_servic.Api.Handlers.{Handler}
use artifact_registry_servic.Server.Threads.{
  Chance, Thread, inserting, cleaning, restoring, pointing, saving, announcing, resetting,
  delivering, then_do, saved, inserted, attempted, delivery_of, reset, advance,
}
use artifact_registry_servic.Server.Threads.Covered.{
  works_on, IsArmed, IsCovered, updated_work, persist_covers, persist_new_covers,
}
use artifact_registry_servic.Server.Threads.Covered.Calls.{
  or_right, or_drop, or_same, IsFollowed, each-IsArmed, saved-IsArmed, inserted-IsArmed, same_rows,
  called,
}

module _ (h : Handler) (c : Chance) (name : String → String) (bk : IsBackend h.stor name)
    (is : h.wh.store ≡ some (sqlite_store h.engine)) (w : World) (rest : String → Bool) where
  module _ (b : ℕ) (bs : List ℕ) (retries : h.wh.backoff ≡ b ∷ bs) where
    first-IsArmed : (task : Task) → IsArmed (delivering task 0 none h.wh.backoff)
    first-IsArmed task = rw retries tt

    reset-IsFollowed :
        (store : Option DeliveryStore)
        → store ≡ some (sqlite_store h.engine)
        → (id : String) (r : DeliveryRecord) → All (IsCovered rest) w.db.webhook_deliveries
        → IsFollowed rest (reset h c store id r w)
    unfolding reset
    reset-IsFollowed store e id r k = rw e (
        Triple-outcome _
          (λ x v. IsFollowed rest (then_do (λ task. delivering task 0 none h.wh.backoff) x, v)) w
          (replay_reset-Triple h.engine c.now r id w.db w.objects)
          (record { tables = refl; stored = refl })
          (λ task v (state, same). record {
            rows = rw state.tables (
                updated_work rest
                  (λ j. any (works_on j) (delivering task 0 none h.wh.backoff ∷ []) || rest j) id
                  (λ j far. or_right _ (rest j)) c.now pending r.attempt_count ""
                  w.db.webhook_deliveries (rw same (rw (eq_refl id) refl)) k);
            armed = (first-IsArmed task, tt);
          })
          (λ _ v s. same_rows w rest [] v (ap (λ (y : Db). y.webhook_deliveries) s.tables) tt k))

    module _ (calm : IsCalm w) where
      attempted-IsFollowed :
          (task : Task) (i : ℕ) (last : Option String) (delay : ℕ) (delays : List ℕ)
          (outcome : Option String)
          → All
              (IsCovered (λ id. works_on id (delivering task i last (delay ∷ delays)) || rest id))
              w.db.webhook_deliveries
          → IsFollowed rest (attempted h c task i delays outcome w)
      unfolding attempted
      attempted-IsFollowed task i last delay delays none k = record {
        rows =
            persist_covers (λ j. (task.delivery_id == j) || rest j) rest task.delivery_id
              (λ j far. or_drop (task.delivery_id == j) (rest j) far) h.engine h.wh.store is c.now
              delivered (i + 1) "" w calm refl k;
        armed = tt;
      }
      attempted-IsFollowed task i last delay delays (some e) k = record {
        rows =
            persist_covers (λ j. (task.delivery_id == j) || rest j)
              (λ j. ((task.delivery_id == j) || false) || rest j) task.delivery_id
              (λ j far. or_same (task.delivery_id == j) (rest j)) h.engine h.wh.store is c.now
              failed (i + 1) e w calm (rw (eq_refl task.delivery_id) refl) k;
        armed = (tt, tt);
      }

      -- A step where the database answers, with a UUID that is not empty.
      pub advance-IsFollowed :
          (c.id == "") ≡ false
          → (t : Thread) → IsArmed t
          → All (IsCovered (λ id. works_on id t || rest id)) w.db.webhook_deliveries
          → IsFollowed rest (advance h c t w)
      unfolding advance delivery_of give_up
      advance-IsFollowed given (inserting a) p k =
          called w rest _ (inserted h c a) (save_artifact-Triple h.engine a w.db w.objects)
            (λ _ v k. ap (λ (x : Db). x.webhook_deliveries) k.0.tables) (λ _ v k. k.tables)
            (inserted-IsArmed h c a) k
      advance-IsFollowed given (cleaning a) p k =
          called w rest _ (λ _. []) (bk.delete_keeps a.storage_key w.db w.objects)
            (λ _ v k. ap (λ (x : Db). x.webhook_deliveries) k.tables) (λ _ v k. k.tables) (λ _. tt)
            k
      advance-IsFollowed given (restoring channel type app by version) p k =
          called w rest _ (then_do (pointing channel_rollback channel type app by))
            (find_target-Triple type app version w.db w.objects)
            (λ _ v k. ap (λ (x : Db). x.webhook_deliveries) k.0.tables) (λ _ v k. k.tables)
            (λ r. each-IsArmed h c (pointing channel_rollback channel type app by) r (λ x. tt)) k
      advance-IsFollowed given (pointing event channel type app by t) p k =
          called w rest _ (then_do (saving event))
            (point-Triple c.now channel type app t.version by w.db w.objects t)
            (λ _ v k. ap (λ (x : Db). x.webhook_deliveries) k.0.tables) (λ _ v k. k.tables)
            (λ r. each-IsArmed h c (saving event) r (λ x. tt)) k
      advance-IsFollowed given (saving event ch) p k =
          called w rest _ (saved h c event) (save_pointer-Triple w.db w.objects ch)
            (λ _ v k. ap (λ (x : Db). x.webhook_deliveries) k.1.tables) (λ _ v k. k.tables)
            (saved-IsArmed h c event) k
      advance-IsFollowed given (announcing e body []) p k = same_rows w rest [] w refl tt k
      advance-IsFollowed given (announcing e body (url ∷ urls)) p k = record {
        rows =
            persist_new_covers rest
              (λ j.
                any (works_on j) (
                  announcing e body urls
                  ∷ delivering (delivery_of h c e body url) 0 none h.wh.backoff
                  ∷ [])
                || rest j)
              h.engine h.wh.store is c.now
              (record_of c.now (delivery_of h c e body url) e.aggregate_key) w
              (λ j. or_right _ (rest j)) (rw (eq_refl c.id) refl) given k;
        armed = (tt, (first-IsArmed (delivery_of h c e body url), tt));
      }
      advance-IsFollowed given (resetting id r) p k = reset-IsFollowed h.wh.store is id r k
      advance-IsFollowed given (delivering task i none []) p k = elim p [ ]
      advance-IsFollowed given (delivering task i (some e) []) p k = record {
        rows =
            persist_covers (λ j. (task.delivery_id == j) || rest j) rest task.delivery_id
              (λ j far. or_drop (task.delivery_id == j) (rest j) far) h.engine h.wh.store is c.now
              dead_letter (length h.wh.backoff) e w calm refl k;
        armed = tt;
      }
      advance-IsFollowed given (delivering task i none (delay ∷ delays)) p k =
          attempted-IsFollowed task i none delay delays (post c.answer) k
      advance-IsFollowed given (delivering task i (some e) (delay ∷ delays)) p k =
          attempted-IsFollowed task i (some e) delay delays (post c.answer) k
