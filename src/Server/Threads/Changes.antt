-- ===== src/Server/Threads/Changes.antt =====
-- What each goroutine's step and each request does to the catalog.
use artifact_registry_servic.Base.{
  ℕ, ◌+◌, ◌==◌, String, ◌≡◌, refl, Bool-cases, inl, inr, List, [], ◌∷◌, Option, none, some, length,
}
use artifact_registry_servic.Domain.Errors.{Error}
use artifact_registry_servic.Delivery.{
  DeliveryRecord, Status, pending, delivered, failed, dead_letter,
}
use artifact_registry_servic.Auth.{Store, allowed}
use artifact_registry_servic.Exec.{Exec}
use artifact_registry_servic.Exec.Triple.{Triple, Triple-outcome}
use artifact_registry_servic.World.{World, Db, Engine}
use artifact_registry_servic.World.Laws.{At}
use artifact_registry_servic.Storage.{IsBackend}
use artifact_registry_servic.Sqlite.Artifacts.{find_artifact}
use artifact_registry_servic.Sqlite.Artifacts.Laws.{save_artifact-Triple}
use artifact_registry_servic.Sqlite.Channels.Calls.{list_channel_history-Triple}
use artifact_registry_servic.Sqlite.Deliveries.Laws.{create_delivery-Triple, update_delivery-Triple}
use artifact_registry_servic.Registry.Service.Promote.{
  find_target-Triple, point-Triple, save_pointer-Triple,
}
use artifact_registry_servic.Webhooks.Dispatcher.{
  DeliveryStore, sqlite_store, Task, persist_status, give_up, post,
}
use artifact_registry_servic.Webhooks.Emit.{persist_new, record_of}
use artifact_registry_servic.Webhooks.Replay.Outcomes.{replay_check-Triple, replay_reset-Triple}
use artifact_registry_servic.Api.Middleware.{extract_bearer}
use artifact_registry_servic.Api.Handlers.{Handler}
use artifact_registry_servic.Server.Threads.{
  Chance, Thread, inserting, cleaning, restoring, pointing, saving, announcing, resetting,
  delivering, attempted, delivery_of, reset, advance, Call, uploads, promotes, rolls_back, replays,
  Request, scope_of, checked, begin_call, begin,
}
use artifact_registry_servic.Server.Threads.Kept.{IsPending}
use artifact_registry_servic.Server.Threads.Begin.{uploading-Triple}
use artifact_registry_servic.Server.Catalog.{view, Change, rests}
use artifact_registry_servic.Server.Catalog.Tables.{
  with_artifact-Change, with_channel-Change, created-Change, updated-Change,
}

-- The tables before, and the world after.
abbrev Changes : Db → World → Type 0
Changes db v = Change (view db) (view v.db)

to : (db d : Db) (v : World) → v.db ≡ d → Change (view db) (view d) → Changes db v
to db d v e c = rw e c

-- A call whose outcomes are changes.
called :
    {A : Type 0} (m : Exec World A) (w : World) {Q : A → World → Type 0}
    {R : Error → World → Type 0}
    → Triple (At w.db w.objects) m Q R
    → ((a : A) (v : World) → Q a v → Changes w.db v)
    → ((e : Error) (v : World) → R e v → v.db ≡ w.db)
    → Changes w.db (m w).1
called m w t q r =
    Triple-outcome m (λ _ v. Changes w.db v) w t (record { tables = refl; stored = refl }) q
      (λ e v k. to w.db w.db v (r e v k) rests)

-- A call that leaves the tables.
reads :
    {A : Type 0} (m : Exec World A) (w : World) {Q : A → World → Type 0}
    {R : Error → World → Type 0}
    → Triple (At w.db w.objects) m Q R
    → ((a : A) (v : World) → Q a v → v.db ≡ w.db)
    → ((e : Error) (v : World) → R e v → v.db ≡ w.db)
    → Changes w.db (m w).1
reads m w t q r = called m w t (λ a v k. to w.db w.db v (q a v k) rests) r

module _ (engine : Engine) (store : Option DeliveryStore) (is : store ≡ some (sqlite_store engine))
    (w : World) (now : ℕ) where
  persist_status-Change :
      (id : String) (s : Status) (n : ℕ) (e : String)
      → Changes w.db (persist_status store now id s n e w).1
  unfolding persist_status
  persist_status-Change id s n e = rw is (elim (Bool-cases (id == "")) [
    | inl none_given ↦ rw none_given rests
    | inr given ↦ rw given (
        called _ w (update_delivery-Triple w.db w.objects now id s n e)
          (λ _ v h. to w.db _ v h.tables (updated-Change w.db now id s n e)) (λ _ v h. h.tables))
  ])

  give_up-Change :
      (id : String) (n : ℕ) (last : Option String) → Changes w.db (give_up store now id n last w).1
  unfolding give_up
  give_up-Change id n none = rests
  give_up-Change id n (some e) = persist_status-Change id dead_letter n e

  persist_new-Change : (d : DeliveryRecord) → Changes w.db (persist_new store now d w)
  unfolding persist_new
  persist_new-Change d = rw is (
      called _ w (create_delivery-Triple engine now d w.db w.objects)
        (λ hint v h.
          to w.db _ v h.state.tables (created-Change engine now hint d w.db w.objects v h))
        (λ _ v h. h.tables))

module _ (h : Handler) (c : Chance) (name : String → String) (bk : IsBackend h.stor name)
    (is : h.wh.store ≡ some (sqlite_store h.engine)) (w : World) where
  attempted-Change :
      (task : Task) (i : ℕ) (delays : List ℕ) (outcome : Option String)
      → Changes w.db (attempted h c task i delays outcome w).1
  unfolding attempted
  attempted-Change task i delays none =
      persist_status-Change h.engine h.wh.store is w c.now task.delivery_id delivered (i + 1) ""
  attempted-Change task i delays (some e) =
      persist_status-Change h.engine h.wh.store is w c.now task.delivery_id failed (i + 1) e

  reset-Change :
      (store : Option DeliveryStore)
      → store ≡ some (sqlite_store h.engine)
      → (id : String) (d : DeliveryRecord) → Changes w.db (reset h c store id d w).1
  unfolding reset
  reset-Change store e id d = rw e (
      called _ w (replay_reset-Triple h.engine c.now d id w.db w.objects)
        (λ task v k.
          to w.db _ v k.0.tables (updated-Change w.db c.now id pending d.attempt_count ""))
        (λ _ v k. k.tables))

  pub advance-Change : (t : Thread) → IsPending w.db.artifacts t → Changes w.db (advance h c t w).1
  unfolding advance find_artifact
  advance-Change (inserting a) p =
      called _ w (save_artifact-Triple h.engine a w.db w.objects)
        (λ _ v (k, fresh). to w.db _ v k.tables (with_artifact-Change w.db a fresh))
        (λ _ v k. k.tables)
  advance-Change (cleaning a) p =
      reads _ w (bk.delete_keeps a.storage_key w.db w.objects) (λ _ v k. k.tables)
        (λ _ v k. k.tables)
  advance-Change (restoring channel type name by version) p =
      reads _ w (find_target-Triple type name version w.db w.objects) (λ _ v k. k.0.tables)
        (λ _ v k. k.tables)
  advance-Change (pointing event channel type name by t) p =
      reads _ w (point-Triple c.now channel type name t.version by w.db w.objects t)
        (λ _ v k. k.0.tables) (λ _ v k. k.tables)
  advance-Change (saving event ch) p =
      called _ w (save_pointer-Triple w.db w.objects ch)
        (λ ch' v (same, k). to w.db _ v k.tables (with_channel-Change w.db ch p))
        (λ _ v k. k.tables)
  advance-Change (announcing e body []) p = rests
  advance-Change (announcing e body (url ∷ urls)) p =
      persist_new-Change h.engine h.wh.store is w c.now
        (record_of c.now (delivery_of h c e body url) e.aggregate_key)
  advance-Change (resetting id d) p = reset-Change h.wh.store is id d
  advance-Change (delivering task i last []) p =
      give_up-Change h.engine h.wh.store is w c.now task.delivery_id (length h.wh.backoff) last
  advance-Change (delivering task i last (delay ∷ delays)) p =
      attempted-Change task i delays (post c.answer)

  checked-Change :
      (store : Option DeliveryStore)
      → store ≡ some (sqlite_store h.engine)
      → (id : String) → Changes w.db (checked h c store id w).1
  unfolding checked
  checked-Change store e id = rw e (
      reads _ w (replay_check-Triple h.engine id w.db w.objects) (λ d v k. k.0.tables)
        (λ x v k. k.tables))

  begin_call-Change : (id_time : ℕ) (call : Call) → Changes w.db (begin_call h c id_time call w).1
  unfolding begin_call
  begin_call-Change id_time (uploads req) =
      reads _ w (uploading-Triple h c name bk id_time req w.db w.objects) (λ a v k. k.0)
        (λ _ v k. k)
  begin_call-Change id_time (promotes channel type name' version by) =
      reads _ w (find_target-Triple type name' version w.db w.objects) (λ _ v k. k.0.tables)
        (λ _ v k. k.tables)
  begin_call-Change id_time (rolls_back channel type name' by) =
      reads _ w (list_channel_history-Triple channel type name' w.db w.objects h.engine)
        (λ _ v k. k.0.tables) (λ _ v k. k.tables)
  begin_call-Change id_time (replays id) = checked-Change h.wh.store is id

  pub begin-Change :
      (store : Store) (id_time : ℕ) (req : Request) → Changes w.db (begin h c store id_time req w).1
  unfolding begin
  begin-Change store id_time req =
      elim (Bool-cases (allowed store (extract_bearer req.authorization) (scope_of req.call))) [
        | inl granted ↦ rw granted (begin_call-Change id_time req.call)
        | inr refused ↦ rw refused rests
      ]
