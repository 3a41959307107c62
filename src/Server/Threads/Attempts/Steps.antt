-- ===== src/Server/Threads/Attempts/Steps.antt =====
-- Each step keeps the count of the attempts.
use artifact_registry_servic.Base.{
  ℕ, ◌+◌, String, ◌≡◌, refl, Bool-cases, inl, inr, List, [], ◌∷◌, All, find-All, Option, none, some,
  length, arith,
}
use artifact_registry_servic.Domain.{ChannelPointer}
use artifact_registry_servic.Domain.Errors.{Error}
use artifact_registry_servic.Delivery.{DeliveryRecord, pending, delivered, failed, channel_rollback}
use artifact_registry_servic.Exec.{Exec, Result, ok, err}
use artifact_registry_servic.Exec.Triple.{Triple, Triple-outcome}
use artifact_registry_servic.World.{World}
use artifact_registry_servic.World.Laws.{At}
use artifact_registry_servic.Storage.{IsBackend}
use artifact_registry_servic.Sqlite.Artifacts.Laws.{save_artifact-Triple}
use artifact_registry_servic.Sqlite.Deliveries.{has_id}
use artifact_registry_servic.Registry.Service.Promote.{
  find_target-Triple, point-Triple, save_pointer-Triple,
}
use artifact_registry_servic.Webhooks.Dispatcher.{DeliveryStore, sqlite_store, Task, post}
use artifact_registry_servic.Webhooks.Replay.Outcomes.{replay_reset-Triple}
use artifact_registry_servic.Api.Handlers.{Handler}
use artifact_registry_servic.Server.Threads.{
  Chance, Thread, inserting, cleaning, restoring, pointing, saving, announcing, resetting,
  delivering, then_do, saved, inserted, attempted, delivery_of, reset, advance,
}
use artifact_registry_servic.Auth.{Store, allowed}
use artifact_registry_servic.Api.Middleware.{extract_bearer}
use artifact_registry_servic.Delivery.{channel_promoted}
use artifact_registry_servic.Sqlite.Deliveries.{find_delivery}
use artifact_registry_servic.Sqlite.Channels.Calls.{list_channel_history-Triple}
use artifact_registry_servic.Webhooks.Replay.Outcomes.{replay_check-Triple}
use artifact_registry_servic.Server.Threads.{
  Call, uploads, promotes, rolls_back, replays, Request, scope_of, then_all, second_version,
  checked, begin_call, begin,
}
use artifact_registry_servic.Server.Threads.Begin.{uploading-Triple}
use artifact_registry_servic.Server.Threads.Attempts.{
  same_deliveries, IsWithin, IsCounted, IsCounting, same_rows, updated_rows, then_do-IsCounted,
  persisted, given_up, recorded, saved-IsCounted, inserted-IsCounted,
}

module _ (h : Handler) (c : Chance) (name : String → String) (bk : IsBackend h.stor name)
    (is : h.wh.store ≡ some (sqlite_store h.engine)) (w : World)
    (rows : All (IsWithin h) w.db.webhook_deliveries) where
  -- A call that leaves the deliveries, whatever its outcome.
  called :
      {A : Type 0} (m : Exec World A) (next : Result A → List Thread) {Q : A → World → Type 0}
      {R : Error → World → Type 0}
      → Triple (At w.db w.objects) m Q R
      → ((a : A) (v : World) → Q a v → v.db.webhook_deliveries ≡ w.db.webhook_deliveries)
      → ((e : Error) (v : World) → R e v → v.db ≡ w.db)
      → ((r : Result A) → All (IsCounted h) (next r))
      → (IsCounting h) (next (m w).0, (m w).1)
  called m next t q r p =
      Triple-outcome m (λ x v. (IsCounting h) (next x, v)) w t
        (record { tables = refl; stored = refl })
        (λ a v k. same_rows h w.db _ v rows (q a v k) (p (ok a)))
        (λ e v k. same_rows h w.db _ v rows (same_deliveries (r e v k)) (p (err e)))

  attempted-IsCounting :
      (task : Task) (i : ℕ) (delays : List ℕ) (outcome : Option String)
      → i + 1 + length delays ≡ length h.wh.backoff
      → (IsCounting h) (attempted h c task i delays outcome w)
  unfolding attempted
  attempted-IsCounting task i delays none count =
      persisted h h.wh.store is w rows [] tt c.now task.delivery_id delivered (i + 1) ""
        (omega (arith, count))
  attempted-IsCounting task i delays (some e) count =
      persisted h h.wh.store is w rows (delivering task (i + 1) (some e) delays ∷ []) (count, tt)
        c.now task.delivery_id failed (i + 1) e (omega (arith, count))

  reset-IsCounting :
      (store : Option DeliveryStore)
      → store ≡ some (sqlite_store h.engine)
      → (id : String) (d : DeliveryRecord) → (IsWithin h) d
      → (IsCounting h) (reset h c store id d w)
  unfolding reset
  reset-IsCounting store e id d few = rw e (
      Triple-outcome _
        (λ r v. (IsCounting h) (then_do (λ task. delivering task 0 none h.wh.backoff) r, v)) w
        (replay_reset-Triple h.engine c.now d id w.db w.objects)
        (record { tables = refl; stored = refl })
        (λ task v k. record {
          rows =
              rw k.0.tables (
                updated_rows h c.now id pending d.attempt_count "" w.db.webhook_deliveries few
                  rows);
          threads = (omega arith, tt);
        })
        (λ _ v k. same_rows h w.db [] v rows (same_deliveries k.tables) tt))

  pub advance-IsCounting : (t : Thread) → (IsCounted h) t → (IsCounting h) (advance h c t w)
  unfolding advance
  advance-IsCounting (inserting a) p =
      called _ (inserted h c a) (save_artifact-Triple h.engine a w.db w.objects)
        (λ u v k. same_deliveries k.0.tables) (λ e v k. k.tables) (inserted-IsCounted h c a)
  advance-IsCounting (cleaning a) p =
      called _ (λ _. []) (bk.delete_keeps a.storage_key w.db w.objects)
        (λ u v k. same_deliveries k.tables) (λ e v k. k.tables) (λ r. tt)
  advance-IsCounting (restoring channel type nm by version) p =
      called _ (then_do (pointing channel_rollback channel type nm by))
        (find_target-Triple type nm version w.db w.objects) (λ t v k. same_deliveries k.0.tables)
        (λ e v k. k.tables) (λ r. then_do-IsCounted h _ r (λ t. tt))
  advance-IsCounting (pointing event channel type nm by t) p =
      called _ (then_do (saving event))
        (point-Triple c.now channel type nm t.version by w.db w.objects t)
        (λ ch v k. same_deliveries k.0.tables) (λ e v k. k.tables)
        (λ r. then_do-IsCounted h _ r (λ ch. tt))
  advance-IsCounting (saving event ch) p =
      called _ (saved h c event) (save_pointer-Triple w.db w.objects ch)
        (λ ch' v k. same_deliveries k.1.tables) (λ e v k. k.tables) (saved-IsCounted h c event)
  advance-IsCounting (announcing e body []) p = same_rows h w.db [] w rows refl tt
  advance-IsCounting (announcing e body (url ∷ urls)) p =
      recorded h h.wh.store is w rows
        (announcing e body urls ∷ delivering (delivery_of h c e body url) 0 none h.wh.backoff ∷ [])
        (tt, (omega arith, tt)) c.now _
  advance-IsCounting (resetting id d) p = reset-IsCounting h.wh.store is id d p
  advance-IsCounting (delivering task i last []) p =
      given_up h h.wh.store is w rows [] tt c.now task.delivery_id last
  advance-IsCounting (delivering task i last (delay ∷ delays)) p =
      attempted-IsCounting task i delays (post c.answer) (omega (arith, p))

  checked-IsCounting :
      (store : Option DeliveryStore)
      → store ≡ some (sqlite_store h.engine)
      → (id : String) → IsCounting h (checked h c store id w)
  unfolding checked
  checked-IsCounting store e id = rw e (
      Triple-outcome _ (λ r v. IsCounting h (then_do (resetting id) r, v)) w
        (replay_check-Triple h.engine id w.db w.objects) (record { tables = refl; stored = refl })
        (λ d v (k, (found, dead)). same_rows h w.db _ v rows (same_deliveries k.tables) (
          (find-All (IsWithin h) (has_id id) w.db.webhook_deliveries d
              (unfold find_delivery in found) rows).1,
          tt,
        ))
        (λ _ v k. same_rows h w.db [] v rows (same_deliveries k.tables) tt))

  second_version-IsCounted :
      (channel type nm by : String) (history : List ChannelPointer)
      → All (IsCounted h) (second_version channel type nm by history)
  second_version-IsCounted channel type nm by [] = tt
  second_version-IsCounted channel type nm by (curr ∷ []) = tt
  second_version-IsCounted channel type nm by (curr ∷ prev ∷ rest) = (tt, tt)

  begin_call-IsCounting : (id_time : ℕ) (call : Call) → IsCounting h (begin_call h c id_time call w)
  unfolding begin_call
  begin_call-IsCounting id_time (uploads req) =
      called _ (then_do inserting) (uploading-Triple h c name bk id_time req w.db w.objects)
        (λ a v k. same_deliveries k.0) (λ e v k. k) (λ r. then_do-IsCounted h _ r (λ a. tt))
  begin_call-IsCounting id_time (promotes channel type nm version by) =
      called _ (then_do (pointing channel_promoted channel type nm by))
        (find_target-Triple type nm version w.db w.objects) (λ t v k. same_deliveries k.0.tables)
        (λ e v k. k.tables) (λ r. then_do-IsCounted h _ r (λ t. tt))
  begin_call-IsCounting id_time (rolls_back channel type nm by) =
      called _ (then_all (second_version channel type nm by))
        (list_channel_history-Triple channel type nm w.db w.objects h.engine)
        (λ t v k. same_deliveries k.0.tables) (λ e v k. k.tables) then_second
    where
      then_second :
          (r : Result (List ChannelPointer))
          → All (IsCounted h) (then_all (second_version channel type nm by) r)
      then_second (ok history) = second_version-IsCounted channel type nm by history
      then_second (err e) = tt
  begin_call-IsCounting id_time (replays id) = checked-IsCounting h.wh.store is id

  pub begin-IsCounting :
      (store : Store) (id_time : ℕ) (req : Request) → IsCounting h (begin h c store id_time req w)
  unfolding begin
  begin-IsCounting store id_time req =
      elim (Bool-cases (allowed store (extract_bearer req.authorization) (scope_of req.call))) [
        | inl granted ↦ rw granted (begin_call-IsCounting id_time req.call)
        | inr refused ↦ rw refused (same_rows h w.db [] w rows refl tt)
      ]
