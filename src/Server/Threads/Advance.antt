-- ===== src/Server/Threads/Advance.antt =====
-- The steps of a goroutine.
use artifact_registry_servic.Base.{
  ℕ, ◌+◌, String, ◌==◌, ◌≡◌, refl, Bool-cases, inl, inr, List, [], ◌∷◌, All, any, false, Option,
  none, some, length, find,
}
use artifact_registry_servic.Domain.{Artifact, ChannelPointer}
use artifact_registry_servic.Domain.Errors.{Error}
use artifact_registry_servic.Delivery.{
  EventType, DeliveryRecord, Status, pending, delivered, failed, dead_letter, channel_rollback,
}
use artifact_registry_servic.Exec.{Exec, Result, ok, err}
use artifact_registry_servic.Exec.Triple.{Triple-outcome, Triple}
use artifact_registry_servic.World.{World, Engine}
use artifact_registry_servic.World.Laws.{At}
use artifact_registry_servic.Storage.{IsBackend}
use artifact_registry_servic.Sqlite.Artifacts.{is_artifact, conflicts, find_artifact}
use artifact_registry_servic.Sqlite.Artifacts.Laws.{
  with_artifact, save_artifact-Triple, find-append_old,
}
use artifact_registry_servic.Sqlite.Deliveries.Laws.{create_delivery-Triple, update_delivery-Triple}
use artifact_registry_servic.Registry.Service.{Target}
use artifact_registry_servic.Registry.Service.Promote.{
  find_target-Triple, IsPointer, point-Triple, save_pointer-Triple,
}
use artifact_registry_servic.Webhooks.Dispatcher.{
  DeliveryStore, sqlite_store, Task, persist_status, give_up, post,
}
use artifact_registry_servic.Webhooks.Emit.{persist_new}
use artifact_registry_servic.Webhooks.Replay.Outcomes.{replay_reset-Triple}
use artifact_registry_servic.Api.Handlers.{Handler}
use artifact_registry_servic.Server.Integrity.{IsSound, IsConsistent}
use artifact_registry_servic.Server.Integrity.Artifacts.{with_artifact-IsConsistent}
use artifact_registry_servic.Server.Integrity.Channels.{with_channel-IsConsistent}
use artifact_registry_servic.Server.Integrity.Deliveries.{
  created-IsConsistent, updated-IsConsistent,
}
use artifact_registry_servic.Server.Threads.{
  Chance, Thread, inserting, cleaning, restoring, pointing, saving, announcing, resetting,
  delivering, then_do, saved, inserted, attempted, delivery_of, reset, advance,
}
use artifact_registry_servic.Server.Threads.Kept.{
  IsPending, IsKept, artifacts-IsKept, saved-IsPending, inserted-IsPending,
}

-- A step of one call: what holds after either outcome decides.
pub called-IsKept :
    {A : Type 0} (m : Exec World A) (next : Result A → List Thread) (w : World)
    {Q : A → World → Type 0} {R : Error → World → Type 0}
    → Triple (At w.db w.objects) m Q R
    → ((a : A) (v : World) → Q a v → IsKept w.db (next (ok a), v))
    → ((e : Error) (v : World) → R e v → IsKept w.db (next (err e), v))
    → IsKept w.db (next (m w).0, (m w).1)
called-IsKept m next w t q r =
    Triple-outcome m (λ x v. IsKept w.db (next x, v)) w t (record { tables = refl; stored = refl })
      q r

module _ (engine : Engine) (store : Option DeliveryStore) (is : store ≡ some (sqlite_store engine))
    (w : World) (c : IsConsistent w.db) (ts : List Thread)
    (p : All (IsPending w.db.artifacts) ts) where
  updated-IsKept :
      (now : ℕ) (id : String) (s : Status) (n : ℕ) (e : String)
      → IsKept w.db (ts, (persist_status store now id s n e w).1)
  unfolding persist_status
  updated-IsKept now id s n e = rw is (elim (Bool-cases (id == "")) [
    | inl none_given ↦ rw none_given (artifacts-IsKept w.db ts w w.db refl refl c p)
    | inr given ↦ rw given (
        called-IsKept _ (λ _. ts) w (update_delivery-Triple w.db w.objects now id s n e)
          (λ _ v h.
            artifacts-IsKept w.db ts v _ h.tables refl (updated-IsConsistent now id s n e w.db c) p)
          (λ _ v h. artifacts-IsKept w.db ts v w.db h.tables refl c p))
  ])

  given_up-IsKept :
      (now : ℕ) (id : String) (n : ℕ) (last : Option String)
      → IsKept w.db (ts, (give_up store now id n last w).1)
  unfolding give_up
  given_up-IsKept now id n none = artifacts-IsKept w.db ts w w.db refl refl c p
  given_up-IsKept now id n (some e) = updated-IsKept now id dead_letter n e

  created-IsKept : (now : ℕ) (d : DeliveryRecord) → IsKept w.db (ts, persist_new store now d w)
  unfolding persist_new
  created-IsKept now d = rw is (
      called-IsKept _ (λ _. ts) w (create_delivery-Triple engine now d w.db w.objects)
        (λ hint v h.
          artifacts-IsKept w.db ts v _ h.state.tables refl
            (created-IsConsistent engine now hint d w.db w.objects v c h) p)
        (λ _ v h. artifacts-IsKept w.db ts v w.db h.tables refl c p))

module _ (h : Handler) (c : Chance) (name : String → String) (bk : IsBackend h.stor name)
    (is : h.wh.store ≡ some (sqlite_store h.engine)) (w : World) (sane : IsConsistent w.db) where
  same_tables :
      (ts : List Thread) (v : World)
      → v.db ≡ w.db
      → All (IsPending w.db.artifacts) ts
      → IsKept w.db (ts, v)
  same_tables ts v e p = artifacts-IsKept w.db ts v w.db e refl sane p

  inserting-IsKept : (a : Artifact) → IsSound a → IsKept w.db (advance h c (inserting a) w)
  unfolding advance
  inserting-IsKept a sound =
      called-IsKept _ (inserted h c a) w (save_artifact-Triple h.engine a w.db w.objects) added
        (λ e v t. same_tables _ v t.tables (inserted-IsPending h c w.db.artifacts a (err e)))
    where
      added :
          (u : Unit {0}) (v : World)
          → At (with_artifact w.db a) w.objects v × (any (conflicts a) w.db.artifacts ≡ false)
          → IsKept w.db (inserted h c a (ok u), v)
      added u v (t, fresh) = record {
        consistent = rw t.tables (with_artifact-IsConsistent w.db a sane sound fresh);
        extends = λ type name version b found.
            rw t.tables (find-append_old _ w.db.artifacts (a ∷ []) b found);
        pending = inserted-IsPending h c _ a (ok u);
      }

  pointing-IsKept :
      (event : EventType) (channel type name by : String) (t : Target)
      → find (is_artifact type name t.version) w.db.artifacts ≡ some t.artifact
      → IsKept w.db (advance h c (pointing event channel type name by t) w)
  unfolding advance
  pointing-IsKept event channel type name by t found =
      called-IsKept _ (then_do (saving event)) w
        (point-Triple c.now channel type name t.version by w.db w.objects t) pointed
        (λ e v k. same_tables _ v k.tables tt)
    where
      pointed :
          (ch : ChannelPointer) (v : World)
          → At w.db w.objects v × IsPointer c.now channel type name t.version by w.db w.objects t ch
          → IsKept w.db (then_do (saving event) (ok ch), v)
      pointed ch v (k, (current, e, prev)) =
          same_tables _ v k.tables (rw e (t.artifact, found, refl), tt)

  attempted-IsKept :
      (task : Task) (i : ℕ) (delays : List ℕ) (outcome : Option String)
      → IsKept w.db (attempted h c task i delays outcome w)
  unfolding attempted
  attempted-IsKept task i delays none =
      updated-IsKept h.engine h.wh.store is w sane [] tt c.now task.delivery_id delivered (i + 1) ""
  attempted-IsKept task i delays (some e) =
      updated-IsKept h.engine h.wh.store is w sane (delivering task (i + 1) (some e) delays ∷ [])
        (tt, tt) c.now task.delivery_id failed (i + 1) e

  reset-IsKept :
      (store : Option DeliveryStore)
      → store ≡ some (sqlite_store h.engine)
      → (id : String) (d : DeliveryRecord) → IsKept w.db (reset h c store id d w)
  unfolding reset
  reset-IsKept store e id d = rw e (
      called-IsKept _ (then_do (λ task. delivering task 0 none h.wh.backoff)) w
        (replay_reset-Triple h.engine c.now d id w.db w.objects)
        (λ task v k.
          artifacts-IsKept w.db _ v _ k.0.tables refl
            (updated-IsConsistent c.now id pending d.attempt_count "" w.db sane) (tt, tt))
        (λ e v k. same_tables [] v k.tables tt))

  -- Whatever the step does, and whichever of its calls fail, the tables stay consistent, no artifact
  -- goes, and what is left to do may be done.
  pub advance-IsKept : (t : Thread) → IsPending w.db.artifacts t → IsKept w.db (advance h c t w)
  unfolding advance
  advance-IsKept (inserting a) p = inserting-IsKept a p
  advance-IsKept (cleaning a) p =
      called-IsKept _ (λ _. []) w (bk.delete_keeps a.storage_key w.db w.objects)
        (λ u v k. same_tables [] v k.tables tt) (λ e v k. same_tables [] v k.tables tt)
  advance-IsKept (restoring channel type name by version) p =
      called-IsKept _ (then_do (pointing channel_rollback channel type name by)) w
        (find_target-Triple type name version w.db w.objects)
        (λ t v (k, (normal, found)). same_tables _ v k.tables (unfold find_artifact in found, tt))
        (λ e v k. same_tables _ v k.tables tt)
  advance-IsKept (pointing event channel type name by t) p =
      pointing-IsKept event channel type name by t p
  advance-IsKept (saving event ch) p =
      called-IsKept _ (saved h c event) w (save_pointer-Triple w.db w.objects ch)
        (λ ch' v (same, k).
          artifacts-IsKept w.db _ v _ k.tables refl (with_channel-IsConsistent w.db ch sane p)
            (saved-IsPending h c w.db.artifacts event (ok ch')))
        (λ e v k. same_tables _ v k.tables (saved-IsPending h c w.db.artifacts event (err e)))
  advance-IsKept (announcing e body []) p = same_tables [] w refl tt
  advance-IsKept (announcing e body (url ∷ urls)) p =
      created-IsKept h.engine h.wh.store is w sane
        (announcing e body urls ∷ delivering (delivery_of h c e body url) 0 none h.wh.backoff ∷ [])
        (tt, (tt, tt)) c.now _
  advance-IsKept (resetting id d) p = reset-IsKept h.wh.store is id d
  advance-IsKept (delivering task i last []) p =
      given_up-IsKept h.engine h.wh.store is w sane [] tt c.now task.delivery_id
        (length h.wh.backoff) last
  advance-IsKept (delivering task i last (delay ∷ delays)) p =
      attempted-IsKept task i delays (post c.answer)
