-- ===== src/Server/Threads/Stranded/Steps.antt =====
-- The steps beside a delivery that nobody carries on.
use artifact_registry_servic.Base.{
  ℕ, ◌+◌, String, ◌==◌, eq_iff, ◌≡◌, refl, sym, ap, ◌∙◌, true, false, Bool-cases, inl, inr, List,
  [], ◌∷◌, All, Option, none, some, length, find,
}
use mathlib.Core.Bool.{true≢false}
use artifact_registry_servic.Domain.{Artifact, ChannelPointer}
use artifact_registry_servic.Delivery.{
  EventType, DeliveryRecord, is_dead_letter, pending, delivered, failed, channel_promoted,
  channel_rollback,
}
use artifact_registry_servic.Auth.{Store, allowed}
use artifact_registry_servic.Exec.{Result, ok, err}
use artifact_registry_servic.Exec.Triple.{Triple-outcome}
use artifact_registry_servic.World.{World, Db}
use artifact_registry_servic.Storage.{IsBackend}
use artifact_registry_servic.Sqlite.Artifacts.Laws.{save_artifact-Triple}
use artifact_registry_servic.Sqlite.Channels.Calls.{list_channel_history-Triple}
use artifact_registry_servic.Sqlite.Deliveries.{has_id, find_delivery}
use artifact_registry_servic.Sqlite.Deliveries.Laws.{find-update_rows_other}
use artifact_registry_servic.Registry.Service.Promote.{
  find_target-Triple, point-Triple, save_pointer-Triple,
}
use artifact_registry_servic.Webhooks.Event.{EventData}
use artifact_registry_servic.Webhooks.Dispatcher.{DeliveryStore, sqlite_store, Task, post}
use artifact_registry_servic.Webhooks.Emit.{record_of}
use artifact_registry_servic.Webhooks.Replay.Outcomes.{replay_check-Triple, replay_reset-Triple}
use artifact_registry_servic.Api.Middleware.{extract_bearer}
use artifact_registry_servic.Api.Handlers.{Handler}
use artifact_registry_servic.Server.Threads.Announced.{announced-by_cases}
use artifact_registry_servic.Server.Threads.Begin.{uploading-Triple}
use artifact_registry_servic.Server.Threads.{
  Chance, Thread, inserting, cleaning, restoring, pointing, saving, announcing, resetting,
  delivering, then_do, then_all, announced, saved, inserted, attempted, delivery_of, reset, advance,
  Call, uploads, promotes, rolls_back, replays, Request, scope_of, second_version, checked,
  begin_call, begin,
}
use artifact_registry_servic.Server.Threads.Stranded.{
  IsElsewhere, IsLeft, same_rows, called, persisted, given_up, recorded,
}

module _ (id : String) (h : Handler) (c : Chance) where
  announced-IsElsewhere :
      (event_type : EventType) (key : String) (content : EventData)
      → All (IsElsewhere id) (announced h c event_type key content)
  announced-IsElsewhere event_type key content =
      announced-by_cases h c (All (IsElsewhere id)) tt
        (λ r. each (λ (e, body). announcing e body h.wh.urls) r (λ x. tt)) event_type key content
    where
      each :
          {A : Type 0} (f : A → Thread) (r : Result A)
          → ((a : A) → IsElsewhere id (f a))
          → All (IsElsewhere id) (then_do f r)
      each f (ok a) p = (p a, tt)
      each f (err e) p = tt

  saved-IsElsewhere :
      (event : EventType) (r : Result ChannelPointer) → All (IsElsewhere id) (saved h c event r)
  unfolding saved
  saved-IsElsewhere event (ok ch) = announced-IsElsewhere _ _ _
  saved-IsElsewhere event (err e) = tt

  inserted-IsElsewhere :
      (a : Artifact) (r : Result (Unit {0})) → All (IsElsewhere id) (inserted h c a r)
  unfolding inserted
  inserted-IsElsewhere a (ok u) = announced-IsElsewhere _ _ _
  inserted-IsElsewhere a (err e) = (tt, tt)

  then_do-IsElsewhere :
      {A : Type 0} (f : A → Thread) (r : Result A)
      → ((a : A) → IsElsewhere id (f a))
      → All (IsElsewhere id) (then_do f r)
  then_do-IsElsewhere f (ok a) p = (p a, tt)
  then_do-IsElsewhere f (err e) p = tt

module _ (h : Handler) (c : Chance) (name : String → String) (bk : IsBackend h.stor name)
    (is : h.wh.store ≡ some (sqlite_store h.engine)) (id : String) (d : DeliveryRecord) (w : World)
    (row : find (has_id id) w.db.webhook_deliveries ≡ some d) where
  attempted-IsLeft :
      (task : Task) (i : ℕ) (delays : List ℕ) (outcome : Option String)
      → (task.delivery_id == id) ≡ false
      → IsLeft id d (attempted h c task i delays outcome w)
  unfolding attempted
  attempted-IsLeft task i delays none far =
      persisted id d w row h h.wh.store is [] tt c.now task.delivery_id delivered (i + 1) "" far
  attempted-IsLeft task i delays (some e) far =
      persisted id d w row h h.wh.store is (delivering task (i + 1) (some e) delays ∷ []) (far, tt)
        c.now task.delivery_id failed (i + 1) e far

  reset-IsLeft :
      (store : Option DeliveryStore)
      → store ≡ some (sqlite_store h.engine)
      → (other : String) (r : DeliveryRecord) → (other == id) ≡ false
      → IsLeft id d (reset h c store other r w)
  unfolding reset
  reset-IsLeft store e other r far = rw e (
      Triple-outcome _
        (λ x v. IsLeft id d (then_do (λ task. delivering task 0 none h.wh.backoff) x, v)) w
        (replay_reset-Triple h.engine c.now r other w.db w.objects)
        (record { tables = refl; stored = refl })
        (λ task v k. record {
          row = rw k.0.tables (
              find-update_rows_other c.now other id pending r.attempt_count ""
                w.db.webhook_deliveries far
              ∙ row);
          elsewhere = (rw k.1 far, tt);
        })
        (λ _ v k. same_rows id d w row [] v (ap (λ (x : Db). x.webhook_deliveries) k.tables) tt))

  -- A goroutine that works on another delivery, or on none, where the new UUID is another one.
  pub advance-IsLeft :
      (c.id == id) ≡ false → (t : Thread) → IsElsewhere id t → IsLeft id d (advance h c t w)
  unfolding advance delivery_of
  advance-IsLeft new (inserting a) p =
      called id d w row _ (inserted h c a) (save_artifact-Triple h.engine a w.db w.objects)
        (λ _ v k. ap (λ (x : Db). x.webhook_deliveries) k.0.tables) (λ _ v k. k.tables)
        (inserted-IsElsewhere id h c a)
  advance-IsLeft new (cleaning a) p =
      called id d w row _ (λ _. []) (bk.delete_keeps a.storage_key w.db w.objects)
        (λ _ v k. ap (λ (x : Db). x.webhook_deliveries) k.tables) (λ _ v k. k.tables) (λ _. tt)
  advance-IsLeft new (restoring channel type app by version) p =
      called id d w row _ (then_do (pointing channel_rollback channel type app by))
        (find_target-Triple type app version w.db w.objects)
        (λ _ v k. ap (λ (x : Db). x.webhook_deliveries) k.0.tables) (λ _ v k. k.tables)
        (λ r.
          then_do-IsElsewhere id h c (pointing channel_rollback channel type app by) r (λ x. tt))
  advance-IsLeft new (pointing event channel type app by t) p =
      called id d w row _ (then_do (saving event))
        (point-Triple c.now channel type app t.version by w.db w.objects t)
        (λ _ v k. ap (λ (x : Db). x.webhook_deliveries) k.0.tables) (λ _ v k. k.tables)
        (λ r. then_do-IsElsewhere id h c (saving event) r (λ x. tt))
  advance-IsLeft new (saving event ch) p =
      called id d w row _ (saved h c event) (save_pointer-Triple w.db w.objects ch)
        (λ _ v k. ap (λ (x : Db). x.webhook_deliveries) k.1.tables) (λ _ v k. k.tables)
        (saved-IsElsewhere id h c event)
  advance-IsLeft new (announcing e body []) p = same_rows id d w row [] w refl tt
  advance-IsLeft new (announcing e body (url ∷ urls)) p =
      recorded id d w row h h.wh.store is
        (announcing e body urls ∷ delivering (delivery_of h c e body url) 0 none h.wh.backoff ∷ [])
        (tt, (new, tt)) c.now (record_of c.now (delivery_of h c e body url) e.aggregate_key)
  advance-IsLeft new (resetting other r) p = reset-IsLeft h.wh.store is other r p
  advance-IsLeft new (delivering task i last []) p =
      given_up id d w row h h.wh.store is [] tt c.now task.delivery_id (length h.wh.backoff) last p
  advance-IsLeft new (delivering task i last (delay ∷ delays)) p =
      attempted-IsLeft task i delays (post c.answer) p

  module _ (alive : is_dead_letter d.status ≡ false) where
    -- Only a dead letter is replayed.
    other_id :
        (other : String) (r : DeliveryRecord)
        → find_delivery w.db other ≡ some r
        → is_dead_letter r.status ≡ true
        → (other == id) ≡ false
    unfolding find_delivery
    other_id other r found dead = elim (Bool-cases (other == id)) [
      | inr e ↦ e
      | inl e ↦
          let same : other ≡ id = (eq_iff other id).0 e in
          let there : find (has_id id) w.db.webhook_deliveries ≡ some r = rw same at found in
          let one : r ≡ d = cc in
          absurd (
            true≢false
              (sym dead ∙ ap (λ (x : DeliveryRecord). is_dead_letter x.status) one ∙ alive))
    ]

    checked-IsLeft :
        (store : Option DeliveryStore)
        → store ≡ some (sqlite_store h.engine)
        → (other : String) → IsLeft id d (checked h c store other w)
    unfolding checked
    checked-IsLeft store e other = rw e (
        Triple-outcome _ (λ x v. IsLeft id d (then_do (resetting other) x, v)) w
          (replay_check-Triple h.engine other w.db w.objects)
          (record { tables = refl; stored = refl })
          (λ r v (k, (found, dead)).
            same_rows id d w row _ v (ap (λ (x : Db). x.webhook_deliveries) k.tables)
              (other_id other r found dead, tt))
          (λ _ v k. same_rows id d w row [] v (ap (λ (x : Db). x.webhook_deliveries) k.tables) tt))

    begin_call-IsLeft : (id_time : ℕ) (call : Call) → IsLeft id d (begin_call h c id_time call w)
    unfolding begin_call
    begin_call-IsLeft id_time (uploads req) =
        called id d w row _ (then_do inserting)
          (uploading-Triple h c name bk id_time req w.db w.objects)
          (λ a v k. ap (λ (x : Db). x.webhook_deliveries) k.0) (λ _ v k. k)
          (λ r. then_do-IsElsewhere id h c inserting r (λ x. tt))
    begin_call-IsLeft id_time (promotes channel type app version by) =
        called id d w row _ (then_do (pointing channel_promoted channel type app by))
          (find_target-Triple type app version w.db w.objects)
          (λ _ v k. ap (λ (x : Db). x.webhook_deliveries) k.0.tables) (λ _ v k. k.tables)
          (λ r.
            then_do-IsElsewhere id h c (pointing channel_promoted channel type app by) r (λ x. tt))
    begin_call-IsLeft id_time (rolls_back channel type app by) =
        called id d w row _ (then_all (second_version channel type app by))
          (list_channel_history-Triple channel type app w.db w.objects h.engine)
          (λ _ v k. ap (λ (x : Db). x.webhook_deliveries) k.0.tables) (λ _ v k. k.tables)
          (second channel type app by)
      where
        second :
            (channel type app by : String) (r : Result (List ChannelPointer))
            → All (IsElsewhere id) (then_all (second_version channel type app by) r)
        second channel type app by (ok []) = tt
        second channel type app by (ok (curr ∷ [])) = tt
        second channel type app by (ok (curr ∷ prev ∷ rest)) = (tt, tt)
        second channel type app by (err e) = tt
    begin_call-IsLeft id_time (replays other) = checked-IsLeft h.wh.store is other

    pub begin-IsLeft :
        (store : Store) (id_time : ℕ) (req : Request) → IsLeft id d (begin h c store id_time req w)
    unfolding begin
    begin-IsLeft store id_time req =
        elim (Bool-cases (allowed store (extract_bearer req.authorization) (scope_of req.call))) [
          | inl granted ↦ rw granted (begin_call-IsLeft id_time req.call)
          | inr refused ↦ rw refused (same_rows id d w row [] w refl tt)
        ]
