-- ===== src/Server/Threads/Quiet.antt =====
-- Goroutines that have no file in hand: their steps leave the artifacts and the stored objects.
use artifact_registry_servic.Base.{
  ℕ, ◌+◌, ◌==◌, String, ◌≡◌, ◌≢◌, refl, ap, ◌∙◌, Bool-cases, inl, inr, List, [], ◌∷◌, All, Option,
  none, some, length,
}
use artifact_registry_servic.Domain.{Artifact, ChannelPointer}
use artifact_registry_servic.Domain.Errors.{Error}
use artifact_registry_servic.Delivery.{
  EventType, DeliveryRecord, Status, delivered, failed, dead_letter,
}
use artifact_registry_servic.Exec.{Exec, Result, ok, err}
use artifact_registry_servic.Exec.Triple.{Triple, Triple-outcome}
use artifact_registry_servic.World.{World, Db, Engine}
use artifact_registry_servic.World.Laws.{At}
use artifact_registry_servic.Sqlite.Deliveries.Laws.{create_delivery-Triple, update_delivery-Triple}
use artifact_registry_servic.Registry.Service.Promote.{
  find_target-Triple, point-Triple, save_pointer-Triple,
}
use artifact_registry_servic.Webhooks.Event.{EventData}
use artifact_registry_servic.Webhooks.Dispatcher.{
  DeliveryStore, sqlite_store, Task, persist_status, give_up, post,
}
use artifact_registry_servic.Webhooks.Emit.{persist_new, record_of}
use artifact_registry_servic.Webhooks.Replay.Outcomes.{replay_reset-Triple}
use artifact_registry_servic.Api.Handlers.{Handler}
use artifact_registry_servic.Server.Threads.Announced.{announced-by_cases}
use artifact_registry_servic.Server.Threads.{
  Chance, Thread, inserting, cleaning, restoring, pointing, saving, announcing, resetting,
  delivering, then_do, announced, saved, attempted, delivery_of, reset, advance,
}

-- At most one of two files, or two files of different names.
abbrev pub Apart : Option String → Option String → Type 0
Apart none k = Unit {0}
Apart (some j) none = Unit {0}
Apart (some j) (some k) = j ≢ k

-- The artifact whose file a goroutine has in hand.
abbrev pub in_hand : Thread → Option Artifact
in_hand (inserting a) = some a
in_hand (cleaning a) = some a
in_hand _ = none

abbrev pub HasNone : Thread → Type 0
HasNone t = in_hand t ≡ none

pub record IsQuiet (w : World) (out : List Thread × World) : Type 0 where
  pub rows : out.1.db.artifacts ≡ w.db.artifacts
  pub stored : out.1.objects ≡ w.objects
  pub empty : All HasNone out.0

-- The tables are those given, which have the artifacts of before.
pub tables-IsQuiet :
    (w : World) (ts : List Thread) (v : World) (d : Db)
    → d.artifacts ≡ w.db.artifacts
    → At d w.objects v
    → All HasNone ts
    → IsQuiet w (ts, v)
tables-IsQuiet w ts v d same k e = record {
  rows = ap (λ (x : Db). x.artifacts) k.tables ∙ same;
  stored = k.stored;
  empty = e;
}

pub called :
    {A : Type 0} (m : Exec World A) (next : Result A → List Thread) (w : World)
    {Q : A → World → Type 0} {R : Error → World → Type 0}
    → Triple (At w.db w.objects) m Q R
    → ((a : A) (v : World) → Q a v → IsQuiet w (next (ok a), v))
    → ((e : Error) (v : World) → R e v → At w.db w.objects v)
    → ((e : Error) → All HasNone (next (err e)))
    → IsQuiet w (next (m w).0, (m w).1)
called m next w t q r p =
    Triple-outcome m (λ x v. IsQuiet w (next x, v)) w t (record { tables = refl; stored = refl }) q
      (λ e v k. tables-IsQuiet w _ v w.db refl (r e v k) (p e))

module _ (engine : Engine) (store : Option DeliveryStore) (is : store ≡ some (sqlite_store engine))
    (w : World) (now : ℕ) (ts : List Thread) (p : All HasNone ts) where
  persist_status-IsQuiet :
      (id : String) (s : Status) (n : ℕ) (e : String)
      → IsQuiet w (ts, (persist_status store now id s n e w).1)
  unfolding persist_status
  persist_status-IsQuiet id s n e = rw is (elim (Bool-cases (id == "")) [
    | inl none_given ↦ rw none_given (record { rows = refl; stored = refl; empty = p })
    | inr given ↦ rw given (
        called _ (λ _. ts) w (update_delivery-Triple w.db w.objects now id s n e)
          (λ _ v h. tables-IsQuiet w ts v _ refl h p) (λ _ v h. h) (λ _. p))
  ])

  give_up-IsQuiet :
      (id : String) (n : ℕ) (last : Option String)
      → IsQuiet w (ts, (give_up store now id n last w).1)
  unfolding give_up
  give_up-IsQuiet id n none = record { rows = refl; stored = refl; empty = p }
  give_up-IsQuiet id n (some e) = persist_status-IsQuiet id dead_letter n e

  persist_new-IsQuiet : (d : DeliveryRecord) → IsQuiet w (ts, persist_new store now d w)
  unfolding persist_new
  persist_new-IsQuiet d = rw is (
      called _ (λ _. ts) w (create_delivery-Triple engine now d w.db w.objects)
        (λ hint v h. tables-IsQuiet w ts v _ refl h.state p) (λ _ v h. h) (λ _. p))

module _ (h : Handler) (c : Chance) where
  pub announced-HasNone :
      (event_type : EventType) (key : String) (content : EventData)
      → All HasNone (announced h c event_type key content)
  announced-HasNone event_type key content =
      announced-by_cases h c (All HasNone) tt
        (λ r. started (λ (e, body). announcing e body h.wh.urls) r (λ x. refl)) event_type key
        content
    where
      started :
          {A : Type 0} (f : A → Thread) (r : Result A)
          → ((a : A) → HasNone (f a))
          → All HasNone (then_do f r)
      started f (ok a) p = (p a, tt)
      started f (err e) p = tt

  saved-HasNone : (event : EventType) (r : Result ChannelPointer) → All HasNone (saved h c event r)
  unfolding saved
  saved-HasNone event (ok ch) = announced-HasNone _ _ _
  saved-HasNone event (err e) = tt

module _ (h : Handler) (c : Chance) (is : h.wh.store ≡ some (sqlite_store h.engine))
    (w : World) where
  attempted-IsQuiet :
      (task : Task) (i : ℕ) (delays : List ℕ) (outcome : Option String)
      → IsQuiet w (attempted h c task i delays outcome w)
  unfolding attempted
  attempted-IsQuiet task i delays none =
      persist_status-IsQuiet h.engine h.wh.store is w c.now [] tt task.delivery_id delivered (i + 1)
        ""
  attempted-IsQuiet task i delays (some e) =
      persist_status-IsQuiet h.engine h.wh.store is w c.now
        (delivering task (i + 1) (some e) delays ∷ []) (refl, tt) task.delivery_id failed (i + 1) e

  reset-IsQuiet :
      (store : Option DeliveryStore)
      → store ≡ some (sqlite_store h.engine)
      → (id : String) (d : DeliveryRecord) → IsQuiet w (reset h c store id d w)
  unfolding reset
  reset-IsQuiet store e id d = rw e (
      called _ (then_do (λ task. delivering task 0 none h.wh.backoff)) w
        (replay_reset-Triple h.engine c.now d id w.db w.objects)
        (λ task v k. tables-IsQuiet w _ v _ refl k.0 (refl, tt)) (λ _ v k. k) (λ _. tt))

  -- A goroutine without a file in hand.
  pub advance-IsQuiet : (t : Thread) → HasNone t → IsQuiet w (advance h c t w)
  unfolding advance
  advance-IsQuiet (inserting a) e = cc
  advance-IsQuiet (cleaning a) e = cc
  advance-IsQuiet (restoring channel type name by version) e =
      called _ (then_do _) w (find_target-Triple type name version w.db w.objects)
        (λ _ v k. tables-IsQuiet w _ v w.db refl k.0 (refl, tt)) (λ _ v k. k) (λ _. tt)
  advance-IsQuiet (pointing event channel type name by t) e =
      called _ (then_do (saving event)) w
        (point-Triple c.now channel type name t.version by w.db w.objects t)
        (λ _ v k. tables-IsQuiet w _ v w.db refl k.0 (refl, tt)) (λ _ v k. k) (λ _. tt)
  advance-IsQuiet (saving event ch) e =
      called _ (saved h c event) w (save_pointer-Triple w.db w.objects ch)
        (λ ch' v (same, k). tables-IsQuiet w _ v _ refl k (saved-HasNone h c event (ok ch')))
        (λ _ v k. k) (λ x. saved-HasNone h c event (err x))
  advance-IsQuiet (announcing e body []) q = record { rows = refl; stored = refl; empty = tt }
  advance-IsQuiet (announcing e body (url ∷ urls)) q =
      persist_new-IsQuiet h.engine h.wh.store is w c.now _ (refl, (refl, tt))
        (record_of c.now (delivery_of h c e body url) e.aggregate_key)
  advance-IsQuiet (resetting id d) e = reset-IsQuiet h.wh.store is id d
  advance-IsQuiet (delivering task i last []) e =
      give_up-IsQuiet h.engine h.wh.store is w c.now [] tt task.delivery_id (length h.wh.backoff)
        last
  advance-IsQuiet (delivering task i last (delay ∷ delays)) e =
      attempted-IsQuiet task i delays (post c.answer)
