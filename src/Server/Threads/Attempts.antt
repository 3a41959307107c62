-- ===== src/Server/Threads/Attempts.antt =====
-- How often a delivery is tried.
pub mod Steps
use artifact_registry_servic.Base.{
  ℕ, ◌+◌, ◌≤◌, String, ◌==◌, ◌≡◌, refl, ap, Bool-cases, inl, inr, List, [], ◌∷◌, All, All-append,
  Option, none, some, length, arith,
}
use artifact_registry_servic.Domain.{Artifact, ChannelPointer}
use artifact_registry_servic.Delivery.{EventType, DeliveryRecord, Status, dead_letter}
use artifact_registry_servic.Exec.{Result, ok, err}
use artifact_registry_servic.Exec.Triple.{Triple, Triple-outcome}
use artifact_registry_servic.World.{World, Db}
use artifact_registry_servic.Sqlite.Deliveries.{update_rows, has_id}
use artifact_registry_servic.Sqlite.Deliveries.Laws.{create_delivery-Triple, update_delivery-Triple}
use artifact_registry_servic.Webhooks.Dispatcher.{
  DeliveryStore, sqlite_store, persist_status, give_up,
}
use artifact_registry_servic.Webhooks.Emit.{persist_new}
use artifact_registry_servic.Webhooks.Event.{EventData}
use artifact_registry_servic.Api.Handlers.{Handler}
use artifact_registry_servic.Server.Threads.Announced.{announced-by_cases}
use artifact_registry_servic.Server.Threads.{
  Chance, Thread, announcing, resetting, delivering, then_do, announced, saved, inserted,
}

pub same_deliveries : {a b : Db} → a ≡ b → a.webhook_deliveries ≡ b.webhook_deliveries
same_deliveries e = ap (λ (x : Db). x.webhook_deliveries) e

module _ (h : Handler) where
  abbrev pub IsWithin : DeliveryRecord → Type 0
  IsWithin d = d.attempt_count ≤ length h.wh.backoff

  -- A delivery has made the attempts that are not left.
  abbrev pub IsCounted : Thread → Type 0
  IsCounted (delivering task i last delays) = i + length delays ≡ length h.wh.backoff
  IsCounted (resetting id d) = IsWithin d
  IsCounted _ = Unit {0}

  pub record IsCounting (out : List Thread × World) : Type 0 where
    pub rows : All IsWithin out.1.db.webhook_deliveries
    pub threads : All IsCounted out.0

  pub same_rows :
      (db : Db) (ts : List Thread) (w : World)
      → All IsWithin db.webhook_deliveries
      → w.db.webhook_deliveries ≡ db.webhook_deliveries
      → All IsCounted ts
      → IsCounting (ts, w)
  same_rows db ts w rows same p = record { rows = rw same rows; threads = p }

  pub updated_rows :
      (now : ℕ) (id : String) (s : Status) (n : ℕ) (e : String) (rows : List DeliveryRecord)
      → n ≤ length h.wh.backoff
      → All IsWithin rows
      → All IsWithin (update_rows now id s n e rows)
  unfolding update_rows
  updated_rows now id s n e [] few p = tt
  updated_rows now id s n e (row ∷ rows) few (p, ps) = elim (Bool-cases (has_id id row)) [
    | inl same ↦ rw same (few, updated_rows now id s n e rows few ps)
    | inr other ↦ rw other (p, updated_rows now id s n e rows few ps)
  ]

  pub then_do-IsCounted :
      {A : Type 0} (f : A → Thread) (r : Result A)
      → ((a : A) → IsCounted (f a))
      → All IsCounted (then_do f r)
  then_do-IsCounted f (ok a) p = (p a, tt)
  then_do-IsCounted f (err e) p = tt

  module _ (store : Option DeliveryStore) (is : store ≡ some (sqlite_store h.engine)) (w : World)
      (rows : All IsWithin w.db.webhook_deliveries) (ts : List Thread) (p : All IsCounted ts) where
    pub persisted :
        (now : ℕ) (id : String) (s : Status) (n : ℕ) (e : String)
        → n ≤ length h.wh.backoff
        → IsCounting (ts, (persist_status store now id s n e w).1)
    unfolding persist_status
    persisted now id s n e few = rw is (elim (Bool-cases (id == "")) [
      | inl blank ↦ rw blank (same_rows w.db ts w rows refl p)
      | inr given ↦ rw given (
          Triple-outcome _ (λ _ v. IsCounting (ts, v)) w
            (update_delivery-Triple w.db w.objects now id s n e)
            (record { tables = refl; stored = refl })
            (λ _ v k. record {
              rows = rw k.tables (updated_rows now id s n e w.db.webhook_deliveries few rows);
              threads = p;
            })
            (λ _ v k. same_rows w.db ts v rows (same_deliveries k.tables) p))
    ])

    pub given_up :
        (now : ℕ) (id : String) (last : Option String)
        → IsCounting (ts, (give_up store now id (length h.wh.backoff) last w).1)
    unfolding give_up
    given_up now id none = same_rows w.db ts w rows refl p
    given_up now id (some e) = persisted now id dead_letter (length h.wh.backoff) e (omega arith)

    pub recorded : (now : ℕ) (d : DeliveryRecord) → IsCounting (ts, persist_new store now d w)
    unfolding persist_new
    recorded now d = rw is (
        Triple-outcome _ (λ _ v. IsCounting (ts, v)) w
          (create_delivery-Triple h.engine now d w.db w.objects)
          (record { tables = refl; stored = refl })
          (λ hint v k. record {
            rows =
                rw k.state.tables
                  (All-append IsWithin w.db.webhook_deliveries _ rows (omega arith, tt));
            threads = p;
          })
          (λ _ v k. same_rows w.db ts v rows (same_deliveries k.tables) p))

  module _ (c : Chance) where
    announced-IsCounted :
        (event_type : EventType) (key : String) (content : EventData)
        → All IsCounted (announced h c event_type key content)
    announced-IsCounted event_type key content =
        announced-by_cases h c (All IsCounted) tt
          (λ r. then_do-IsCounted (λ (e, body). announcing e body h.wh.urls) r (λ x. tt)) event_type
          key content

    pub saved-IsCounted :
        (event : EventType) (r : Result ChannelPointer) → All IsCounted (saved h c event r)
    unfolding saved
    saved-IsCounted event (ok ch) = announced-IsCounted _ _ _
    saved-IsCounted event (err e) = tt

    pub inserted-IsCounted :
        (a : Artifact) (r : Result (Unit {0})) → All IsCounted (inserted h c a r)
    unfolding inserted
    inserted-IsCounted a (ok u) = announced-IsCounted _ _ _
    inserted-IsCounted a (err e) = (tt, tt)
