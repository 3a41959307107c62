-- ===== src/Server/Threads/Covered.antt =====
-- Every delivery that is not at its end has a goroutine that works on it.
pub mod Calls
pub mod Begin
pub mod Steps
use artifact_registry_servic.Base.{
  ℕ, String, ◌==◌, eq_iff, ◌≡◌, refl, Bool, true, false, ◌||◌, Bool-cases, inl, inr, List, [], ◌∷◌,
  All, All-append, All-weaken, Option, none, some, arith,
}
use artifact_registry_servic.Delivery.{
  DeliveryRecord, Status, pending, delivered, failed, dead_letter,
}
use artifact_registry_servic.Exec.Triple.{Triple-outcome}
use artifact_registry_servic.World.{World, Engine}
use artifact_registry_servic.World.Laws.{IsCalm}
use artifact_registry_servic.Sqlite.Deliveries.{has_id, update_rows}
use artifact_registry_servic.Sqlite.Deliveries.Laws.{create_delivery-Triple, update_delivery_calm}
use artifact_registry_servic.Webhooks.Dispatcher.{DeliveryStore, sqlite_store, persist_status}
use artifact_registry_servic.Webhooks.Emit.{persist_new}
use artifact_registry_servic.Server.Threads.{Thread, delivering}

-- `deliver` ends with one of these.
abbrev pub is_final : Status → Bool
is_final delivered = true
is_final dead_letter = true
is_final pending = false
is_final failed = false

abbrev pub works_on : String → Thread → Bool
works_on id (delivering task i last delays) = task.delivery_id == id
works_on id _ = false

-- The loop of `deliver` that has no delay left has an error.
abbrev pub IsArmed : Thread → Type 0
IsArmed (delivering task i none []) = ⊥
IsArmed _ = Unit {0}

-- The delivery is at its end, or `work` says that it is under way. Its identifier is not empty.
abbrev pub IsCovered : (String → Bool) → DeliveryRecord → Type 0
IsCovered work d =
    ((is_final d.status || work d.delivery_id) ≡ true) × ((d.delivery_id == "") ≡ false)

weaker : (a b b' : Bool) → (b ≡ true → b' ≡ true) → (a || b) ≡ true → (a || b') ≡ true
weaker true b b' k h = refl
weaker false b b' k h = k h

flipped : (s t : String) → (s == t) ≡ false → (t == s) ≡ false
flipped s t h = ground (arith, eq_iff s t, eq_iff t s)

-- The empty identifier is none of those that are not empty.
blank : (id j : String) → (id == "") ≡ true → (j == "") ≡ false → (id == j) ≡ false
blank id j h k = ground (arith, eq_iff id "", eq_iff id j)

module _ (f g : String → Bool) where
  pub more_work :
      (rows : List DeliveryRecord)
      → ((id : String) → f id ≡ true → g id ≡ true)
      → All (IsCovered f) rows
      → All (IsCovered g) rows
  more_work rows more =
      All-weaken (IsCovered f) (IsCovered g)
        (λ d (c, given). (weaker (is_final d.status) _ _ (more d.delivery_id) c, given)) rows

  module _ (id : String) (more : (j : String) → (id == j) ≡ false → f j ≡ true → g j ≡ true) where
    -- After an update of one delivery the others need what they had.
    pub updated_work :
        (now : ℕ) (s : Status) (n : ℕ) (e : String) (rows : List DeliveryRecord)
        → (is_final s || g id) ≡ true
        → All (IsCovered f) rows
        → All (IsCovered g) (update_rows now id s n e rows)
    unfolding update_rows
    updated_work now s n e [] here h = tt
    updated_work now s n e (d ∷ rows) here ((c, given), h) = elim (Bool-cases (has_id id d)) [
      | inl same ↦
          let one : d.delivery_id ≡ id = (eq_iff d.delivery_id id).0 same in
          rw same ((rw one here, given), updated_work now s n e rows here h)
      | inr other ↦ rw other (
        (
          weaker (is_final d.status) _ _ (more d.delivery_id (flipped d.delivery_id id other)) c,
          given,
        ),
        updated_work now s n e rows here h,
      )
    ]

    -- `persistStatus` where the database answers.
    pub persist_covers :
        (engine : Engine) (store : Option DeliveryStore)
        → store ≡ some (sqlite_store engine)
        → (now : ℕ) (s : Status) (n : ℕ) (e : String) (w : World) → IsCalm w
        → (is_final s || g id) ≡ true
        → All (IsCovered f) w.db.webhook_deliveries
        → All (IsCovered g) (persist_status store now id s n e w).1.db.webhook_deliveries
    unfolding persist_status
    persist_covers engine store is now s n e w calm here h = rw is (elim (Bool-cases (id == "")) [
      | inl none_given ↦ rw none_given (
          All-weaken (IsCovered f) (IsCovered g)
            (λ d (c, given). (
              weaker (is_final d.status) _ _
                  (more d.delivery_id (blank id d.delivery_id none_given given)) c,
              given,
            ))
            w.db.webhook_deliveries h)
      | inr given ↦ rw given (
          rw (update_delivery_calm w calm now id s n e)
            (updated_work now s n e w.db.webhook_deliveries here h))
    ])

  -- `CreateDelivery` in `Emit`, whether it fails or not.
  pub persist_new_covers :
      (engine : Engine) (store : Option DeliveryStore)
      → store ≡ some (sqlite_store engine)
      → (now : ℕ) (d : DeliveryRecord) (w : World) → ((j : String) → f j ≡ true → g j ≡ true)
      → g d.delivery_id ≡ true
      → (d.delivery_id == "") ≡ false
      → All (IsCovered f) w.db.webhook_deliveries
      → All (IsCovered g) (persist_new store now d w).db.webhook_deliveries
  unfolding persist_new
  persist_new_covers engine store is now d w more new given h = rw is (
      Triple-outcome _ (λ _ v. All (IsCovered g) v.db.webhook_deliveries) w
        (create_delivery-Triple engine now d w.db w.objects)
        (record { tables = refl; stored = refl })
        (λ hint v k. rw k.state.tables (
          All-append (IsCovered g) w.db.webhook_deliveries _
            (more_work w.db.webhook_deliveries more h) ((new, given), tt)))
        (λ _ v k. rw k.tables (more_work w.db.webhook_deliveries more h)))
