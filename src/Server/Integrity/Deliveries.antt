-- ===== src/Server/Integrity/Deliveries.antt =====
-- New and updated deliveries.
use artifact_registry_servic.Base.{
  ℕ, ◌-◌, ◌<◌, String, ◌≡◌, refl, false, List, [], ◌∷◌, ◌++◌, All, All-of_not_any, Pairwise,
  Pairwise-append_one, Pairwise-of_related, map, ap, Bool-cases, inl, inr, arith,
}
use artifact_registry_servic.Delivery.{DeliveryRecord, Status}
use artifact_registry_servic.World.{Db, World, Bytes, Engine}
use artifact_registry_servic.Sqlite.Deliveries.{has_id, new_row, update_row, update_rows}
use artifact_registry_servic.Sqlite.Deliveries.Laws.{with_deliveries, NumberedTo, IsCreated}
use artifact_registry_servic.Server.Integrity.{IsLater, IsConsistent}

with_deliveries-IsConsistent :
    (db : Db) (rows : List DeliveryRecord)
    → IsConsistent db
    → Pairwise IsLater rows
    → IsConsistent (with_deliveries db rows)
with_deliveries-IsConsistent db rows c numbered = record {
  sound = c.sound;
  apart = c.apart;
  pointed = c.pointed;
  recorded = c.recorded;
  current = c.current;
  one_pointer = c.one_pointer;
  numbered = numbered;
}

-- A row whose number is above those of its aggregate comes later than every other.
rows_before :
    (d : DeliveryRecord) (n : ℕ) (rows : List DeliveryRecord)
    → n < d.sequence_hint
    → All (λ row. has_id d.delivery_id row ≡ false) rows
    → NumberedTo d.aggregate_key n rows
    → All (λ row. IsLater row d) rows
rows_before d n [] above free numbered = tt
rows_before d n (row ∷ rows) above (f, free) (m, numbered) =
    ((f, λ same. omega (arith, m same)), rows_before d n rows above free numbered)

pub created-IsConsistent :
    (engine : Engine) (now hint : ℕ) (d : DeliveryRecord) (db : Db)
    (objects : List (String × Bytes)) (w : World)
    → IsConsistent db
    → IsCreated engine now d db objects hint w
    → IsConsistent (with_deliveries db (db.webhook_deliveries ++ new_row now hint d ∷ []))
created-IsConsistent engine now hint d db objects w c made = with_deliveries-IsConsistent db _ c (
    Pairwise-append_one IsLater db.webhook_deliveries (new_row now hint d) c.numbered (
      rows_before (new_row now hint d) (hint - 1) db.webhook_deliveries
        (omega (arith, made.positive))
        (All-of_not_any (has_id d.delivery_id) db.webhook_deliveries made.fresh)
        (made.above (hint - 1) (omega (arith, made.positive)))))

module _ (t : ℕ) (id : String) (s : Status) (n : ℕ) (e : String) where
  IsLater-update_row :
      (row d : DeliveryRecord)
      → IsLater row d
      → IsLater (update_row t id s n e row) (update_row t id s n e d)
  IsLater-update_row row d h = elim (Bool-cases (has_id id row)) [
    | inl a ↦ elim (Bool-cases (has_id id d)) [ inl b ↦ rw a (rw b h) | inr b ↦ rw a (rw b h) ]
    | inr a ↦ elim (Bool-cases (has_id id d)) [ inl b ↦ rw a (rw b h) | inr b ↦ rw a (rw b h) ]
  ]

  update_rows-map :
      (rows : List DeliveryRecord) → update_rows t id s n e rows ≡ map (update_row t id s n e) rows
  unfolding update_rows
  update_rows-map [] = refl
  update_rows-map (row ∷ rows) = ap (λ l. update_row t id s n e row ∷ l) (update_rows-map rows)

  pub updated-IsConsistent :
      (db : Db)
      → IsConsistent db
      → IsConsistent (with_deliveries db (update_rows t id s n e db.webhook_deliveries))
  updated-IsConsistent db c = with_deliveries-IsConsistent db _ c (
      rw (update_rows-map db.webhook_deliveries) (
        Pairwise-of_related IsLater (update_row t id s n e) IsLater-update_row db.webhook_deliveries
          c.numbered))
