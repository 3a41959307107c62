-- ===== src/Sqlite/Deliveries/Laws.antt =====
-- The delivery table: numbering per aggregate, updates, and what the calls do where the database
-- answers.
use artifact_registry_servic.Base.{
  ℕ, ◌+◌, ◌≤◌, String, ◌==◌, eq_iff, ◌≡◌, refl, sym, ap, true, false, List, [], ◌∷◌, ◌++◌, Option,
  none, some, any, find, All, Bool-cases, inl, inr, arith,
}
use artifact_registry_servic.Delivery.{DeliveryRecord, Status}
use artifact_registry_servic.Exec.{ok}
use artifact_registry_servic.Exec.Triple.{Post, Triple, Triple-bind, Triple-on_error}
use artifact_registry_servic.World.{Db, World, Engine, Bytes, external}
use artifact_registry_servic.World.Laws.{At, Triple-external, external-calm, IsCalm}
use artifact_registry_servic.Sqlite.Deliveries.{
  max_hint, has_id, set_row, update_row, new_row, insert_delivery, create_delivery, update_rows,
  set_rows, update_delivery, row_or_missing, find_delivery, read_delivery, get_delivery,
}

-- The tables with other delivery rows.
abbrev pub with_deliveries : Db → List DeliveryRecord → Db
with_deliveries db rows = record db { webhook_deliveries = rows }

-- No row of an aggregate has a number above `n`.
abbrev pub NumberedTo : String → ℕ → List DeliveryRecord → Type 0
NumberedTo key n = All (λ row. (row.aggregate_key == key) ≡ true → row.sequence_hint ≤ n)

max_hint-NumberedTo :
    (key : String) (n : ℕ) (rows : List DeliveryRecord)
    → max_hint key rows ≤ n
    → NumberedTo key n rows
unfolding max_hint
max_hint-NumberedTo key n [] h = tt
max_hint-NumberedTo key n (row ∷ rows) h =
    (λ e. ground arith, max_hint-NumberedTo key n rows (ground arith))

module _ (engine : Engine) (now : ℕ) (d : DeliveryRecord) (db : Db)
    (objects : List (String × Bytes)) where
  -- The row of `hint` has been added, with a number above all others of its aggregate.
  pub record IsCreated (hint : ℕ) (w : World) : Type 0 where
    pub fresh : any (has_id d.delivery_id) db.webhook_deliveries ≡ false
    pub above : (n : ℕ) → hint ≡ n + 1 → NumberedTo d.aggregate_key n db.webhook_deliveries
    pub positive : 1 ≤ hint
    pub state : At (with_deliveries db (db.webhook_deliveries ++ new_row now hint d ∷ [])) objects w

  bound :
      (w : World)
      → At db objects w
      → (n : ℕ) → max_hint d.aggregate_key w.db.webhook_deliveries + 1 ≡ n + 1
      → max_hint d.aggregate_key db.webhook_deliveries ≤ n
  bound w h n e =
      omega (arith, ap (λ (x : Db). max_hint d.aggregate_key x.webhook_deliveries) h.tables)

  insert_delivery-Triple :
      Triple (At db objects) (insert_delivery engine now d) IsCreated (λ _. At db objects)
  unfolding insert_delivery
  insert_delivery-Triple = record {
    at = λ w h. elim (Bool-cases (any (has_id d.delivery_id) w.db.webhook_deliveries)) [
      | inl clash ↦ rw clash h
      | inr free ↦ rw free (record {
        fresh = rw h.tables at free;
        above = λ n e. max_hint-NumberedTo d.aggregate_key n db.webhook_deliveries (bound w h n e);
        positive = omega arith;
        state = record { tables = rw h.tables refl; stored = h.stored };
      })
    ];
  }

  -- `CreateDelivery` either adds the record as a pending row whose sequence hint is above those of
  -- all rows of its aggregate, and whose identifier no row had; or it fails and changes nothing.
  pub create_delivery-Triple :
      Triple (At db objects) (create_delivery engine now d) IsCreated (λ _. At db objects)
  unfolding create_delivery
  create_delivery-Triple = Triple-bind external _ Triple-external (λ _. insert_delivery-Triple)

update_row-update_row :
    (t1 t2 : ℕ) (id : String) (s1 s2 : Status) (n1 n2 : ℕ) (e1 e2 : String) (row : DeliveryRecord)
    → update_row t2 id s2 n2 e2 (update_row t1 id s1 n1 e1 row) ≡ update_row t2 id s2 n2 e2 row
update_row-update_row t1 t2 id s1 s2 n1 n2 e1 e2 row = elim (Bool-cases (has_id id row)) [
  | inl e ↦ rw e (rw e refl)
  | inr e ↦ rw e (rw e refl)
]

-- Of two updates of one row the later decides.
pub update_rows-update_rows :
    (t1 t2 : ℕ) (id : String) (s1 s2 : Status) (n1 n2 : ℕ) (e1 e2 : String)
    (rows : List DeliveryRecord)
    → update_rows t2 id s2 n2 e2 (update_rows t1 id s1 n1 e1 rows) ≡ update_rows t2 id s2 n2 e2 rows
unfolding update_rows
update_rows-update_rows t1 t2 id s1 s2 n1 n2 e1 e2 [] = refl
update_rows-update_rows t1 t2 id s1 s2 n1 n2 e1 e2 (row ∷ rows) =
    let here = update_row-update_row t1 t2 id s1 s2 n1 n2 e1 e2 row in
    let later = update_rows-update_rows t1 t2 id s1 s2 n1 n2 e1 e2 rows in λ i. here i ∷ later i

-- The row of an identifier after an update of it.
pub find-update_rows :
    (t : ℕ) (id : String) (s : Status) (n : ℕ) (e : String) (rows : List DeliveryRecord)
    (d : DeliveryRecord)
    → find (has_id id) rows ≡ some d
    → find (has_id id) (update_rows t id s n e rows) ≡ some (set_row t s n e d)
unfolding update_rows
find-update_rows t id s n e [] d h = cc
find-update_rows t id s n e (row ∷ rows) d h = elim (Bool-cases (has_id id row)) [
  | inl same ↦ ground arith
  | inr other ↦ ground (arith, find-update_rows t id s n e rows d)
]

-- The rows of other identifiers stay.
pub find-update_rows_other :
    (t : ℕ) (id j : String) (s : Status) (n : ℕ) (e : String) (rows : List DeliveryRecord)
    → (id == j) ≡ false
    → find (has_id j) (update_rows t id s n e rows) ≡ find (has_id j) rows
unfolding update_rows
find-update_rows_other t id j s n e [] h = refl
find-update_rows_other t id j s n e (row ∷ rows) h = ground (
  arith,
  find-update_rows_other t id j s n e rows,
  eq_iff row.delivery_id id,
  eq_iff row.delivery_id j,
)

module _ (db : Db) (objects : List (String × Bytes)) where
  pub update_delivery-Triple :
      (t : ℕ) (id : String) (s : Status) (n : ℕ) (e : String)
      → Triple
          (At db objects)
          (update_delivery t id s n e)
          (λ _. At (with_deliveries db (update_rows t id s n e db.webhook_deliveries)) objects)
          (λ _. At db objects)
  unfolding update_delivery set_rows
  update_delivery-Triple t id s n e =
      Triple-bind external _ Triple-external
        λ _. record { at = λ w h. record { tables = rw h.tables refl; stored = h.stored } }

  pub get_delivery-Triple :
      (id : String)
      → Triple
          (At db objects)
          (get_delivery id)
          (λ d w. At db objects w × (find_delivery db id ≡ some d))
          (λ _. At db objects)
  unfolding get_delivery read_delivery
  get_delivery-Triple id = Triple-bind _ _ (Triple-on_error _ _ Triple-external) λ _. record {
    at = λ w h. found (find_delivery w.db id) w h (ap (λ (x : Db). find_delivery x id) h.tables);
  }
    where
      found :
          (o : Option DeliveryRecord) (w : World)
          → At db objects w
          → o ≡ find_delivery db id
          → Post
              (λ d w. At db objects w × (find_delivery db id ≡ some d))
              (λ _. At db objects)
              (row_or_missing o)
              w
      found none w h e = h
      found (some d) w h e = (h, sym e)

module _ (w : World) (calm : IsCalm w) where
  pub update_delivery_calm :
      (t : ℕ) (id : String) (s : Status) (n : ℕ) (e : String)
      → update_delivery t id s n e w ≡ (
        ok tt,
        record w { db = with_deliveries w.db (update_rows t id s n e w.db.webhook_deliveries) },
      )
  unfolding update_delivery set_rows
  update_delivery_calm t id s n e = rw (external-calm w calm)

  pub get_delivery_calm :
      (id : String) → get_delivery id w ≡ (row_or_missing (find_delivery w.db id), w)
  unfolding get_delivery read_delivery
  get_delivery_calm id = rw (external-calm w calm)
