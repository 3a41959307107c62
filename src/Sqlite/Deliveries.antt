-- ===== src/Sqlite/Deliveries.antt =====
-- internal/repository/sqlite/webhooks.go: the table `webhook_deliveries`.
pub mod Laws
use Prim.Native.Nat.{max}
use artifact_registry_servic.Base.{
  ℕ, ◌+◌, String, ◌==◌, Bool, List, [], ◌∷◌, ◌++◌, Option, none, some, any, find, select,
  if◌then◌else◌,
}
use artifact_registry_servic.Domain.Errors.{sentinel, wrapped, other, delivery_not_found}
use artifact_registry_servic.Delivery.{DeliveryRecord, Status, pending, is_dead_letter}
use artifact_registry_servic.Time.{rfc3339_nano}
use artifact_registry_servic.Exec.{◌>>=◌, ◌>>◌, Exec, Result, ok, err, return, on_error}
use artifact_registry_servic.World.{Db, World, Engine, external}
use artifact_registry_servic.Sqlite.Rows.{sort_rows, asc}

-- `SELECT COALESCE(MAX(sequence_hint), 0) FROM webhook_deliveries WHERE aggregate_key = ?`.
unfoldable pub max_hint : String → List DeliveryRecord → ℕ
max_hint key [] = 0
max_hint key (row ∷ rows) =
    let rest = max_hint key rows in
    if row.aggregate_key == key then max row.sequence_hint rest else rest

abbrev pub has_id : String → DeliveryRecord → Bool
has_id id row = row.delivery_id == id

-- The row that the INSERT writes: the status, the counters and the times are the statement's.
abbrev pub new_row : ℕ → ℕ → DeliveryRecord → DeliveryRecord
new_row now hint d = record d {
  status = pending;
  attempt_count = 0;
  last_error = "";
  sequence_hint = hint;
  created_at = now;
  updated_at = now;
}

module _ (engine : Engine) where
  insert_delivery : ℕ → DeliveryRecord → Exec World ℕ
  unfolding max_hint
  insert_delivery now d w =
      let rows = w.db.webhook_deliveries in
      let hint = max_hint d.aggregate_key rows + 1 in
      if any (has_id d.delivery_id) rows then (err (other engine.unique_error), w) else (
        ok hint,
        record w { db = record w.db { webhook_deliveries = rows ++ new_row now hint d ∷ [] } },
      )

  -- `RETURNING sequence_hint` is the result.
  unfoldable pub create_delivery : ℕ → DeliveryRecord → Exec World ℕ
  unfolding insert_delivery external
  create_delivery now d = do external; insert_delivery now d

-- The UPDATE statement; an identifier that no row has changes nothing.
abbrev pub set_row : ℕ → Status → ℕ → String → DeliveryRecord → DeliveryRecord
set_row now status attempts last_error row = record row {
  status = status;
  attempt_count = attempts;
  last_error = last_error;
  updated_at = now;
}

abbrev pub update_row : ℕ → String → Status → ℕ → String → DeliveryRecord → DeliveryRecord
update_row now id status attempts last_error row =
    if has_id id row then set_row now status attempts last_error row else row

unfoldable pub update_rows :
    ℕ → String → Status → ℕ → String → List DeliveryRecord → List DeliveryRecord
update_rows now id status attempts last_error [] = []
update_rows now id status attempts last_error (row ∷ rows) =
    update_row now id status attempts last_error row
    ∷ update_rows now id status attempts last_error rows

set_rows : ℕ → String → Status → ℕ → String → Exec World (Unit {0})
unfolding update_rows
set_rows now id status attempts last_error w = (
  ok tt,
  record w {
    db = record w.db {
      webhook_deliveries = update_rows now id status attempts last_error w.db.webhook_deliveries;
    };
  },
)

unfoldable pub update_delivery : ℕ → String → Status → ℕ → String → Exec World (Unit {0})
unfolding set_rows external
update_delivery now id status attempts last_error = do
  external
  set_rows now id status attempts last_error

abbrev pub row_or_missing : Option DeliveryRecord → Result DeliveryRecord
row_or_missing none = err (sentinel delivery_not_found)
row_or_missing (some d) = ok d

unfoldable pub find_delivery : Db → String → Option DeliveryRecord
find_delivery db id = find (has_id id) db.webhook_deliveries

read_delivery : String → Exec World DeliveryRecord
unfolding find_delivery
read_delivery id w = (row_or_missing (find_delivery w.db id), w)

unfoldable pub get_delivery : String → Exec World DeliveryRecord
unfolding read_delivery external
get_delivery id = do on_error (λ e. wrapped "scan delivery: " e "") external; read_delivery id

abbrev pub created_key : DeliveryRecord → String
created_key d = rfc3339_nano d.created_at

module _ (engine : Engine) where
  unfoldable pub dead_letters : Db → List DeliveryRecord
  unfolding sort_rows
  dead_letters db =
      sort_rows (asc created_key engine.delivery_ties)
        (select (λ row. is_dead_letter row.status) db.webhook_deliveries)

  read_dead_letters : Exec World (List DeliveryRecord)
  unfolding dead_letters
  read_dead_letters w = (ok (dead_letters w.db), w)

  unfoldable pub list_dead_letters : Exec World (List DeliveryRecord)
  unfolding read_dead_letters external
  list_dead_letters = do
    on_error (λ e. wrapped "list dead letters: " e "") external
    rows ← read_dead_letters
    external
    return rows
