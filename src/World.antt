-- ===== src/World.antt =====
-- The state that the components share, and calls that leave the process.
pub mod Laws
use artifact_registry_servic.Base.{ℕ, String, List, [], ◌∷◌, Option, none, some, Bool}
use artifact_registry_servic.Domain.{Artifact, ChannelPointer}
use artifact_registry_servic.Domain.Errors.{other}
use artifact_registry_servic.Delivery.{DeliveryRecord}
use artifact_registry_servic.Exec.{Exec, Result, ok, err}

-- The content of a file or of a request body.
abbrev pub Bytes : Type 0
Bytes = List ℕ

-- The tables of internal/repository/sqlite, rows in the order of insertion. A row is kept as the
-- record that it is written from and read back to: the metadata go through `json.Marshal` and back,
-- the times through `Format(time.RFC3339Nano)` and `Parse`.
pub record Db : Type 0 where
  pub artifacts : List Artifact
  pub channels : List ChannelPointer
  pub channel_history : List ChannelPointer
  pub webhook_deliveries : List DeliveryRecord

-- `objects` is what the storage backend holds, by its own names; `faults` says of each coming call
-- of the database or of the storage whether it fails, and with what text. Once the list is used up
-- the calls succeed.
pub record World : Type 0 where
  pub db : Db
  pub objects : List (String × Bytes)
  pub faults : List (Option String)

abbrev fault : List (Option String) → World → Result (Unit {0}) × World
fault [] w = (ok tt, w)
fault (none ∷ rest) w = (ok tt, record w { faults = rest })
fault (some text ∷ rest) w = (err (other text), record w { faults = rest })

-- One call that leaves the process.
unfoldable pub external : Exec World (Unit {0})
external w = fault w.faults w

-- How SQLite behaves where its documentation leaves it open: the text of the error for a broken
-- UNIQUE or PRIMARY KEY constraint, and the order of rows whose ORDER BY keys are equal.
pub record Engine : Type 0 where
  pub unique_error : String
  pub artifact_ties : Artifact → Artifact → Bool
  pub channel_ties : ChannelPointer → ChannelPointer → Bool
  pub delivery_ties : DeliveryRecord → DeliveryRecord → Bool
