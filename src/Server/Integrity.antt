-- ===== src/Server/Integrity.antt =====
-- What the tables keep: keys are unique, artifacts are stored under keys of their own, and every
-- pointer, current or past, points at an artifact.
pub mod Artifacts
pub mod Channels
pub mod Deliveries
use artifact_registry_servic.Base.{
  ◌<◌, ◌==◌, ◌≡◌, true, false, List, All, Pairwise, Among, find, some,
}
use artifact_registry_servic.Domain.{Artifact, ChannelPointer}
use artifact_registry_servic.Delivery.{DeliveryRecord}
use artifact_registry_servic.Exec.{ok}
use artifact_registry_servic.World.{Db}
use artifact_registry_servic.Sqlite.Artifacts.{conflicts, is_artifact}
use artifact_registry_servic.Sqlite.Channels.{is_channel}
use artifact_registry_servic.Sqlite.Deliveries.{has_id}
use artifact_registry_servic.Registry.Version.{normalize_version}
use artifact_registry_servic.Registry.Identifier.{storage_key}
use artifact_registry_servic.Base.Text.Split.{no_slash}

-- The version is normal, the identifiers have no slash, and the file is under the artifact's key.
pub record IsSound (a : Artifact) : Type 0 where
  pub normal : normalize_version a.version ≡ ok a.version
  pub plain_type : no_slash a.type ≡ true
  pub plain_name : no_slash a.name ≡ true
  pub keyed : a.storage_key ≡ storage_key a.type a.name a.version

-- The artifact of the pointer's version is among the rows, and has the identifier it carries.
abbrev pub Refers : List Artifact → ChannelPointer → Type 0
Refers rows ch =
    (a : Artifact) × (find (is_artifact ch.type ch.name ch.version) rows ≡ some a)
    × (ch.artifact_id ≡ a.id)

-- The rows differ in the identifier, and in one of type, name and version.
abbrev pub IsApart : Artifact → Artifact → Type 0
IsApart row a = conflicts a row ≡ false

abbrev pub IsOtherChannel : ChannelPointer → ChannelPointer → Type 0
IsOtherChannel row ch = is_channel ch.channel ch.type ch.name row ≡ false

-- The later row has another identifier, and a higher number if it is of the same aggregate.
abbrev pub IsLater : DeliveryRecord → DeliveryRecord → Type 0
IsLater row d =
    (has_id d.delivery_id row ≡ false)
    × ((row.aggregate_key == d.aggregate_key) ≡ true → row.sequence_hint < d.sequence_hint)

pub record IsConsistent (db : Db) : Type 0 where
  pub sound : All IsSound db.artifacts
  pub apart : Pairwise IsApart db.artifacts
  pub pointed : All (Refers db.artifacts) db.channels
  pub recorded : All (Refers db.artifacts) db.channel_history
  pub current : All (λ ch. Among ch db.channel_history) db.channels
  pub one_pointer : Pairwise IsOtherChannel db.channels
  pub numbered : Pairwise IsLater db.webhook_deliveries
