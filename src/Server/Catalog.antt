-- ===== src/Server/Catalog.antt =====
-- What the service promises, without rows and calls: a catalog answers by keys, and changes in four
-- ways only. A database shows such a catalog.
pub mod Tables
pub mod Steps
pub mod Latest
use mathlib.Core.Option
use artifact_registry_servic.Base.{
  ℕ, ◌<◌, String, ◌==◌, ◌≡◌, Bool, ◌&&◌, true, false, List, [], ◌∷◌, ◌++◌, Option, none, some,
  select, if◌then◌else◌,
}
use artifact_registry_servic.Domain.{Artifact, ChannelPointer}
use artifact_registry_servic.Delivery.{DeliveryRecord, Status, pending}
use artifact_registry_servic.World.{Db}
use artifact_registry_servic.Sqlite.Artifacts.{find_artifact}
use artifact_registry_servic.Sqlite.Channels.{is_channel, find_channel}
use artifact_registry_servic.Sqlite.Deliveries.{find_delivery}

pub record Catalog : Type 0 where
  pub artifact : (type name version : String) → Option Artifact
  pub current : (channel type name : String) → Option ChannelPointer
  -- The promotions of a channel, the oldest first.
  pub history : (channel type name : String) → List ChannelPointer
  pub delivery : (id : String) → Option DeliveryRecord

abbrev pub view : Db → Catalog
view db = record {
  artifact = find_artifact db;
  current = find_channel db;
  history = λ channel type name. select (is_channel channel type name) db.channel_history;
  delivery = find_delivery db;
}

abbrev pub is_key : String → String → String → Artifact → Bool
is_key type name version a = a.type == type && (a.name == name && a.version == version)

abbrev pub is_of : String → String → String → ChannelPointer → Bool
is_of channel type name ch = ch.channel == channel && (ch.type == type && ch.name == name)

-- An artifact appears.
abbrev pub publish : Artifact → Catalog → Catalog
publish a r = record r {
  artifact = λ type name version.
      if is_key type name version a then some a else r.artifact type name version;
}

-- A channel gets a pointer, and its history one entry more.
abbrev pub point_at : ChannelPointer → Catalog → Catalog
point_at ch r = record r {
  current = λ channel type name.
      if is_of channel type name ch then some ch else r.current channel type name;
  history = λ channel type name.
      if is_of channel type name ch
      then r.history channel type name ++ ch ∷ []
      else r.history channel type name;
}

-- A delivery appears.
abbrev pub queue : DeliveryRecord → Catalog → Catalog
queue d r = record r { delivery = λ id. if d.delivery_id == id then some d else r.delivery id }

-- A delivery has another outcome: the rest of it stays.
abbrev pub settled : ℕ → Status → ℕ → String → DeliveryRecord → DeliveryRecord
settled now status attempts last_error d = record d {
  status = status;
  attempt_count = attempts;
  last_error = last_error;
  updated_at = now;
}

abbrev pub settle : String → ℕ → Status → ℕ → String → Catalog → Catalog
settle id now status attempts last_error r = record r {
  delivery = λ key.
      if id == key
      then Option.map (settled now status attempts last_error) (r.delivery key)
      else r.delivery key;
}

-- No artifact has the key or the identifier.
pub record IsNew (r : Catalog) (a : Artifact) : Type 0 where
  pub key : r.artifact a.type a.name a.version ≡ none
  pub id :
      (type name version : String) (b : Artifact)
      → r.artifact type name version ≡ some b
      → (b.id == a.id) ≡ false

-- The pointer's artifact is there, with the identifier that it carries.
abbrev pub IsThere : Catalog → ChannelPointer → Type 0
IsThere r ch =
    (a : Artifact) × (r.artifact ch.type ch.name ch.version ≡ some a) × (ch.artifact_id ≡ a.id)

-- The delivery is pending, without attempts, under a free identifier, and comes after all of its
-- aggregate.
pub record IsNextDelivery (r : Catalog) (d : DeliveryRecord) : Type 0 where
  pub key : r.delivery d.delivery_id ≡ none
  pub waiting : (d.status ≡ pending) × (d.attempt_count ≡ 0)
  pub last :
      (id : String) (b : DeliveryRecord)
      → r.delivery id ≡ some b
      → (b.aggregate_key == d.aggregate_key) ≡ true
      → b.sequence_hint < d.sequence_hint

pub data Change (r : Catalog) : Catalog → Type 0 where
  rests : Change r r
  publishes : (a : Artifact) (r' : Catalog) → IsNew r a → r' ≡ publish a r → Change r r'
  points : (ch : ChannelPointer) (r' : Catalog) → IsThere r ch → r' ≡ point_at ch r → Change r r'
  queues : (d : DeliveryRecord) (r' : Catalog) → IsNextDelivery r d → r' ≡ queue d r → Change r r'
  settles :
      (id : String) (now : ℕ) (status : Status) (attempts : ℕ) (last_error : String) (r' : Catalog)
      → r' ≡ settle id now status attempts last_error r
      → Change r r'
