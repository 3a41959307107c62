-- ===== src/Sqlite/Channels.antt =====
-- The tables `channels` and `channel_history`: `SaveChannel`, `GetChannel`, `ListChannelHistory`.
pub mod Laws
pub mod Calls
use artifact_registry_servic.Base.{
  String, ◌==◌, Bool, ◌&&◌, List, [], ◌∷◌, ◌++◌, Option, none, some, find, select, if◌then◌else◌,
}
use artifact_registry_servic.Domain.{ChannelPointer}
use artifact_registry_servic.Domain.Errors.{sentinel, wrapped, not_found}
use artifact_registry_servic.Time.{rfc3339_nano}
use artifact_registry_servic.Exec.{◌>>=◌, ◌>>◌, Exec, Result, ok, err, return, on_error}
use artifact_registry_servic.World.{Db, World, Engine, external}
use artifact_registry_servic.Sqlite.Rows.{sort_rows, desc}

-- `channel = ? AND type = ? AND name = ?`.
abbrev pub is_channel : String → String → String → ChannelPointer → Bool
is_channel channel type name row = row.channel == channel && (row.type == type && row.name == name)

-- INSERT … ON CONFLICT(channel, type, name) DO UPDATE.
unfoldable pub upsert : ChannelPointer → List ChannelPointer → List ChannelPointer
upsert ch [] = ch ∷ []
upsert ch (row ∷ rows) =
    let rest = row ∷ upsert ch rows in
    if is_channel ch.channel ch.type ch.name row
    then record row {
      version = ch.version;
      artifact_id = ch.artifact_id;
      previous_version = ch.previous_version;
      promoted_at = ch.promoted_at;
      promoted_by = ch.promoted_by;
    }
      ∷ rows
    else rest

upsert_channel : ChannelPointer → Exec World (Unit {0})
unfolding upsert
upsert_channel ch w = (ok tt, record w { db = record w.db { channels = upsert ch w.db.channels } })

insert_history : ChannelPointer → Exec World (Unit {0})
insert_history ch w =
    (ok tt, record w { db = record w.db { channel_history = w.db.channel_history ++ ch ∷ [] } })

-- `defer tx.Rollback()`: a transaction that is not committed leaves the tables as they were.
abbrev roll_back : Db → Result (Unit {0}) → World → Result (Unit {0}) × World
roll_back db (ok u) w = (ok u, w)
roll_back db (err e) w = (err e, record w { db = db })

abbrev transaction : Exec World (Unit {0}) → Exec World (Unit {0})
transaction m w = roll_back w.db (m w).0 (m w).1

unfoldable pub save_channel : ChannelPointer → Exec World (Unit {0})
unfolding upsert_channel insert_history external
save_channel ch = transaction (do
  external
  on_error (λ e. wrapped "upsert channel: " e "") (do external; upsert_channel ch)
  on_error (λ e. wrapped "insert channel history: " e "") (do external; insert_history ch)
  external)

abbrev pub row_or_missing : Option ChannelPointer → Result ChannelPointer
row_or_missing none = err (sentinel not_found)
row_or_missing (some ch) = ok ch

unfoldable pub find_channel : Db → String → String → String → Option ChannelPointer
find_channel db channel type name = find (is_channel channel type name) db.channels

read_channel : String → String → String → Exec World ChannelPointer
unfolding find_channel
read_channel channel type name w = (row_or_missing (find_channel w.db channel type name), w)

unfoldable pub get_channel : String → String → String → Exec World ChannelPointer
unfolding read_channel external
get_channel channel type name = do
  on_error (λ e. wrapped "scan channel: " e "") external
  read_channel channel type name

abbrev pub promoted_key : ChannelPointer → String
promoted_key ch = rfc3339_nano ch.promoted_at

module _ (engine : Engine) where
  unfoldable pub history_rows : Db → String → String → String → List ChannelPointer
  unfolding sort_rows
  history_rows db channel type name =
      sort_rows (desc promoted_key engine.channel_ties)
        (select (is_channel channel type name) db.channel_history)

  read_history : String → String → String → Exec World (List ChannelPointer)
  unfolding history_rows
  read_history channel type name w = (ok (history_rows w.db channel type name), w)

  unfoldable pub list_channel_history : String → String → String → Exec World (List ChannelPointer)
  unfolding read_history external
  list_channel_history channel type name = do
    on_error (λ e. wrapped "list history: " e "") external
    rows ← read_history channel type name
    external
    return rows
