-- ===== src/Tests.antt =====
-- Data for the examples: a small registry with two versions of one artifact, promoted one after the
-- other, and a delivery that has failed.
mod Registering
mod Channels
mod Hooks
mod Guarding
mod Naming
mod Stores
mod Running
mod Viewing
mod Keeping
mod Ending
use artifact_registry_servic.Base.{ℕ, String, ◌<>◌, ◌++◌, List, [], ◌∷◌, none, some, true}
use artifact_registry_servic.Domain.{Artifact, ChannelPointer}
use artifact_registry_servic.Delivery.{DeliveryRecord, Status, dead_letter, artifact_uploaded}
use artifact_registry_servic.World.{World, Db, Engine}
use artifact_registry_servic.Platform.{Platform}
use artifact_registry_servic.Registry.Service.{UploadRequest, Checked}
use artifact_registry_servic.Webhooks.Dispatcher.{Dispatcher, sqlite_store, Task}
use artifact_registry_servic.Webhooks.Event.{Codec, Event}
use artifact_registry_servic.Exec.{ok}
use artifact_registry_servic.Storage.Local.{local}
use artifact_registry_servic.Api.Handlers.{Handler, Fresh}

-- Hashes are replaced by texts of their arguments.
abbrev pub plain : Platform
plain = record {
  quote = λ s. "'" <> s <> "'";
  quote_rune = λ c. "?";
  sha256 = λ bytes. bytes;
  hmac_sha256 = λ secret bytes. secret ++ bytes;
}

abbrev pub sqlite : Engine
sqlite = record {
  unique_error = "constraint failed: UNIQUE constraint failed: artifacts.type";
  artifact_ties = λ _ _. true;
  channel_ties = λ _ _. true;
  delivery_ties = λ _ _. true;
}

abbrev pub artifact : String → String → Artifact
artifact id version = record {
  id = id;
  type = "jar";
  name = "app";
  version = version;
  sha256 = "0102";
  size_bytes = 2;
  content_type = "application/java-archive";
  metadata = [];
  storage_key = "jar/app/" <> version;
  created_at = 5;
}

abbrev pub pointer : ℕ → String → String → ChannelPointer
pointer at version before = record {
  channel = "stable";
  type = "jar";
  name = "app";
  version = version;
  artifact_id = version;
  previous_version = before;
  promoted_at = at;
  promoted_by = "ci";
}

abbrev pub record_in : Status → DeliveryRecord
record_in status = record {
  delivery_id = "d1";
  event_id = "e1";
  event_type = artifact_uploaded;
  target_url = "http://hook";
  aggregate_key = "a1";
  payload_json = "{}";
  signature = "00";
  status = status;
  attempt_count = 5;
  last_error = "refused";
  sequence_hint = 1;
  created_at = 7;
  updated_at = 8;
}

abbrev pub db_with : List ChannelPointer → List ChannelPointer → Status → Db
db_with current history status = record {
  artifacts = artifact "a1" "v1.0.0" ∷ artifact "a2" "v2.0.0" ∷ [];
  channels = current;
  channel_history = history;
  webhook_deliveries = record_in status ∷ [];
}

abbrev pub calm_world : Db → World
calm_world db = record { db = db; objects = ("/data/jar/app/v1.0.0", 1 ∷ 2 ∷ []) ∷ []; faults = [] }

abbrev pub stable_db : Db
stable_db =
    db_with (pointer 20 "v2.0.0" "v1.0.0" ∷ [])
      (pointer 10 "v1.0.0" "" ∷ pointer 20 "v2.0.0" "v1.0.0" ∷ []) dead_letter

abbrev pub request : String → UploadRequest
request version = record {
  type = "jar";
  name = "app";
  version = version;
  content_type = "";
  metadata = [];
  file = record { content = 1 ∷ 2 ∷ []; failure = none };
}

abbrev pub checked : String → Checked
checked version = record { request = request version; version = version }

-- Three attempts.
abbrev pub hooks : Dispatcher
hooks = record {
  urls = "http://one" ∷ "http://two" ∷ [];
  secret = 42 ∷ [];
  store = some (sqlite_store sqlite);
  backoff = 0 ∷ 1000 ∷ 5000 ∷ [];
}

abbrev pub task : Task
task = record {
  delivery_id = "d1";
  event_id = "e1";
  event_type = artifact_uploaded;
  url = "http://hook";
  body = "{}";
  sig = "00";
}

-- An envelope is written as its signature and read back with the other fields of `content`.
abbrev pub codec_of : Event → Codec
codec_of content = record {
  marshal_data = λ d. ok "{}";
  marshal_event = λ e. ok e.signature;
  unmarshal_event = λ text. ok (record content { signature = text });
}

abbrev pub fresh : Fresh
fresh = record { event_id = "e2"; timestamp = "now"; ids = λ i. "d2"; now = λ i. 9 }

abbrev pub event : Event
event = record {
  event_id = "e2";
  event_type = artifact_uploaded;
  timestamp = "now";
  aggregate_key = "a1";
  payload = "{}";
  signature = "";
}

abbrev pub handler : Handler
handler = record {
  go = plain;
  codec = codec_of event;
  engine = sqlite;
  stor = local plain "/data";
  base_url = "http://localhost:8080";
  wh = hooks;
}
