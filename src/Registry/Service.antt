-- ===== src/Registry/Service.antt =====
-- `Registry` of internal/service/registry.go: the operations. `time.Now()` is an argument.
pub mod Upload
pub mod Promote
pub mod Rollback
use artifact_registry_servic.Base.{ℕ, String, ◌<>◌, ◌==◌, List, [], ◌∷◌, hex_text, if◌then◌else◌}
use artifact_registry_servic.Domain.{Artifact, ChannelPointer}
use artifact_registry_servic.Domain.Errors.{sentinel, wrapped, no_channel_history}
use artifact_registry_servic.Exec.{
  ◌>>=◌, ◌>>◌, Exec, Result, ok, err, return, fail, lift, attempt, on_error,
}
use artifact_registry_servic.World.{World, Engine}
use artifact_registry_servic.Platform.{Platform}
use artifact_registry_servic.Storage.{Reader, Stored, Backend}
use artifact_registry_servic.Sqlite.Artifacts.{save_artifact, get_artifact}
use artifact_registry_servic.Sqlite.Artifacts
use artifact_registry_servic.Sqlite.Channels.{save_channel, get_channel, list_channel_history}
use artifact_registry_servic.Registry.Version.{normalize_version}
use artifact_registry_servic.Registry.Identifier.{validate_identifier, storage_key}
use artifact_registry_servic.Registry.Ids.{new_id}

pub record UploadRequest : Type 0 where
  pub type : String
  pub name : String
  pub version : String
  pub content_type : String
  pub metadata : List (String × String)
  pub file : Reader

-- An upload that has passed the checks: the version is normalized.
pub record Checked : Type 0 where
  pub request : UploadRequest
  pub version : String

abbrev pub key_of : Checked → String
key_of c = storage_key c.request.type c.request.name c.version

abbrev pub content_type_of : UploadRequest → String
content_type_of req =
    if req.content_type == "" then "application/octet-stream" else req.content_type

abbrev quoted_path : Platform → String → String → String → String
quoted_path go channel type name =
    "channel " <> go.quote channel <> " for " <> type <> "/" <> name <> ": "

-- The record of an upload, from the times of `newID` and of `CreatedAt` and what was stored.
unfoldable pub artifact_of : Platform → ℕ → ℕ → Checked → Stored → Artifact
artifact_of go id_time now c stored = record {
  id = new_id id_time;
  type = c.request.type;
  name = c.request.name;
  version = c.version;
  sha256 = hex_text (go.sha256 stored.consumed);
  size_bytes = stored.size;
  content_type = content_type_of c.request;
  metadata = c.request.metadata;
  storage_key = key_of c;
  created_at = now;
}

-- The checks at the head of `Upload`.
unfoldable pub check_upload : Platform → UploadRequest → Exec World Checked
check_upload go req = do
  on_error (λ e. wrapped "type: " e "") (lift (validate_identifier go req.type))
  on_error (λ e. wrapped "name: " e "") (lift (validate_identifier go req.name))
  version ← lift (normalize_version req.version)
  return (record { request = req; version = version })

-- Behind `SaveArtifact`: an error deletes the stored file, and the error of that is dropped.
unfoldable pub finish_upload : Backend → Artifact → Result (Unit {0}) → Exec World Artifact
finish_upload stor artifact (ok _) = return artifact
finish_upload stor artifact (err e) = do attempt (stor.delete artifact.storage_key); fail e

module _ (go : Platform) (engine : Engine) (stor : Backend) where
  -- The stored file, and the record for it.
  unfoldable pub stored_artifact : ℕ → ℕ → Checked → Exec World Artifact
  stored_artifact id_time now c = do
    stored ← on_error (λ e. wrapped "store artifact: " e "") (stor.store (key_of c) c.request.file)
    return (artifact_of go id_time now c stored)

  unfoldable pub store_checked : ℕ → ℕ → Checked → Exec World Artifact
  unfolding stored_artifact finish_upload
  store_checked id_time now c = do
    artifact ← stored_artifact id_time now c
    saved ← attempt (save_artifact engine artifact)
    finish_upload stor artifact saved

  unfoldable pub upload : ℕ → ℕ → UploadRequest → Exec World Artifact
  unfolding store_checked
  upload id_time now req = do c ← check_upload go req; store_checked id_time now c

-- `prevVersion`: of the current pointer, empty if reading it fails.
abbrev pub previous : Result ChannelPointer → String
previous (ok curr) = curr.version
previous (err e) = ""

abbrev pub pointer_of :
    ℕ
    → String
    → String
    → String
    → String
    → String
    → Artifact
    → Result ChannelPointer
    → ChannelPointer
pointer_of now channel type name version by artifact current = record {
  channel = channel;
  type = type;
  name = name;
  version = version;
  artifact_id = artifact.id;
  previous_version = previous current;
  promoted_at = now;
  promoted_by = by;
}

-- Saves the pointer and returns it.
unfoldable pub save_pointer : ChannelPointer → Exec World ChannelPointer
save_pointer ch = do on_error (λ e. wrapped "save channel: " e "") (save_channel ch); return ch

-- What a promotion points at: the normalized version, and its record.
pub record Target : Type 0 where
  pub version : String
  pub artifact : Artifact

unfoldable pub find_target : String → String → String → Exec World Target
find_target type name version = do
  version' ← lift (normalize_version version)
  artifact ←
      on_error (λ e. wrapped ("artifact " <> type <> "/" <> name <> "@" <> version' <> ": ") e "")
        (get_artifact type name version')
  return (record { version = version'; artifact = artifact })

-- The new pointer, with the version of the current one.
unfoldable pub point : ℕ → String → String → String → String → Target → Exec World ChannelPointer
point now channel type name by target = do
  current ← attempt (get_channel channel type name)
  return (pointer_of now channel type name target.version by target.artifact current)

unfoldable pub promote : ℕ → String → String → String → String → String → Exec World ChannelPointer
unfolding find_target point save_pointer
promote now channel type name version by = do
  target ← find_target type name version
  ch ← point now channel type name by target
  save_pointer ch

-- `history[1]` is the previous pointer, if there is one.
unfoldable pub rollback_to :
    ℕ → String → String → String → String → List ChannelPointer → Exec World ChannelPointer
rollback_to now channel type name by [] = fail (sentinel no_channel_history)
rollback_to now channel type name by (curr ∷ []) = fail (sentinel no_channel_history)
rollback_to now channel type name by (curr ∷ prev ∷ rest) =
    promote now channel type name prev.version by

unfoldable pub resolve_latest : Platform → String → String → String → Exec World Artifact
resolve_latest go channel type name = do
  ch ←
      on_error (λ e. wrapped (quoted_path go channel type name) e "")
        (get_channel channel type name)
  get_artifact type name ch.version

unfoldable pub get_version : String → String → String → Exec World Artifact
get_version type name version = do
  version' ← lift (normalize_version version)
  get_artifact type name version'

module _ (engine : Engine) where
  unfoldable pub rollback : ℕ → String → String → String → String → Exec World ChannelPointer
  unfolding rollback_to
  rollback now channel type name by = do
    history ← list_channel_history engine channel type name
    rollback_to now channel type name by history

  -- `ListVersions`, `GetChannel` and `GetChannelHistory` pass the call on.
  unfoldable pub list_versions : String → String → Exec World (List Artifact)
  list_versions type name = Artifacts.list_versions engine type name

  unfoldable pub get_channel_history : String → String → String → Exec World (List ChannelPointer)
  get_channel_history channel type name = list_channel_history engine channel type name
