-- ===== src/Sqlite/Artifacts.antt =====
-- The table `artifacts`: `SaveArtifact`, `GetArtifact`, `ListVersions`.
pub mod Laws
use artifact_registry_servic.Base.{
  String, ◌==◌, Bool, ◌&&◌, ◌||◌, List, [], ◌∷◌, ◌++◌, Option, none, some, any, find, select,
  if◌then◌else◌,
}
use artifact_registry_servic.Domain.{Artifact}
use artifact_registry_servic.Domain.Errors.{
  Error, sentinel, wrapped, other, not_found, already_exists,
}
use artifact_registry_servic.Time.{rfc3339_nano}
use artifact_registry_servic.Exec.{◌>>=◌, ◌>>◌, Exec, Result, ok, err, return, on_error}
use artifact_registry_servic.World.{Db, World, Engine, external}
use artifact_registry_servic.Sqlite.Errors.{is_unique_violation}
use artifact_registry_servic.Sqlite.Rows.{sort_rows, desc}

-- `type = ? AND name = ? AND version = ?`.
abbrev pub is_artifact : String → String → String → Artifact → Bool
is_artifact type name version row = row.type == type && (row.name == name && row.version == version)

abbrev pub is_named : String → String → Artifact → Bool
is_named type name row = row.type == type && row.name == name

-- Whether the row breaks `PRIMARY KEY (id)` or `UNIQUE(type, name, version)`.
abbrev pub conflicts : Artifact → Artifact → Bool
conflicts a row = row.id == a.id || is_artifact a.type a.name a.version row

module _ (engine : Engine) where
  -- The INSERT statement.
  insert_artifact : Artifact → Exec World (Unit {0})
  insert_artifact a w =
      if any (conflicts a) w.db.artifacts
      then (err (other engine.unique_error), w)
      else (ok tt, record w { db = record w.db { artifacts = w.db.artifacts ++ a ∷ [] } })

  save_error : Error → Error
  unfolding is_unique_violation
  save_error e =
      if is_unique_violation e then sentinel already_exists else wrapped "insert artifact: " e ""

  unfoldable pub save_artifact : Artifact → Exec World (Unit {0})
  unfolding insert_artifact save_error external
  save_artifact a = on_error save_error (do external; insert_artifact a)

abbrev pub row_or_missing : Option Artifact → Result Artifact
row_or_missing none = err (sentinel not_found)
row_or_missing (some a) = ok a

unfoldable pub find_artifact : Db → String → String → String → Option Artifact
find_artifact db type name version = find (is_artifact type name version) db.artifacts

read_artifact : String → String → String → Exec World Artifact
unfolding find_artifact
read_artifact type name version w = (row_or_missing (find_artifact w.db type name version), w)

unfoldable pub get_artifact : String → String → String → Exec World Artifact
unfolding read_artifact external
get_artifact type name version = do
  on_error (λ e. wrapped "scan artifact: " e "") external
  read_artifact type name version

abbrev pub created_key : Artifact → String
created_key a = rfc3339_nano a.created_at

module _ (engine : Engine) where
  unfoldable pub version_rows : Db → String → String → List Artifact
  unfolding sort_rows
  version_rows db type name =
      sort_rows (desc created_key engine.artifact_ties) (select (is_named type name) db.artifacts)

  read_versions : String → String → Exec World (List Artifact)
  unfolding version_rows
  read_versions type name w = (ok (version_rows w.db type name), w)

  -- The query, and the error of the rows behind the loop.
  unfoldable pub list_versions : String → String → Exec World (List Artifact)
  unfolding read_versions external
  list_versions type name = do
    on_error (λ e. wrapped "list versions: " e "") external
    rows ← read_versions type name
    external
    return rows
