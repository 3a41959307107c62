-- ===== src/Tests/Registering.antt =====
-- Examples for uploads.
use artifact_registry_servic.Base.{◌≡◌, ◌⊎◌, none, refl, [], ◌∷◌, insert}
use artifact_registry_servic.Domain.{Artifact}
use artifact_registry_servic.Domain.Errors.{sentinel, already_exists, not_found}
use artifact_registry_servic.Exec.{ok, err}
use artifact_registry_servic.Exec.Triple.{Triple}
use artifact_registry_servic.World.{World, Bytes}
use artifact_registry_servic.World.Laws.{At}
use artifact_registry_servic.Storage.{Backend}
use artifact_registry_servic.Storage.Local.{local, full_path}
use artifact_registry_servic.Storage.Local.Laws.{local-IsBackend}
use artifact_registry_servic.Sqlite.Errors.{contains}
use artifact_registry_servic.Sqlite.Artifacts.{find_artifact}
use artifact_registry_servic.Sqlite.Artifacts.Laws.{with_artifact}
use artifact_registry_servic.Registry.Version.{normalize_version}
use artifact_registry_servic.Registry.Identifier.{validate_identifier}
use artifact_registry_servic.Registry.Ids.{new_id}
use artifact_registry_servic.Registry.Service.{Checked, key_of, artifact_of, check_upload, upload}
use artifact_registry_servic.Registry.Service.Upload.Taken.{upload_taken}
use artifact_registry_servic.Registry.Service.Upload.{
  IsChecked, IsUploaded, IsUnchanged, upload-Triple,
}
use artifact_registry_servic.Storage.{Reader}
use artifact_registry_servic.Api.Reply.{stream}
use artifact_registry_servic.Api.Handlers.{Form, handle_upload}
use artifact_registry_servic.Api.Reads.{handle_download}
use artifact_registry_servic.Api.Reads.Downloads.{download-upload}
use artifact_registry_servic.Sqlite.Artifacts.{save_artifact}
use artifact_registry_servic.World.{external}
use artifact_registry_servic.Storage.Path.{join}
use artifact_registry_servic.Registry.Identifier.{storage_key}
use artifact_registry_servic.Api.Handlers.Uploads.{
  IsRejected, IsAccepted, request_of, upload-answers,
}
use artifact_registry_servic.Tests.{
  handler, fresh, plain, sqlite, artifact, stable_db, calm_world, request, checked,
}

abbrev disk : Backend
disk = local plain "/data"

abbrev content : Bytes
content = 1 ∷ 2 ∷ []

abbrev uploaded : Artifact
uploaded = artifact_of plain 7 8 (checked "v3.0.0") (record { size = 2; consumed = 1 ∷ 2 ∷ [] })

abbrev uploaded_world : World
uploaded_world = record {
  db = with_artifact stable_db uploaded;
  objects = insert (full_path plain "/data" (key_of (checked "v3.0.0"))) (1 ∷ 2 ∷ []) [];
  faults = [];
}

upload-Triple_example :
    Triple
      (At stable_db [])
      (upload plain sqlite disk 7 8 (request "3.0.0"))
      (λ a w.
        (c : Checked) × IsChecked plain (request "3.0.0") c
        × IsUploaded plain sqlite disk
            (full_path plain "/data")
            (local-IsBackend plain "/data")
            7
            8
            stable_db
            []
            c
            a
            w)
      (λ _.
        IsUnchanged plain sqlite disk
          (full_path plain "/data")
          (local-IsBackend plain "/data")
          7
          8
          stable_db
          []
          (request "3.0.0"))
upload-Triple_example =
    upload-Triple plain sqlite disk (full_path plain "/data") (local-IsBackend plain "/data") 7 8
      stable_db [] (request "3.0.0")

upload_taken_example :
    let (r, w') = upload plain sqlite disk 7 8 (request "v1.0.0") (calm_world stable_db) in
    (r ≡ err (sentinel already_exists))
    × (w'.db ≡ stable_db)
    × (disk.open_key (key_of (checked "v1.0.0")) w' ≡ (err (sentinel not_found), w'))
unfolding check_upload validate_identifier normalize_version contains find_artifact
upload_taken_example =
    upload_taken plain sqlite disk (full_path plain "/data") (local-IsBackend plain "/data") 7 8
      (request "v1.0.0") (checked "v1.0.0") (artifact "a1" "v1.0.0") (calm_world stable_db) refl
      refl refl refl refl

abbrev reader : Reader
reader = record { content = content; failure = none }

upload-answers_example :
    let form : Form = record { version = "3.0.0"; file = ok (reader, ""); metadata = ok [] } in
    let s = handle_upload handler fresh 7 8 "jar" "app" (ok form) (calm_world stable_db) in
    let req =
      request_of handler
        (full_path plain "/data")
        (local-IsBackend plain "/data")
        fresh
        7
        8
        stable_db
        (calm_world stable_db).objects
        "jar"
        "app"
        "3.0.0"
        reader
        ""
        [] in
    IsRejected handler
      (full_path plain "/data")
      (local-IsBackend plain "/data")
      fresh
      7
      8
      stable_db
      (calm_world stable_db).objects
      req
      s
    ⊎ IsAccepted handler
        (full_path plain "/data")
        (local-IsBackend plain "/data")
        fresh
        7
        8
        stable_db
        (calm_world stable_db).objects
        req
        s
upload-answers_example =
    upload-answers handler (full_path plain "/data") (local-IsBackend plain "/data") fresh 7 8
      stable_db (calm_world stable_db).objects "jar" "app" "3.0.0" "" reader []
      (calm_world stable_db) (record { tables = refl; stored = refl }) refl

abbrev kept_world : World
kept_world = record {
  db = with_artifact stable_db uploaded;
  objects =
      insert (full_path plain "/data" (key_of (checked "v3.0.0"))) content
        (calm_world stable_db).objects;
  faults = [];
}

download-upload_example : handle_download handler "jar" "app" " 3.0.0" kept_world ≡ (
  record { status = 200; body = stream uploaded.content_type uploaded.sha256 "v3.0.0" content },
  [],
  kept_world,
)
unfolding upload check_upload validate_identifier normalize_version local external save_artifact
    artifact_of new_id insert join storage_key
download-upload_example =
    download-upload handler (full_path plain "/data") (local-IsBackend plain "/data") 7 8
      (request "v3.0.0") " 3.0.0" uploaded (calm_world stable_db) kept_world
      (λ key ttl w. (_, refl)) refl refl refl
