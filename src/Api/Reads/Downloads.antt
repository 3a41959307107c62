-- ===== src/Api/Reads/Downloads.antt =====
-- A download of what has been uploaded.
use artifact_registry_servic.Base.{ℕ, String, ◌≡◌, refl, ap, List, [], some}
use artifact_registry_servic.Domain.{Artifact}
use artifact_registry_servic.Domain.Errors.{Error}
use artifact_registry_servic.Exec.{ok, err}
use artifact_registry_servic.World.{World, Db, Bytes}
use artifact_registry_servic.World.Laws.{IsCalm}
use artifact_registry_servic.Storage.{Backend, IsBackend}
use artifact_registry_servic.Sqlite.Artifacts.{find_artifact}
use artifact_registry_servic.Sqlite.Artifacts.Laws.{find-with_artifact, get_artifact-find}
use artifact_registry_servic.Registry.Version.{normalize_version}
use artifact_registry_servic.Registry.Service.{
  UploadRequest, Checked, artifact_of, get_version, upload,
}
use artifact_registry_servic.Registry.Service.Upload.{
  IsChecked, IsUploaded, upload-Triple, open-upload,
}
use artifact_registry_servic.Api.Reply.{stream}
use artifact_registry_servic.Api.Handlers.{Handler}
use artifact_registry_servic.Api.Reads.{signed_reply, download_reply, handle_download}

-- The backend has no signed URLs.
abbrev pub IsUnsigned : Backend → Type 0
IsUnsigned b =
    (key : String) (ttl : ℕ) (w : World) → (e : Error) × (b.get_signed_url key ttl w ≡ (err e, w))

module _ (h : Handler) (name : String → String) (bk : IsBackend h.stor name) (id_time now : ℕ) where
  after_success :
      (req : UploadRequest) (w w' : World) (a : Artifact)
      → upload h.go h.engine h.stor id_time now req w ≡ (ok a, w')
      → (c : Checked) × IsChecked h.go req c
        × IsUploaded h.go h.engine h.stor name bk id_time now w.db w.objects c a w'
  after_success req w w' a e = rw e at (
      (upload-Triple h.go h.engine h.stor name bk id_time now w.db w.objects req).at w
        (record { tables = refl; stored = refl }))

  found_here :
      (c : Checked) (a : Artifact) (db : Db) (objects : List (String × Bytes)) (w : World)
      → IsUploaded h.go h.engine h.stor name bk id_time now db objects c a w
      → find_artifact w.db c.request.type c.request.name a.version ≡ some a
  unfolding artifact_of
  found_here c a db objects w stored = rw stored.state.tables (
      rw⁻¹ (ap (λ (x : Artifact). x.type) stored.row)
        (rw⁻¹ (ap (λ (x : Artifact). x.name) stored.row) (find-with_artifact db a stored.fresh)))

  -- Where the backend has no signed URLs and the calls of the download do not fail, an uploaded
  -- artifact is downloaded, under any spelling of its version, with status 200, the content of the
  -- upload and the recorded hash, and nothing changes.
  pub download-upload :
      (req : UploadRequest) (version : String) (a : Artifact) (w w' : World)
      → IsUnsigned h.stor
      → upload h.go h.engine h.stor id_time now req w ≡ (ok a, w')
      → IsCalm w'
      → normalize_version version ≡ ok a.version
      → handle_download h req.type req.name version w' ≡ (
        record { status = 200; body = stream a.content_type a.sha256 a.version req.file.content },
        [],
        w',
      )
  unfolding handle_download get_version download_reply signed_reply
  download-upload req version a w w' unsigned e calm normal =
      let (c, checked, stored) = after_success req w w' a e in
      let there = found_here c a w.db w.objects w' stored in
      let (no_url, refused) = unsigned a.storage_key 900 w' in
      let read =
        (open-upload h.go h.engine h.stor name bk id_time now w.db w.objects c a w' stored
          calm).0 in
      rw⁻¹ checked.same (
        rw normal (
          rw (get_artifact-find w' c.request.type c.request.name a.version calm)
            (rw there (rw refused (rw read refl)))))
