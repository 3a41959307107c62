-- ===== src/Api/Handlers/Uploads.antt =====
-- What the answer to an upload says of the state.
use artifact_registry_servic.Base.{
  ℕ, String, ◌==◌, ◌≡◌, refl, ◌⊎◌, inl, inr, Bool-cases, false, List, [], if◌then◌else◌,
}
use artifact_registry_servic.Domain.{Artifact}
use artifact_registry_servic.Domain.Errors.{
  Error, is, already_exists, invalid_version, invalid_input,
}
use artifact_registry_servic.Delivery.{artifact_uploaded}
use artifact_registry_servic.Exec.{Result, ok, err}
use artifact_registry_servic.Exec.Triple.{Post}
use artifact_registry_servic.World.{World, Db, Bytes}
use artifact_registry_servic.World.Laws.{At}
use artifact_registry_servic.Storage.{Reader, IsBackend}
use artifact_registry_servic.Registry.Service.{UploadRequest, Checked, upload}
use artifact_registry_servic.Registry.Service.Upload.{
  IsChecked, IsUploaded, IsUnchanged, upload-Triple,
}
use artifact_registry_servic.Webhooks.Event.{uploaded}
use artifact_registry_servic.Api.Reply.{Served, artifact_body}
use artifact_registry_servic.Api.Handlers.{
  Handler, Form, Fresh, emitting, upload_reply, upload_meta, upload_file, handle_upload,
}

module _ (h : Handler) (name : String → String) (bk : IsBackend h.stor name) (fresh : Fresh)
    (id_time now : ℕ) (db : Db) (objects : List (String × Bytes)) where
  -- The answer is an error, no delivery starts, and what is there has not changed but for the object
  -- of the request's own key.
  abbrev pub IsRejected : UploadRequest → Served → Type 0
  IsRejected req s =
      ((s.0.status ≡ 409) ⊎ ((s.0.status ≡ 400) ⊎ (s.0.status ≡ 500)))
      × (s.1 ≡ [])
      × IsUnchanged h.go h.engine h.stor name bk id_time now db objects req s.2

  -- The artifact has been stored in the state `w1`, and the answer is 201 with its record, behind one
  -- `Emit` of an artifact.uploaded event for it.
  abbrev pub IsAccepted : UploadRequest → Served → Type 0
  IsAccepted req s =
      (a : Artifact) × (w1 : World) × (c : Checked) × IsChecked h.go req c
      × IsUploaded h.go h.engine h.stor name bk id_time now db objects c a w1
      × (s
          ≡ emitting h fresh artifact_uploaded a.id (uploaded a.id a.version a.sha256 a.size_bytes)
              (record { status = 201; body = artifact_body a }) w1)

  upload_reply-IsRejected :
      (req : UploadRequest) (e : Error) (w : World)
      → IsUnchanged h.go h.engine h.stor name bk id_time now db objects req w
      → IsRejected req (upload_reply h fresh (err e) w)
  unfolding upload_reply
  upload_reply-IsRejected req e w same = elim (Bool-cases (is e already_exists)) [
    | inl there ↦ rw there (inl refl, refl, same)
    | inr new ↦ elim (Bool-cases (is e invalid_version)) [
      | inl bad ↦ rw new (rw bad (inr (inl refl), refl, same))
      | inr good ↦ elim (Bool-cases (is e invalid_input)) [
        | inl bad ↦ rw new (rw good (rw bad (inr (inl refl), refl, same)))
        | inr fine ↦ rw new (rw good (rw fine (inr (inr refl), refl, same)))
      ]
    ]
  ]

  replied :
      (req : UploadRequest) (r : Result Artifact) (w : World)
      → Post
          (λ a w.
            (c : Checked) × IsChecked h.go req c
            × IsUploaded h.go h.engine h.stor name bk id_time now db objects c a w)
          (λ _. IsUnchanged h.go h.engine h.stor name bk id_time now db objects req)
          r
          w
      → IsRejected req (upload_reply h fresh r w) ⊎ IsAccepted req (upload_reply h fresh r w)
  unfolding upload_reply
  replied req (ok a) w (c, checked, stored) = inr (a, w, c, checked, stored, refl)
  replied req (err e) w same = inl (upload_reply-IsRejected req e w same)

  -- What the handler asks of the service.
  abbrev pub request_of :
      String → String → String → Reader → String → List (String × String) → UploadRequest
  request_of type nm version file content_type meta = record {
    type = type;
    name = nm;
    version = version;
    content_type = if content_type == "" then "application/octet-stream" else content_type;
    metadata = meta;
    file = file;
  }

  -- For a form with a version, a file and well-formed metadata, and whatever calls fail, an upload
  -- ends in one of two ways. It is answered with 409, 400 or 500: then no table has changed, no
  -- stored object but that of the request's own key, and no delivery starts. Or the artifact is
  -- stored, as `upload-Triple` describes it, and is answered with 201 and its record, behind one
  -- artifact.uploaded event.
  pub upload-answers :
      (type nm version content_type : String) (file : Reader) (meta : List (String × String))
      (w : World)
      → At db objects w
      → (version == "") ≡ false
      → let form : Form = record {
        version = version;
        file = ok (file, content_type);
        metadata = ok meta;
      } in
        let s = handle_upload h fresh id_time now type nm (ok form) w in
        let req = request_of type nm version file content_type meta in
        IsRejected req s ⊎ IsAccepted req s
  unfolding handle_upload upload_file upload_meta
  upload-answers type nm version content_type file meta w same given =
      let req = request_of type nm version file content_type meta in
      let run = upload h.go h.engine h.stor id_time now req in
      rw given (
        replied req (run w).0 (run w).1
          ((upload-Triple h.go h.engine h.stor name bk id_time now db objects req).at w same))
