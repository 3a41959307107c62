-- ===== src/Registry/Service/Upload.antt =====
-- `Upload`: what it stores, and what a failure leaves.
pub mod Taken
use artifact_registry_servic.Base.{
  ℕ, String, ◌==◌, ◌≡◌, refl, ap, ◌∙◌, false, List, some, any, length, lookup, insert, remove,
  lookup-insert, lookup-remove, eq_refl, hex_text,
}
use artifact_registry_servic.Domain.{Artifact}
use artifact_registry_servic.Exec.{Result, ok, err, fail, attempt}
use artifact_registry_servic.Exec.Triple.{
  Post, Triple, Triple-bind, Triple-on_error, Triple-weaken, Triple-attempt, Triple-return,
  Triple-fail, Triple-lift, Triple-fact,
}
use artifact_registry_servic.World.{World, Db, Bytes, Engine}
use artifact_registry_servic.World.Laws.{At, IsCalm}
use artifact_registry_servic.Platform.{Platform}
use artifact_registry_servic.Storage.{Backend, AtBut, IsBackend}
use artifact_registry_servic.Sqlite.Artifacts.{conflicts, save_artifact}
use artifact_registry_servic.Sqlite.Artifacts.Laws.{with_artifact, save_artifact-Triple}
use artifact_registry_servic.Registry.Version.{normalize_version}
use artifact_registry_servic.Registry.Identifier.{validate_identifier, storage_key}
use artifact_registry_servic.Registry.Service.{
  UploadRequest, Checked, key_of, artifact_of, check_upload, stored_artifact, finish_upload,
  store_checked, upload,
}

-- The request passes the checks, and this is its normalized form.
pub record IsChecked (go : Platform) (req : UploadRequest) (c : Checked) : Type 0 where
  pub type_ok : validate_identifier go req.type ≡ ok tt
  pub name_ok : validate_identifier go req.name ≡ ok tt
  pub version_ok : normalize_version req.version ≡ ok c.version
  pub same : c.request ≡ req

module _ (go : Platform) (req : UploadRequest) (P : World → Type 0) where
  pub check_upload-Triple :
      Triple P (check_upload go req) (λ c w. P w × IsChecked go req c) (λ _. P)
  unfolding check_upload
  check_upload-Triple =
      Triple-bind _ _
        (Triple-on_error _ _ (
          Triple-weaken _ (Triple-lift (validate_identifier go req.type)) (λ _ w h. h)
            (λ _ w h. h.0)))
        λ (u : Unit {0}). Triple-fact _ λ t.
          Triple-bind _ _
            (Triple-on_error _ _ (
              Triple-weaken _ (Triple-lift (validate_identifier go req.name)) (λ _ w h. h)
                (λ _ w h. h.0)))
            λ (u : Unit {0}). Triple-fact _ λ n.
              Triple-bind _ _
                (Triple-weaken _ (Triple-lift (normalize_version req.version)) (λ _ w h. h)
                  (λ _ w h. h.0))
                λ version. Triple-fact _ λ v.
                  Triple-return _
                    λ w h. (h, record { type_ok = t; name_ok = n; version_ok = v; same = refl })

module _ (go : Platform) (engine : Engine) (stor : Backend) (name : String → String)
    (bk : IsBackend stor name) where
  module _ (id_time now : ℕ) (db : Db) (objects : List (String × Bytes)) where
    -- The artifact `a` has been stored for the checked request `c`.
    pub record IsUploaded (c : Checked) (a : Artifact) (w : World) : Type 0 where
      pub row :
          a
          ≡ artifact_of go id_time now c
              (record { size = length c.request.file.content; consumed = c.request.file.content })
      pub fresh : any (conflicts a) db.artifacts ≡ false
      pub state :
          At (with_artifact db a) (insert (name (key_of c)) c.request.file.content objects) w

    deleted :
        (c : Checked) (r : Result (Unit {0})) (w : World)
        → Post
            (λ _.
              At db (
                remove (name (key_of c)) (insert (name (key_of c)) c.request.file.content objects)))
            (λ _.
              AtBut (name (key_of c)) db (insert (name (key_of c)) c.request.file.content objects))
            r
            w
        → AtBut (name (key_of c)) db objects w
    deleted c (ok _) w h = record {
      tables = h.tables;
      others = λ j ne. rw h.stored (
          lookup-remove (name (key_of c)) j _
          ∙ rw ne (lookup-insert (name (key_of c)) j _ objects ∙ rw ne refl));
    }
    deleted c (err _) w h = record {
      tables = h.tables;
      others = λ j ne. h.others j ne ∙ lookup-insert (name (key_of c)) j _ objects ∙ rw ne refl;
    }

    finish_upload-Triple :
        (c : Checked) (a : Artifact)
        → a
          ≡ artifact_of go id_time now c
              (record { size = length c.request.file.content; consumed = c.request.file.content })
        → (r : Result (Unit {0}))
        → Triple
            (Post
              (λ _ w.
                At (with_artifact db a) (insert (name (key_of c)) c.request.file.content objects) w
                × (any (conflicts a) db.artifacts ≡ false))
              (λ _. At db (insert (name (key_of c)) c.request.file.content objects))
              r)
            (finish_upload stor a r)
            (IsUploaded c)
            (λ _. AtBut (name (key_of c)) db objects)
    unfolding finish_upload artifact_of
    finish_upload-Triple c a e (ok _) =
        Triple-return _ (λ w h. record { row = e; fresh = h.1; state = h.0 })
    finish_upload-Triple c a e (err x) =
        let here : a.storage_key ≡ key_of c = ap (λ (r : Artifact). r.storage_key) e in
        let gone =
          bk.delete_keeps (key_of c) db (insert (name (key_of c)) c.request.file.content objects) in
        Triple-bind (attempt (stor.delete a.storage_key)) (λ _. fail x)
          (Triple-attempt (stor.delete a.storage_key) (λ _. AtBut (name (key_of c)) db objects)
            (rw here gone))
          (λ r. Triple-fail x (deleted c r))

    -- The file is stored, and `a` is the record for it; no table has changed.
    abbrev pub IsStored : Checked → Artifact → World → Type 0
    IsStored c a w =
        At db (insert (name (key_of c)) c.request.file.content objects) w
        × (a
            ≡ artifact_of go id_time now c (record {
              size = length c.request.file.content;
              consumed = c.request.file.content;
            }))

    pub stored_artifact-Triple :
        (c : Checked)
        → Triple
            (At db objects)
            (stored_artifact go engine stor id_time now c)
            (IsStored c)
            (λ _. AtBut (name (key_of c)) db objects)
    unfolding stored_artifact
    stored_artifact-Triple c =
        Triple-bind _ _
          (Triple-on_error _ _ (
            Triple-weaken _ (bk.store_keeps (key_of c) c.request.file db objects)
              (λ s w h. (h.0, (h.1, h.2))) (λ _ w h. h)))
          λ s.
            Triple-fact
              {F = (s.size ≡ length c.request.file.content) × (s.consumed ≡ c.request.file.content)}
              _
              λ f. Triple-return _ λ w h.
                (h, λ i. artifact_of go id_time now c (record { size = f.0 i; consumed = f.1 i }))

    store_checked-Triple :
        (c : Checked)
        → Triple
            (At db objects)
            (store_checked go engine stor id_time now c)
            (IsUploaded c)
            (λ _. AtBut (name (key_of c)) db objects)
    unfolding store_checked
    store_checked-Triple c = Triple-bind _ _ (stored_artifact-Triple c) λ a. Triple-fact _ λ e.
        Triple-bind (attempt (save_artifact engine a)) (finish_upload stor a)
          (Triple-attempt (save_artifact engine a) (λ _. AtBut (name (key_of c)) db objects)
            (save_artifact-Triple engine a db
              (insert (name (key_of c)) c.request.file.content objects)))
          (finish_upload-Triple c a e)

    -- A failed upload leaves the tables, and of the stored objects all but that of its own key.
    pub record IsUnchanged (req : UploadRequest) (w : World) : Type 0 where
      pub tables : w.db ≡ db
      pub others :
          (j : String)
          → ((v : String)
              → normalize_version req.version ≡ ok v
              → (name (storage_key req.type req.name v) == j) ≡ false)
          → lookup j w.objects ≡ lookup j objects

    -- Whatever calls fail, `Upload` ends in one of two ways. It returns the artifact: then the
    -- request passed the checks, no row had the identifier or the version, the row is added, the
    -- content of the request is what the backend holds for the key, and the recorded size and hash
    -- are those of that content. Or it fails: then no table has changed, and no stored object but
    -- the one of the request's own key.
    pub upload-Triple :
        (req : UploadRequest)
        → Triple
            (At db objects)
            (upload go engine stor id_time now req)
            (λ a w. (c : Checked) × IsChecked go req c × IsUploaded c a w)
            (λ _. IsUnchanged req)
    unfolding upload
    upload-Triple req =
        Triple-bind _ _
          (Triple-weaken _ (check_upload-Triple go req (At db objects)) (λ c w h. h)
            (λ _ w h. record { tables = h.tables; others = λ j _. rw h.stored refl }))
          λ c. Triple-fact _ λ good.
            Triple-weaken _ (store_checked-Triple c) (λ a w h. (c, good, h))
              (λ _ w h. record {
                tables = h.tables;
                others = λ j ne. h.others j (rw good.same (ne c.version good.version_ok));
              })

  -- Once uploaded, an artifact is read back from the backend as it came, and its recorded hash and
  -- size are those of what is read.
  pub open-upload :
      (id_time now : ℕ) (db : Db) (objects : List (String × Bytes)) (c : Checked) (a : Artifact)
      (w : World)
      → IsUploaded id_time now db objects c a w
      → IsCalm w
      → (stor.open_key a.storage_key w ≡ (ok c.request.file.content, w))
        × (a.sha256 ≡ hex_text (go.sha256 c.request.file.content))
        × (a.size_bytes ≡ length c.request.file.content)
  unfolding artifact_of
  open-upload id_time now db objects c a w u calm =
      let kept : lookup (name (key_of c)) w.objects ≡ some c.request.file.content =
        rw u.state.stored (
          lookup-insert (name (key_of c)) (name (key_of c)) _ objects
          ∙ rw (eq_refl (name (key_of c))) refl) in
      (
        rw (ap (λ (r : Artifact). r.storage_key) u.row)
            (bk.open_calm (key_of c) w calm ∙ rw kept refl),
        ap (λ (r : Artifact). r.sha256) u.row,
        ap (λ (r : Artifact). r.size_bytes) u.row,
      )
