-- ===== src/Registry/Service/Upload/Taken.antt =====
-- An upload of a version that is there already.
use artifact_registry_servic.Base.{
  ℕ, String, ◌≡◌, refl, ◌∙◌, true, List, [], none, some, any, find, ◌∷◌, length, insert, remove,
  lookup-remove, eq_refl, arith,
}
use artifact_registry_servic.Domain.{Artifact}
use artifact_registry_servic.Domain.Errors.{sentinel, already_exists, not_found}
use artifact_registry_servic.Exec.{ok, err}
use artifact_registry_servic.World.{World, Db, Engine}
use artifact_registry_servic.World.Laws.{IsCalm}
use artifact_registry_servic.Platform.{Platform}
use artifact_registry_servic.Storage.{Stored, Backend, IsBackend}
use artifact_registry_servic.Sqlite.Errors.{contains}
use artifact_registry_servic.Sqlite.Artifacts.{is_artifact, conflicts, find_artifact}
use artifact_registry_servic.Sqlite.Artifacts.Laws.{save_artifact_taken}
use artifact_registry_servic.Registry.Service.{
  UploadRequest, Checked, key_of, artifact_of, check_upload, store_checked, upload,
}

taken :
    (a old : Artifact) (rows : List Artifact)
    → find (is_artifact a.type a.name a.version) rows ≡ some old
    → any (conflicts a) rows ≡ true
taken a old [] h = cc
taken a old (row ∷ rows) h = ground (arith, taken a old rows)

artifact_taken :
    (go : Platform) (id_time now : ℕ) (c : Checked) (stored : Stored) (old : Artifact) (db : Db)
    → find_artifact db c.request.type c.request.name c.version ≡ some old
    → any (conflicts (artifact_of go id_time now c stored)) db.artifacts ≡ true
unfolding artifact_of find_artifact
artifact_taken go id_time now c stored old db found =
    taken (artifact_of go id_time now c stored) old db.artifacts found

module _ (go : Platform) (engine : Engine) (stor : Backend) (name : String → String)
    (bk : IsBackend stor name) where
  store_checked_taken :
      (id_time now : ℕ) (c : Checked) (old : Artifact) (w : World)
      → IsCalm w
      → contains engine.unique_error "UNIQUE constraint failed" ≡ true
      → c.request.file.failure ≡ none
      → find_artifact w.db c.request.type c.request.name c.version ≡ some old
      → store_checked go engine stor id_time now c w ≡ (
        err (sentinel already_exists),
        record w {
          objects =
              remove (name (key_of c)) (insert (name (key_of c)) c.request.file.content w.objects);
        },
      )
  unfolding store_checked
  store_checked_taken id_time now c old w calm says whole found =
      let w1 = record w { objects = insert (name (key_of c)) c.request.file.content w.objects } in
      let a =
        artifact_of go id_time now c
          (record { size = length c.request.file.content; consumed = c.request.file.content }) in
      rw (bk.store_calm (key_of c) c.request.file w calm whole) (
        rw
          (save_artifact_taken engine a w1 calm says (
            artifact_taken go id_time now c
              (record { size = length c.request.file.content; consumed = c.request.file.content })
              old w.db found))
          (unfold artifact_of in rw (bk.delete_calm (key_of c) w1 calm) refl))

  -- Where the backend and the database answer, an upload of a version that is there already is
  -- refused with `ErrAlreadyExists` and changes no table, but the stored object of that version is
  -- gone: what was stored is overwritten first, and then deleted.
  pub upload_taken :
      (id_time now : ℕ) (req : UploadRequest) (c : Checked) (old : Artifact) (w : World)
      → IsCalm w
      → contains engine.unique_error "UNIQUE constraint failed" ≡ true
      → check_upload go req w ≡ (ok c, w)
      → c.request.file.failure ≡ none
      → find_artifact w.db c.request.type c.request.name c.version ≡ some old
      → let (r, w') = upload go engine stor id_time now req w in
        (r ≡ err (sentinel already_exists))
        × (w'.db ≡ w.db)
        × (stor.open_key (key_of c) w' ≡ (err (sentinel not_found), w'))
  upload_taken id_time now req c old w calm says good whole found = rw run (
    refl,
    refl,
    bk.open_calm (key_of c) _ calm
        ∙ rw (lookup-remove (name (key_of c)) (name (key_of c)) _)
            (rw (eq_refl (name (key_of c))) refl),
  )
    where
      run : upload go engine stor id_time now req w ≡ (
        err (sentinel already_exists),
        record w {
          objects =
              remove (name (key_of c)) (insert (name (key_of c)) c.request.file.content w.objects);
        },
      )
      run = unfold upload in rw good (store_checked_taken id_time now c old w calm says whole found)
