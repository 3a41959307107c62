-- ===== src/Sqlite/Artifacts/Laws.antt =====
-- The artifact table: every outcome of `SaveArtifact`, and what later reads see.
use artifact_registry_servic.Base.{
  Option, none, sym, ap, ◌∙◌, String, eq_refl, ◌≡◌, refl, inl, inr, Bool, true, false, List, [],
  ◌∷◌, ◌++◌, some, any, find, Bool-cases, arith,
}
use artifact_registry_servic.Domain.{Artifact}
use artifact_registry_servic.Domain.Errors.{sentinel, already_exists, error_text}
use artifact_registry_servic.Exec.{err, Result-cases}
use artifact_registry_servic.World.{Db, World, Engine, Bytes, external}
use artifact_registry_servic.Exec.Triple.{Post, Triple, Triple-on_error, Triple-bind}
use artifact_registry_servic.World.Laws.{
  answer, later, external_lem, At, Triple-external, external-calm, IsCalm,
}
use artifact_registry_servic.Sqlite.Errors.{contains, is_unique_violation}
use artifact_registry_servic.Sqlite.Artifacts.{
  is_artifact, conflicts, insert_artifact, save_error, save_artifact, find_artifact, get_artifact,
  row_or_missing, read_artifact,
}

-- The tables with one more artifact.
abbrev pub with_artifact : Db → Artifact → Db
with_artifact db a = record db { artifacts = db.artifacts ++ a ∷ [] }

module _ (engine : Engine) (a : Artifact) (db : Db) (objects : List (String × Bytes)) where
  insert_artifact-Triple :
      Triple
        (At db objects)
        (insert_artifact engine a)
        (λ _ w. At (with_artifact db a) objects w × (any (conflicts a) db.artifacts ≡ false))
        (λ _. At db objects)
  unfolding insert_artifact
  insert_artifact-Triple = record {
    at = λ w h. elim (Bool-cases (any (conflicts a) w.db.artifacts)) [
      | inl clash ↦ rw clash h
      | inr free ↦
          rw free (record { tables = rw h.tables refl; stored = h.stored }, rw h.tables at free)
    ];
  }

  -- `SaveArtifact` either returns no error, and then no row had the identifier or the version, and
  -- the new row is the only change of the tables; or it returns an error and changes no table. It
  -- never touches the stored objects.
  pub save_artifact-Triple :
      Triple
        (At db objects)
        (save_artifact engine a)
        (λ _ w. At (with_artifact db a) objects w × (any (conflicts a) db.artifacts ≡ false))
        (λ _. At db objects)
  unfolding save_artifact
  save_artifact-Triple =
      Triple-on_error (save_error engine) _
        (Triple-bind external _ Triple-external (λ _. insert_artifact-Triple))

module _ (engine : Engine) where
  -- Where the database answers and its error for a broken constraint has the text that the code
  -- looks for, an artifact whose identifier or version is taken is refused as one that exists
  -- already.
  pub save_artifact_taken :
      (a : Artifact) (w : World)
      → IsCalm w
      → contains engine.unique_error "UNIQUE constraint failed" ≡ true
      → any (conflicts a) w.db.artifacts ≡ true
      → save_artifact engine a w ≡ (err (sentinel already_exists), w)
  unfolding save_artifact save_error insert_artifact is_unique_violation error_text
  save_artifact_taken a w calm says taken = rw (external-calm w calm) (rw taken (rw says))

-- A search behind which nothing is found, and its last row.
pub find-append_fresh :
    {A : Type 0} (p : A → Bool) (xs : List A) (x : A)
    → any p xs ≡ false
    → p x ≡ true
    → find p (xs ++ x ∷ []) ≡ some x
find-append_fresh p [] x h k = rw k
find-append_fresh p (y ∷ ys) x h k = ground (arith, find-append_fresh p ys x)

pub find-append_old :
    {A : Type 0} (p : A → Bool) (xs ys : List A) (a : A)
    → find p xs ≡ some a
    → find p (xs ++ ys) ≡ some a
find-append_old p [] ys a h = cc
find-append_old p (x ∷ xs) ys a h = ground (arith, find-append_old p xs ys a)

any-conflicts_version :
    (a : Artifact) (xs : List Artifact)
    → any (conflicts a) xs ≡ false
    → any (is_artifact a.type a.name a.version) xs ≡ false
any-conflicts_version a [] h = refl
any-conflicts_version a (x ∷ xs) h = ground (arith, any-conflicts_version a xs)

-- A saved artifact is what `GetArtifact` returns afterwards.
pub find-with_artifact :
    (db : Db) (a : Artifact)
    → any (conflicts a) db.artifacts ≡ false
    → find_artifact (with_artifact db a) a.type a.name a.version ≡ some a
unfolding find_artifact
find-with_artifact db a h =
    find-append_fresh _ db.artifacts a (any-conflicts_version a db.artifacts h) (simp eq_refl)

-- A version that is there stays what it is, whatever is saved afterwards.
pub find-with_artifact_old :
    (db : Db) (a : Artifact) (type name version : String) (old : Artifact)
    → find_artifact db type name version ≡ some old
    → find_artifact (with_artifact db a) type name version ≡ some old
unfolding find_artifact
find-with_artifact_old db a type name version old h = find-append_old _ db.artifacts (a ∷ []) old h

-- In a quiet world reading an artifact changes nothing, and gives the row or `ErrNotFound`.
pub get_artifact-find :
    (w : World) (type name version : String)
    → IsCalm w
    → get_artifact type name version w ≡ (row_or_missing (find_artifact w.db type name version), w)
unfolding get_artifact
get_artifact-find w type name version calm = rw (external-calm w calm)

module _ (type name version : String) (db : Db) (objects : List (String × Bytes)) where
  read_artifact-Triple :
      Triple
        (At db objects)
        (read_artifact type name version)
        (λ a w. At db objects w × (find_artifact db type name version ≡ some a))
        (λ _. At db objects)
  unfolding read_artifact
  read_artifact-Triple = record {
    at = λ w h. found w h (find_artifact w.db type name version) refl;
  }
    where
      found :
          (w : World)
          → At db objects w
          → (o : Option Artifact) → find_artifact w.db type name version ≡ o
          → Post
              (λ a w'. At db objects w' × (find_artifact db type name version ≡ some a))
              (λ _. At db objects)
              (row_or_missing o)
              w
      found w h none e = h
      found w h (some a) e = (h, ap (λ d. find_artifact d type name version) (sym h.tables) ∙ e)

  -- `GetArtifact` changes nothing, and what it returns is the row of the version.
  pub get_artifact-Triple :
      Triple
        (At db objects)
        (get_artifact type name version)
        (λ a w. At db objects w × (find_artifact db type name version ≡ some a))
        (λ _. At db objects)
  unfolding get_artifact
  get_artifact-Triple =
      Triple-bind _ _ (Triple-on_error _ _ Triple-external) (λ _. read_artifact-Triple)

-- `GetArtifact` is one call, and leaves everything but the outcomes of the coming calls.
pub get_artifact-later :
    (type name version : String) (w : World)
    → (get_artifact type name version w).1 ≡ record w { faults = later w.faults }
unfolding get_artifact read_artifact
get_artifact-later type name version w =
    rw (external_lem w)
      (elim (Result-cases (answer w.faults)) [ inl (u, e) ↦ rw e refl | inr (x, e) ↦ rw e refl ])
