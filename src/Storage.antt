-- ===== src/Storage.antt =====
-- internal/storage/storage.go: the interface of a storage backend, and what callers rely on.
pub mod Path
pub mod Local
pub mod S3
pub mod Factory
use artifact_registry_servic.Base.{
  ℕ, String, ◌≡◌, ◌==◌, false, List, Option, none, some, length, lookup, insert, remove,
}
use artifact_registry_servic.Domain.Errors.{sentinel, not_found}
use artifact_registry_servic.Exec.{Exec, Result, ok, err}
use artifact_registry_servic.Exec.Triple.{Triple}
use artifact_registry_servic.World.{World, Db, Bytes}
use artifact_registry_servic.World.Laws.{At, IsCalm}

-- An `io.Reader` read to its end: what comes, and the error that ends it before EOF, if any.
pub record Reader : Type 0 where
  pub content : Bytes
  pub failure : Option String

-- What `Store` returns, and the bytes that it read (they go through the caller's `TeeReader`).
pub record Stored : Type 0 where
  pub size : ℕ
  pub consumed : Bytes

-- `Backend`; the lifetime of a signed URL is in seconds.
pub record Backend : Type 0 where
  pub store : String → Reader → Exec World Stored
  pub open_key : String → Exec World Bytes
  pub get_signed_url : String → ℕ → Exec World String
  pub delete : String → Exec World (Unit {0})

abbrev pub content_or_missing : Option Bytes → Result Bytes
content_or_missing none = err (sentinel not_found)
content_or_missing (some content) = ok content

-- The objects are those given, but for the one of a name.
pub record AtBut (name : String) (db : Db) (objects : List (String × Bytes)) (w : World)
    : Type 0 where
  pub tables : w.db ≡ db
  pub others : (j : String) → (name == j) ≡ false → lookup j w.objects ≡ lookup j objects

-- A backend that keeps the object of each key under the name `name key`.
pub record IsBackend (b : Backend) (name : String → String) : Type 0 where
  pub store_keeps :
      (key : String) (r : Reader) (db : Db) (objects : List (String × Bytes))
      → Triple
          (At db objects)
          (b.store key r)
          (λ s w.
            At db (insert (name key) r.content objects) w
            × (s.size ≡ length r.content)
            × (s.consumed ≡ r.content))
          (λ _. AtBut (name key) db objects)
  pub delete_keeps :
      (key : String) (db : Db) (objects : List (String × Bytes))
      → Triple
          (At db objects)
          (b.delete key)
          (λ _. At db (remove (name key) objects))
          (λ _. AtBut (name key) db objects)
  pub store_calm :
      (key : String) (r : Reader) (w : World)
      → IsCalm w
      → r.failure ≡ none
      → b.store key r w ≡ (
        ok (record { size = length r.content; consumed = r.content }),
        record w { objects = insert (name key) r.content w.objects },
      )
  pub delete_calm :
      (key : String) (w : World)
      → IsCalm w
      → b.delete key w ≡ (ok tt, record w { objects = remove (name key) w.objects })
  pub open_calm :
      (key : String) (w : World)
      → IsCalm w
      → b.open_key key w ≡ (content_or_missing (lookup (name key) w.objects), w)
