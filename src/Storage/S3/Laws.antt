-- ===== src/Storage/S3/Laws.antt =====
-- The S3 backend, on a client that keeps objects.
use artifact_registry_servic.Base.{
  String, ◌≡◌, refl, ◌⊎◌, inl, inr, true, List, Option, none, some, length, lookup, insert, remove,
}
use artifact_registry_servic.Exec.{ok}
use artifact_registry_servic.Exec.Triple.{
  Triple, Triple-bind, Triple-on_error, Triple-weaken, Triple-return, Triple-fail,
}
use artifact_registry_servic.World.{World, Db, Bytes, external}
use artifact_registry_servic.World.Laws.{At, IsCalm, Triple-external, external-calm}
use artifact_registry_servic.Platform.{Platform}
use artifact_registry_servic.Storage.{Reader, AtBut, IsBackend, content_or_missing}
use artifact_registry_servic.Storage.S3.{
  ClientError, Client, object_key, map_not_found, buffered, opened, put, store, open_key, delete,
  s3,
}

-- What the calls of a client give for an object that is there, or not.
abbrev pub IsFetched : Option Bytes → (ClientError ⊎ Bytes) × World → World → Type 0
IsFetched (some content) r w = r ≡ (inr content, w)
IsFetched none r w = (e : ClientError) × (e.no_such_key ≡ true) × (r ≡ (inl e, w))

-- The client keeps the object of a bucket and a key under a name: a put replaces it as a whole, a
-- delete removes it, and where one of them fails it may have been done or not. A get of a key that
-- has no object is answered with NoSuchKey.
pub record IsClient (c : Client) (name : String → String → String) : Type 0 where
  pub put_keeps :
      (bucket key : String) (content : Bytes) (db : Db) (objects : List (String × Bytes))
      → Triple
          (At db objects)
          (c.put_object bucket key content)
          (λ _. At db (insert (name bucket key) content objects))
          (λ _. AtBut (name bucket key) db objects)
  pub delete_keeps :
      (bucket key : String) (db : Db) (objects : List (String × Bytes))
      → Triple
          (At db objects)
          (c.delete_object bucket key)
          (λ _. At db (remove (name bucket key) objects))
          (λ _. AtBut (name bucket key) db objects)
  pub put_calm :
      (bucket key : String) (content : Bytes) (w : World)
      → IsCalm w
      → c.put_object bucket key content w
        ≡ (ok tt, record w { objects = insert (name bucket key) content w.objects })
  pub delete_calm :
      (bucket key : String) (w : World)
      → IsCalm w
      → c.delete_object bucket key w
        ≡ (ok tt, record w { objects = remove (name bucket key) w.objects })
  pub get_calm :
      (bucket key : String) (w : World)
      → IsCalm w
      → IsFetched (lookup (name bucket key) w.objects) (c.get_object bucket key w) w

module _ (name : String) (db : Db) (objects : List (String × Bytes)) where
  external-kept : Triple (At db objects) external (λ _. At db objects) (λ _. AtBut name db objects)
  external-kept =
      Triple-weaken external Triple-external (λ _ w h. h)
        (λ _ w h. record { tables = h.tables; others = λ j ne. rw h.stored refl })

  buffered-Triple :
      (failure : Option String)
      → Triple (At db objects) (buffered failure) (λ _. At db objects) (λ _. AtBut name db objects)
  unfolding buffered
  buffered-Triple none = external-kept
  buffered-Triple (some text) =
      Triple-bind external _ external-kept (λ _.
        Triple-fail _ (λ w h. record { tables = h.tables; others = λ j ne. rw h.stored refl }))

module _ (go : Platform) (client : Client) (name : String → String → String)
    (keeps : IsClient client name) (bucket prefix : String) where
  -- The name of the object of a key.
  abbrev pub object_name : String → String
  object_name key = name bucket (object_key prefix key)

  store-Triple :
      (key : String) (r : Reader) (db : Db) (objects : List (String × Bytes))
      → Triple
          (At db objects)
          (store go client bucket prefix key r)
          (λ s w.
            At db (insert (object_name key) r.content objects) w
            × (s.size ≡ length r.content)
            × (s.consumed ≡ r.content))
          (λ _. AtBut (object_name key) db objects)
  unfolding store put
  store-Triple key r db objects =
      let kept = external-kept (object_name key) db objects in
      Triple-bind _ _ (Triple-on_error _ external kept) λ _.
        Triple-bind _ _
          (Triple-on_error _ (buffered r.failure)
            (buffered-Triple (object_name key) db objects r.failure))
          λ _. Triple-bind _ _ (Triple-on_error _ external kept) λ _.
            Triple-bind _ _
              (Triple-on_error _ _
                (keeps.put_keeps bucket (object_key prefix key) r.content db objects))
              (λ _. Triple-return _ (λ w h. (h, refl, refl)))

  store_calm :
      (key : String) (r : Reader) (w : World)
      → IsCalm w
      → r.failure ≡ none
      → store go client bucket prefix key r w ≡ (
        ok (record { size = length r.content; consumed = r.content }),
        record w { objects = insert (object_name key) r.content w.objects },
      )
  unfolding store put buffered
  store_calm key r w calm good = rw (external-calm w calm) (
      rw good (
        rw (external-calm w calm) (
          rw (external-calm w calm)
            (rw (keeps.put_calm bucket (object_key prefix key) r.content w calm) refl))))

  opened-fetched :
      (key : String) (w : World) (o : Option Bytes) (r : (ClientError ⊎ Bytes) × World)
      → IsFetched o r w
      → opened go key r ≡ (content_or_missing o, w)
  unfolding opened map_not_found
  opened-fetched key w (some content) r h = rw h refl
  opened-fetched key w none r (e, missing, h) = rw h (rw missing refl)

  -- On a client that keeps its objects as S3 documents it, the S3 backend is a backend: `Store`
  -- writes the whole content under the prefixed key in the bucket, and returns its length; where
  -- it fails, no other object has changed. `Delete` removes that object alone, and `Open` reads it.
  pub s3-IsBackend : IsBackend (s3 go client bucket prefix) object_name
  unfolding s3 delete open_key
  s3-IsBackend = record {
    store_keeps = store-Triple;
    delete_keeps = λ key db objects.
        Triple-on_error _ _ (keeps.delete_keeps bucket (object_key prefix key) db objects);
    store_calm = store_calm;
    delete_calm = λ key w calm. rw (keeps.delete_calm bucket (object_key prefix key) w calm) refl;
    open_calm = λ key w calm.
        opened-fetched key w (lookup (object_name key) w.objects) _
          (keeps.get_calm bucket (object_key prefix key) w calm);
  }
