-- ===== src/Storage/Local/Laws.antt =====
-- The local disk as a backend, with the full paths of its keys as names.
use artifact_registry_servic.Base.{
  String, ◌≡◌, refl, sym, List, [], Option, none, some, length, insert, remove, lookup-insert,
  lookup-remove, insert-insert, ◌∙◌,
}
use mathlib.Core.Path.{subst}
use artifact_registry_servic.Domain.Errors.{Error, wrapped}
use artifact_registry_servic.Exec.{Result, ok, err, attempt, fail}
use artifact_registry_servic.Exec.Triple.{
  Post, Triple, Triple-bind, Triple-on_error, Triple-weaken, Triple-attempt, Triple-return,
  Triple-fail,
}
use artifact_registry_servic.World.{World, Db, Bytes, external}
use artifact_registry_servic.World.Laws.{At, Triple-external, Triple-external_stable, external-calm}
use artifact_registry_servic.Platform.{Platform}
use artifact_registry_servic.Storage.{Reader, Stored, AtBut, IsBackend}
use artifact_registry_servic.Storage.Local.{
  write_file, drop_file, read_file, ended, copy, remove_file, finish_store, full_path, store,
  open_key, delete, local,
}

write_file-Triple :
    (path : String) (content : Bytes) (db : Db) (objects : List (String × Bytes))
    (R : Error → World → Type 0)
    → Triple (At db objects) (write_file path content) (λ _. At db (insert path content objects)) R
unfolding write_file
write_file-Triple path content db objects R = record {
  at = λ w h. record { tables = h.tables; stored = rw h.stored refl };
}

module _ (path : String) (db : Db) (objects : List (String × Bytes)) where
  At-AtBut : (w : World) → At db objects w → AtBut path db objects w
  At-AtBut w h = record { tables = h.tables; others = λ j ne. rw h.stored refl }

  At-AtBut-insert :
      (content : Bytes) (w : World)
      → At db (insert path content objects) w
      → AtBut path db objects w
  At-AtBut-insert content w h = record {
    tables = h.tables;
    others = λ j ne. rw h.stored (lookup-insert path j content objects ∙ rw ne refl);
  }

  drop_file-Triple :
      Triple
        (AtBut path db objects)
        (drop_file path)
        (λ _. AtBut path db objects)
        (λ _. AtBut path db objects)
  unfolding drop_file
  drop_file-Triple = record {
    at = λ w h. record {
      tables = h.tables;
      others = λ j ne. lookup-remove path j w.objects ∙ rw ne (h.others j ne);
    };
  }

  external-AtBut :
      Triple
        (AtBut path db objects)
        external
        (λ _. AtBut path db objects)
        (λ _. AtBut path db objects)
  external-AtBut =
      Triple-external_stable (AtBut path db objects)
        (λ w l h. record { tables = h.tables; others = h.others })

  external-or_AtBut :
      Triple (At db objects) external (λ _. At db objects) (λ _. AtBut path db objects)
  external-or_AtBut = Triple-weaken external Triple-external (λ _ w h. h) (λ _ w h. At-AtBut w h)

  remove_file-Triple :
      Triple
        (AtBut path db objects)
        (remove_file path)
        (λ _. AtBut path db objects)
        (λ _. AtBut path db objects)
  unfolding remove_file
  remove_file-Triple = Triple-bind external _ external-AtBut (λ _. drop_file-Triple)

  ended-Triple :
      (content : Bytes) (failure : Option String)
      → Triple
          (At db (insert path content objects))
          (ended failure)
          (λ _. At db (insert path content objects))
          (λ _. AtBut path db objects)
  ended-Triple content none = Triple-return tt (λ w h. h)
  ended-Triple content (some text) = Triple-fail _ (At-AtBut-insert content)

  abbrev IsWritten : Reader → Stored → World → Type 0
  IsWritten r s w =
      At db (insert path r.content objects) w
      × (s.size ≡ length r.content)
      × (s.consumed ≡ r.content)

  finish_store-Triple :
      (r : Reader) (x : Result (Unit {0}))
      → Triple
          (Post (λ _. At db (insert path r.content objects)) (λ _. AtBut path db objects) x)
          (finish_store path r x)
          (IsWritten r)
          (λ _. AtBut path db objects)
  unfolding finish_store
  finish_store-Triple r (ok _) = Triple-return _ (λ w h. (h, refl, refl))
  finish_store-Triple r (err e) =
      Triple-bind (attempt (remove_file path)) (λ _. fail (wrapped "write artifact: " e ""))
        (Triple-attempt (remove_file path) (λ _. AtBut path db objects) remove_file-Triple)
        λ x. record { at = λ w h. either x w h }
    where
      either :
          (x : Result (Unit {0})) (w : World)
          → Post (λ _. AtBut path db objects) (λ _. AtBut path db objects) x w
          → AtBut path db objects w
      either (ok _) w h = h
      either (err _) w h = h

  copy-Triple :
      (r : Reader)
      → Triple
          (At db (insert path [] objects))
          (copy path r)
          (λ _. At db (insert path r.content objects))
          (λ _. AtBut path db objects)
  unfolding copy
  copy-Triple r =
      Triple-bind external _
        (Triple-weaken external Triple-external (λ _ w h. h) (λ _. At-AtBut-insert []))
        λ _.
          Triple-bind _ _
            (Triple-weaken _
              (write_file-Triple path r.content db (insert path [] objects)
                (λ _. AtBut path db objects))
              (λ _ w h. record {
                tables = h.tables;
                stored = h.stored ∙ insert-insert path r.content [] objects;
              })
              (λ _ w h. h))
            (λ _. ended-Triple r.content r.failure)

module _ (go : Platform) (base_dir : String) where
  store-Triple :
      (key : String) (r : Reader) (db : Db) (objects : List (String × Bytes))
      → let path = full_path go base_dir key in
        Triple
          (At db objects)
          (store go base_dir key r)
          (IsWritten path db objects r)
          (λ _. AtBut path db objects)
  unfolding store
  store-Triple key r db objects =
      let path = full_path go base_dir key in
      Triple-bind _ _ (Triple-on_error _ _ (external-or_AtBut path db objects)) λ _.
        Triple-bind _ _
          (Triple-on_error _ _ (
            Triple-bind external _ (external-or_AtBut path db objects)
              (λ _. write_file-Triple path [] db objects _)))
          λ _.
            Triple-bind _ _
              (Triple-attempt (copy path r) (λ _. AtBut path db objects)
                (copy-Triple path db objects r))
              (finish_store-Triple path db objects r)

  delete-Triple :
      (key : String) (db : Db) (objects : List (String × Bytes))
      → Triple
          (At db objects)
          (delete go base_dir key)
          (λ _. At db (remove (full_path go base_dir key) objects))
          (λ _. AtBut (full_path go base_dir key) db objects)
  unfolding delete drop_file
  delete-Triple key db objects =
      Triple-bind _ _
        (Triple-on_error _ _ (external-or_AtBut (full_path go base_dir key) db objects))
        λ _. record { at = λ w h. record { tables = h.tables; stored = rw h.stored refl } }

  store_calm :
      (key : String) (r : Reader) (db : Db) (objects : List (String × Bytes))
      → r.failure ≡ none
      → store go base_dir key r (record { db = db; objects = objects; faults = [] }) ≡ (
        ok (record { size = length r.content; consumed = r.content }),
        record {
          db = db;
          objects = insert (full_path go base_dir key) r.content objects;
          faults = [];
        },
      )
  unfolding store external
  store_calm key r db objects good = simp (good, insert-insert)

  -- `Store` writes the whole content under the path of the key, and returns its length; where it
  -- fails, no other file has changed. `Delete` removes that file alone, and `Open` reads it.
  pub local-IsBackend : IsBackend (local go base_dir) (full_path go base_dir)
  unfolding local
  local-IsBackend = record {
    store_keeps = store-Triple;
    delete_keeps = delete-Triple;
    store_calm = λ key r w calm good.
        subst
          (λ faults.
            let v : World = record { db = w.db; objects = w.objects; faults = faults } in
            store go base_dir key r v ≡ (
              ok (record { size = length r.content; consumed = r.content }),
              record v { objects = insert (full_path go base_dir key) r.content w.objects },
            ))
          (sym calm) (store_calm key r w.db w.objects good);
    delete_calm = λ key w calm. unfold delete drop_file in rw (external-calm w calm);
    open_calm = λ key w calm. unfold open_key read_file in rw (external-calm w calm);
  }
