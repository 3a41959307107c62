-- ===== src/Storage/Local.antt =====
-- internal/storage/local/local.go: the backend on the local disk. `objects` holds the files by
-- their full paths; directories are not tracked.
pub mod Laws
pub mod Paths
use artifact_registry_servic.Base.{
  ℕ, String, ◌<>◌, [], Option, none, some, length, lookup, insert, remove,
}
use artifact_registry_servic.Domain.Errors.{sentinel, wrapped, other, signed_url_unsupported}
use artifact_registry_servic.Exec.{
  ◌>>=◌, ◌>>◌, Exec, Result, ok, err, return, fail, attempt, on_error,
}
use artifact_registry_servic.World.{World, Bytes, external}
use artifact_registry_servic.Platform.{Platform}
use artifact_registry_servic.Storage.{Reader, Stored, Backend, content_or_missing}
use artifact_registry_servic.Storage.Path.{join}

-- The content of the file at a path is set.
write_file : String → Bytes → Exec World (Unit {0})
write_file path content w = (ok tt, record w { objects = insert path content w.objects })

-- There is no file at a path afterwards.
drop_file : String → Exec World (Unit {0})
drop_file path w = (ok tt, record w { objects = remove path w.objects })

read_file : String → Exec World Bytes
read_file path w = (content_or_missing (lookup path w.objects), w)

abbrev ended : Option String → Exec World (Unit {0})
ended none = return tt
ended (some text) = fail (other text)

-- `io.Copy`: a failing write leaves the new file empty, a failing read leaves what was read.
copy : String → Reader → Exec World (Unit {0})
unfolding write_file external
copy path r = do external; write_file path r.content; ended r.failure

-- `os.Remove`, its error dropped by the caller.
remove_file : String → Exec World (Unit {0})
unfolding drop_file external
remove_file path = do external; drop_file path

finish_store : String → Reader → Result (Unit {0}) → Exec World Stored
unfolding remove_file
finish_store path r (ok _) = return (record { size = length r.content; consumed = r.content })
finish_store path r (err e) = do attempt (remove_file path); fail (wrapped "write artifact: " e "")

module _ (go : Platform) (base_dir : String) where
  abbrev pub full_path : String → String
  full_path key = join base_dir key

  store : String → Reader → Exec World Stored
  unfolding copy finish_store write_file external
  store key r =
      let path = full_path key in
      do
        on_error (λ e. wrapped ("create dirs for " <> go.quote key <> ": ") e "") external
        on_error (λ e. wrapped ("create file " <> go.quote path <> ": ") e "")
            (do external; write_file path [])
        copied ← attempt (copy path r)
        finish_store path r copied

  open_key : String → Exec World Bytes
  unfolding read_file external
  open_key key = do
    on_error (λ e. wrapped ("open " <> go.quote (full_path key) <> ": ") e "") external
    read_file (full_path key)

  get_signed_url : String → ℕ → Exec World String
  get_signed_url key ttl = fail (sentinel signed_url_unsupported)

  -- A file that is not there is no error.
  delete : String → Exec World (Unit {0})
  unfolding drop_file external
  delete key = do
    on_error (λ e. wrapped ("delete " <> go.quote key <> ": ") e "") external
    drop_file (full_path key)

  -- `Local` as a `Backend`.
  unfoldable pub local : Backend
  unfolding store open_key get_signed_url delete
  local = record {
    store = store;
    open_key = open_key;
    get_signed_url = get_signed_url;
    delete = delete;
  }
