-- ===== src/Storage/Factory/Laws.antt =====
-- The backends that `NewBackend` makes.
use artifact_registry_servic.Base.{
  String, ◌==◌, ◌||◌, ◌≡◌, sym, Bool, true, false, Bool-cases, inl, inr, to_lower, if◌then◌else◌,
}
use artifact_registry_servic.Domain.Errors.{Error}
use artifact_registry_servic.Exec.{
  Result, ok, err, ok_injective, ok≢err, continue, map_result, return,
}
use artifact_registry_servic.World.{World, external}
use artifact_registry_servic.Platform.{Platform}
use artifact_registry_servic.Config.{Config}
use artifact_registry_servic.Storage.{Backend, IsBackend}
use artifact_registry_servic.Storage.Local.{local, full_path}
use artifact_registry_servic.Storage.Local.Laws.{local-IsBackend}
use artifact_registry_servic.Storage.S3.{Client, S3Settings, s3, new_s3}
use artifact_registry_servic.Storage.S3.Laws.{IsClient, object_name, s3-IsBackend}
use artifact_registry_servic.Storage.Factory.{new_local, settings, new_backend}

module _ (b : Backend) where
  past_check :
      (missing : Bool) (x : Error) (r : Result Backend)
      → (if missing then err x else r) ≡ ok b
      → r ≡ ok b
  past_check true x r h = absurd (ok≢err (sym h))
  past_check false x r h = h

  returned :
      (f : Error → Error) (made : Result (Unit {0})) (b0 : Backend) (w : World)
      → (continue (map_result f made) (λ _. return b0) w).0 ≡ ok b
      → b0 ≡ b
  returned f (ok _) b0 w h = ok_injective h
  returned f (err e) b0 w h = absurd (ok≢err (sym h))

  new_local-local :
      (go : Platform) (base_dir : String) (w : World)
      → (new_local go base_dir w).0 ≡ ok b
      → local go base_dir ≡ b
  unfolding new_local
  new_local-local go base_dir w h = returned _ (external w).0 (local go base_dir) (external w).1 h

  new_s3-s3 :
      (go : Platform) (connect : S3Settings → Client) (s : S3Settings)
      → new_s3 go connect s ≡ ok b
      → s3 go (connect s) s.bucket s.prefix ≡ b
  unfolding new_s3
  new_s3-s3 go connect s h = ok_injective (
      past_check (s.endpoint == "") _ _ (
        past_check (s.secret_access_key == "") _ _ (
          past_check (s.access_key_id == "") _ _
            (past_check (s.region == "") _ _ (past_check (s.bucket == "") _ _ h)))))

module _ (go : Platform) (connect : S3Settings → Client)
    (name : S3Settings → String → String → String)
    (keeps : (s : S3Settings) → IsClient (connect s) (name s)) where
  abbrev pub SomeBackend : Backend → Type 0
  SomeBackend b = (f : String → String) × IsBackend b f

  from_s3 : (b : Backend) (s : S3Settings) → new_s3 go connect s ≡ ok b → SomeBackend b
  from_s3 b s h = rw⁻¹ (new_s3-s3 b go connect s h) (
    object_name go (connect s) (name s) (keeps s) s.bucket s.prefix,
    s3-IsBackend go (connect s) (name s) (keeps s) s.bucket s.prefix,
  )

  -- If S3 clients keep their objects as S3 documents it, every backend that `NewBackend` returns,
  -- for any configuration and whatever fails, keeps the laws that the service relies on, under some
  -- naming of its keys.
  pub new_backend-IsBackend :
      (cfg : Config) (w : World) (b : Backend)
      → (new_backend go connect cfg w).0 ≡ ok b
      → (f : String → String) × IsBackend b f
  unfolding new_backend
  new_backend-IsBackend cfg w b h =
      let kind = to_lower cfg.storage_backend in
      elim (Bool-cases (kind == "s3")) [
        | inl is_s3 ↦ from_s3 b (settings cfg) (rw is_s3 at h)
        | inr not_s3 ↦ elim (Bool-cases (kind == "" || kind == "local")) [
          | inl is_local ↦
              rw⁻¹ (new_local-local b go cfg.storage_dir w (rw is_local at (rw not_s3 at h)))
                (full_path go cfg.storage_dir, local-IsBackend go cfg.storage_dir)
          | inr neither ↦ absurd (ok≢err (sym (rw neither at (rw not_s3 at h))))
        ]
      ]
