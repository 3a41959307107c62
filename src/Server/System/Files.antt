-- ===== src/Server/System/Files.antt =====
-- The files of the stored artifacts, with the local backend.
use artifact_registry_servic.Base.{
  find-All, String, ◌==◌, eq_iff, Bool-cases, inl, inr, ◌≡◌, refl, sym, ap, ◌∙◌, true, false,
  has_prefix, some, arith,
}
use artifact_registry_servic.Domain.{Artifact}
use artifact_registry_servic.Auth.{Store}
use artifact_registry_servic.Exec.{ok}
use artifact_registry_servic.Platform.{Platform}
use artifact_registry_servic.Storage.{IsBackend}
use artifact_registry_servic.Storage.Path.Laws.{is_plain}
use artifact_registry_servic.Storage.Local.{full_path}
use artifact_registry_servic.Storage.Local.Paths.{full_path_apart}
use artifact_registry_servic.Sqlite.Artifacts.{find_artifact, is_artifact}
use artifact_registry_servic.Registry.Identifier.{storage_key}
use artifact_registry_servic.Registry.Version.{normalize_version}
use artifact_registry_servic.Registry.Version.Normal.{normalize_version-IsNormal}
use artifact_registry_servic.Webhooks.Dispatcher.{sqlite_store}
use artifact_registry_servic.Api.Handlers.{Handler}
use artifact_registry_servic.Server.Integrity.{IsSound}
use artifact_registry_servic.Server.Catalog.Tables.{named}
use artifact_registry_servic.Server.System.{System, Reach}
use artifact_registry_servic.Server.System.Invariant.{Reach-IsRunning}
use artifact_registry_servic.Server.System.Pointers.{normal-no_slash}

other_text : (v s : String) → has_prefix v "v" ≡ true → has_prefix s "v" ≡ false → (v == s) ≡ false
other_text v s h k = elim (Bool-cases (v == s)) [
  | inr e ↦ e
  | inl e ↦
      let same : v ≡ s = (eq_iff v s).0 e in
      absurd (ground (arith, ap (λ x. has_prefix x "v") same))
]

prefixed-is_plain :
    (v : String) → has_prefix v "v" ≡ true → normalize_version v ≡ ok v → is_plain v ≡ true
unfolding has_prefix
prefixed-is_plain v h n = rw (normal-no_slash v n) (
    rw (other_text v "" h refl) (rw (other_text v "." h refl) (rw (other_text v ".." h refl) refl)))

normal-is_plain : (v : String) → normalize_version v ≡ ok v → is_plain v ≡ true
normal-is_plain v k =
    let (grammar, prefixed, characters, again) = normalize_version-IsNormal v v k in
    prefixed-is_plain v prefixed k

module _ (h : Handler) (store : Store) (name : String → String) (bk : IsBackend h.stor name)
    (is : h.wh.store ≡ some (sqlite_store h.engine)) {s : System} (r : Reach h store s) where
  -- What a stored artifact is stored under.
  stored :
      (type app version : String) (a : Artifact)
      → find_artifact s.world.db type app version ≡ some a
      → (a.storage_key ≡ storage_key type app version) × (is_plain version ≡ true)
  unfolding find_artifact
  stored type app version a found =
      let sane = (Reach-IsRunning h store name bk is r).consistent in
      let (here, sound) =
        find-All IsSound (is_artifact type app version) s.world.db.artifacts a found sane.sound in
      let (t, n, v) = named type app version a here in
      (rw⁻¹ t (rw⁻¹ n (rw⁻¹ v sound.keyed)), rw⁻¹ v (normal-is_plain a.version sound.normal))

  -- With a backend that keeps its laws and deliveries in the database: in every state that the
  -- service reaches from an empty database, two stored artifacts whose types and names are plain
  -- (not empty, without slashes, and neither `.` nor `..`) have the same file below a base
  -- directory that is not empty only if they agree in type, name and version.
  pub Reach-files :
      (go : Platform) (base : String)
      → (base == "") ≡ false
      → (t n v t' n' v' : String) (a b : Artifact) → find_artifact s.world.db t n v ≡ some a
      → find_artifact s.world.db t' n' v' ≡ some b
      → is_plain t ≡ true
      → is_plain n ≡ true
      → is_plain t' ≡ true
      → is_plain n' ≡ true
      → full_path go base a.storage_key ≡ full_path go base b.storage_key
      → (t ≡ t') × (n ≡ n') × (v ≡ v')
  Reach-files go base given t n v t' n' v' a b first second ht hn ht' hn' same =
      let (key, hv) = stored t n v a first in
      let (key', hv') = stored t' n' v' b second in
      full_path_apart go base given t n v t' n' v' ht hn hv ht' hn' hv'
        (ap (full_path go base) (sym key) ∙ same ∙ ap (full_path go base) key')
