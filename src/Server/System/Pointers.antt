-- ===== src/Server/System/Pointers.antt =====
-- What readers may rely on in every state that the service reaches.
use artifact_registry_servic.Base.{
  ℕ, String, ◌==◌, eq_iff, ◌≡◌, refl, sym, ◌∙◌, Bool, true, false, not, Bool-cases, inl, inr, List,
  [], ◌∷◌, All, select, Pairwise, Pairwise-weaken, find-All, some, eqb, arith,
}
use artifact_registry_servic.Domain.{Artifact, ChannelPointer}
use artifact_registry_servic.Auth.{Store}
use artifact_registry_servic.Exec.{ok}
use artifact_registry_servic.World.{Db, Engine}
use artifact_registry_servic.World.Laws.{IsCalm}
use artifact_registry_servic.Platform.{Platform}
use artifact_registry_servic.Storage.{IsBackend}
use artifact_registry_servic.Sqlite.Artifacts.{find_artifact, is_artifact}
use artifact_registry_servic.Sqlite.Artifacts.Laws.{get_artifact-find}
use artifact_registry_servic.Sqlite.Channels.{is_channel, find_channel, history_rows}
use artifact_registry_servic.Sqlite.Channels.Laws.{with_channel}
use artifact_registry_servic.Sqlite.Channels.Calls.{get_channel_calm}
use artifact_registry_servic.Sqlite.Rows.Laws.{sort_rows-All}
use artifact_registry_servic.Registry.Version.{normalize_version}
use artifact_registry_servic.Registry.Version.Normal.{is_version_char, normalize_version-IsNormal}
use artifact_registry_servic.Base.Text.Split.{no_slash}
use artifact_registry_servic.Registry.Identifier.Laws.{storage_key_injective}
use artifact_registry_servic.Base.Text.Trim.{all_chars_weaken}
use artifact_registry_servic.Registry.Service.{resolve_latest, rollback}
use artifact_registry_servic.Registry.Service.Rollback.{restored, rollback_calm}
use artifact_registry_servic.Webhooks.Dispatcher.{sqlite_store}
use artifact_registry_servic.Api.Handlers.{Handler}
use artifact_registry_servic.Server.Integrity.{IsSound, Refers, IsApart, IsConsistent}
use artifact_registry_servic.Server.System.{System, Reach}
use artifact_registry_servic.Server.System.Invariant.{Reach-IsRunning}

is_channel_named :
    (channel type name : String) (ch : ChannelPointer)
    → is_channel channel type name ch ≡ true
    → (ch.type ≡ type) × (ch.name ≡ name)
is_channel_named channel type name ch h =
    (ground (arith, eq_iff ch.type type), ground (arith, eq_iff ch.name name, eq_iff ch.type type))

is_artifact_version :
    (type name version : String) (a : Artifact)
    → is_artifact type name version a ≡ true
    → a.version ≡ version
is_artifact_version type name version a h = ground (arith, eq_iff a.version version)

-- What a pointer of a channel refers to, read by the channel's type and name.
pub referred :
    (db : Db) (channel type name : String) (ch : ChannelPointer)
    → IsConsistent db
    → is_channel channel type name ch ≡ true
    → Refers db.artifacts ch
    → (a : Artifact) × (find_artifact db type name ch.version ≡ some a)
      × (ch.artifact_id ≡ a.id)
      × (normalize_version ch.version ≡ ok ch.version)
unfolding find_artifact
referred db channel type name ch sane here (a, found, same) =
    let (t, n) = is_channel_named channel type name ch here in
    let (is, sound) = find-All IsSound _ db.artifacts a found sane.sound in
    (
      a,
      rw⁻¹ t (rw⁻¹ n found),
      same,
      rw⁻¹ (is_artifact_version ch.type ch.name ch.version a is) sound.normal,
    )

-- The rows of a channel's history refer to artifacts, as the whole history does.
listed :
    (engine : Engine) (db : Db) (channel type name : String)
    → IsConsistent db
    → All
        (λ ch. (is_channel channel type name ch ≡ true) × Refers db.artifacts ch)
        (history_rows engine db channel type name)
unfolding history_rows
listed engine db channel type name sane =
    sort_rows-All _ _ _
      (All-passing (is_channel channel type name) db.channel_history sane.recorded)
  where
    All-passing :
        (f : ChannelPointer → Bool) (xs : List ChannelPointer)
        → All (Refers db.artifacts) xs
        → All (λ ch. (f ch ≡ true) × Refers db.artifacts ch) (select f xs)
    All-passing f [] h = tt
    All-passing f (x ∷ xs) (p, h) = elim (Bool-cases (f x)) [
      | inl e ↦ rw e ((e, p), All-passing f xs h)
      | inr e ↦ rw e (All-passing f xs h)
    ]

pub normal-no_slash : (v : String) → normalize_version v ≡ ok v → no_slash v ≡ true
normal-no_slash v h =
    let (grammar, prefixed, characters, again) = normalize_version-IsNormal v v h in
    all_chars_weaken is_version_char (λ c. not (eqb c b'/')) (λ c k. ground arith) v characters

keys_apart :
    (a b : Artifact)
    → IsSound a
    → IsSound b
    → IsApart a b
    → (a.storage_key == b.storage_key) ≡ false
keys_apart a b sa sb apart = elim (Bool-cases (a.storage_key == b.storage_key)) [
  | inr other ↦ other
  | inl same ↦
      let equal : a.storage_key ≡ b.storage_key = (eq_iff a.storage_key b.storage_key).0 same in
      let (t, n, v) =
        storage_key_injective a.type a.name a.version b.type b.name b.version sa.plain_type
          sa.plain_name (normal-no_slash a.version sa.normal) sb.plain_type sb.plain_name
          (normal-no_slash b.version sb.normal) (sym sa.keyed ∙ equal ∙ sb.keyed) in
      ground (arith, eq_iff a.type b.type, eq_iff a.name b.name, eq_iff a.version b.version)
]

module _ (h : Handler) (store : Store) (name : String → String) (bk : IsBackend h.stor name)
    (is : h.wh.store ≡ some (sqlite_store h.engine)) (s : System) (r : Reach h store s) where
  -- With a backend that keeps its laws and deliveries in the database: in every state that the
  -- service reaches from an empty database, a channel that has a pointer resolves, where the
  -- database answers, to the artifact whose identifier the pointer carries.
  pub Reach-resolve_latest :
      (go : Platform) (channel type app : String) (ch : ChannelPointer)
      → IsCalm s.world
      → find_channel s.world.db channel type app ≡ some ch
      → (a : Artifact) × (resolve_latest go channel type app s.world ≡ (ok a, s.world))
        × (ch.artifact_id ≡ a.id)
  unfolding resolve_latest
  Reach-resolve_latest go channel type app ch calm found =
      let sane = (Reach-IsRunning h store name bk is r).consistent in
      let (here, refers) =
        find-All (Refers s.world.db.artifacts) (is_channel channel type app) s.world.db.channels ch
          (unfold find_channel in found) sane.pointed in
      let (a, there, same, normal) = referred s.world.db channel type app ch sane here refers in
      (
        a,
        rw (get_channel_calm s.world calm channel type app)
            (rw found (rw (get_artifact-find s.world type app ch.version calm) (rw there refl))),
        same,
      )

  -- With a backend that keeps its laws and deliveries in the database: in every state that the
  -- service reaches from an empty database, and where the database answers, a rollback of a channel
  -- whose history has two rows or more succeeds, with the artifact that the second row refers to.
  pub Reach-rollback :
      (now : ℕ) (channel type app by : String) (curr prev : ChannelPointer)
      (rest : List ChannelPointer)
      → IsCalm s.world
      → history_rows h.engine s.world.db channel type app ≡ curr ∷ prev ∷ rest
      → (a : Artifact) × (prev.artifact_id ≡ a.id)
        × (let ch = restored h.engine channel type app now by prev a s.world.db in
            rollback h.engine now channel type app by s.world
            ≡ (ok ch, record s.world { db = with_channel s.world.db ch }))
  Reach-rollback now channel type app by curr prev rest calm rows =
      let sane = (Reach-IsRunning h store name bk is r).consistent in
      let (first, ((here, refers), others)) =
        rw rows at (listed h.engine s.world.db channel type app sane) in
      let (a, there, same, normal) = referred s.world.db channel type app prev sane here refers in
      (
        a,
        same,
        rollback_calm h.engine channel type app now by curr prev rest a s.world calm rows normal
            there,
      )

  -- With a backend that keeps its laws and deliveries in the database: in every state that the
  -- service reaches from an empty database, the files of two artifacts have different keys.
  pub Reach-storage_keys :
      Pairwise (λ a b. (a.storage_key == b.storage_key) ≡ false) s.world.db.artifacts
  Reach-storage_keys =
      let sane = (Reach-IsRunning h store name bk is r).consistent in
      Pairwise-weaken IsSound IsApart _ keys_apart s.world.db.artifacts sane.sound sane.apart
