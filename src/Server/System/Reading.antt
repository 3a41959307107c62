-- ===== src/Server/System/Reading.antt =====
-- Reads between which the service goes on.
use artifact_registry_servic.Base.{String, ◌≡◌, refl, sym, ap, ◌∙◌, some, find-All}
use artifact_registry_servic.Domain.{Artifact, ChannelPointer}
use artifact_registry_servic.Auth.{Store}
use artifact_registry_servic.Exec.{ok, ok_injective, ok≢err}
use artifact_registry_servic.Exec.Triple.{Triple-outcome}
use artifact_registry_servic.World.{World}
use artifact_registry_servic.World.Laws.{IsCalm}
use artifact_registry_servic.Storage.{IsBackend}
use artifact_registry_servic.Sqlite.Artifacts.{find_artifact, get_artifact}
use artifact_registry_servic.Sqlite.Artifacts.Laws.{get_artifact-find}
use artifact_registry_servic.Sqlite.Channels.{is_channel, find_channel, get_channel}
use artifact_registry_servic.Sqlite.Channels.Calls.{get_channel-Triple}
use artifact_registry_servic.Webhooks.Dispatcher.{sqlite_store}
use artifact_registry_servic.Api.Handlers.{Handler}
use artifact_registry_servic.Server.Integrity.{Refers}
use artifact_registry_servic.Server.Threads.Kept.{Extends}
use artifact_registry_servic.Server.System.{System, Step, Reach}
use artifact_registry_servic.Server.System.Invariant.{IsRunning, Step-IsNext, Reach-IsRunning}
use artifact_registry_servic.Server.System.Pointers.{referred}

found :
    (w : World) (channel type app : String) (ch : ChannelPointer)
    → (get_channel channel type app w).0 ≡ ok ch
    → find_channel w.db channel type app ≡ some ch
found w channel type app ch =
    Triple-outcome (get_channel channel type app)
      (λ r _. r ≡ ok ch → find_channel w.db channel type app ≡ some ch) w
      (get_channel-Triple channel type app w.db w.objects) (record { tables = refl; stored = refl })
      (λ a v k e. k.1 ∙ ap some (ok_injective e)) (λ x v k e. absurd (ok≢err (sym e)))

module _ (h : Handler) (store : Store) where
  -- Any number of steps.
  pub data Steps (s : System) : System → Type 0 where
    stays : Steps s s
    goes : {s' s'' : System} → Steps s s' → Step h store s' s'' → Steps s s''

  module _ (name : String → String) (bk : IsBackend h.stor name)
      (is : h.wh.store ≡ some (sqlite_store h.engine)) where
    later :
        {s s' : System}
        → Steps s s'
        → IsRunning s
        → IsRunning s' × Extends s.world.db.artifacts s'.world.db.artifacts
    later stays r = (r, λ type app version a found. found)
    later (goes steps step) r =
        let (between, kept) = later steps r in
        let next = Step-IsNext h store name bk is step between in
        (
          next.running,
          λ type app version a found.
              next.extends type app version a (kept type app version a found),
        )

    -- With a backend that keeps its laws and deliveries in the database: if `GetChannel` finds a
    -- pointer in a state that the service reaches from an empty database, and any number of steps
    -- follow, then `GetArtifact` for the pointer's version, where the database answers, still finds
    -- the artifact whose identifier the pointer carries. So the two reads of `ResolveLatest` may
    -- have anything between them.
    pub resolve_between :
        {s s' : System}
        → Reach h store s
        → Steps s s'
        → (channel type app : String) (ch : ChannelPointer)
        → (get_channel channel type app s.world).0 ≡ ok ch
        → IsCalm s'.world
        → (a : Artifact) × (get_artifact type app ch.version s'.world ≡ (ok a, s'.world))
          × (ch.artifact_id ≡ a.id)
    resolve_between {s} {s'} r steps channel type app ch read calm =
        let run = Reach-IsRunning h store name bk is r in
        let (here, refers) =
          find-All (Refers s.world.db.artifacts) (is_channel channel type app) s.world.db.channels
            ch (unfold find_channel in found s.world channel type app ch read)
            run.consistent.pointed in
        let (a, there, same, normal) =
          referred s.world.db channel type app ch run.consistent here refers in
        let kept : find_artifact s'.world.db type app ch.version ≡ some a =
          unfold find_artifact in (later steps run).1 type app ch.version a there in
        (a, get_artifact-find s'.world type app ch.version calm ∙ rw kept refl, same)
