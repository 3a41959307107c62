-- ===== src/Server/Start/Wiring.antt =====
-- What the wiring of the server provides.
use artifact_registry_servic.Base.{String, ◌≡◌, refl, sym, some}
use artifact_registry_servic.Exec.{◌>>◌, Result, ok, err, ok_injective, ok≢err, return, continue}
use artifact_registry_servic.Exec.Triple.{Post, Triple, Triple-bind, Triple-weaken, Triple-fact}
use artifact_registry_servic.World.{World, Engine}
use artifact_registry_servic.Platform.{Platform}
use artifact_registry_servic.Config.{Config, Env, load}
use artifact_registry_servic.Storage.{Backend, IsBackend}
use artifact_registry_servic.Storage.S3.{Client, S3Settings}
use artifact_registry_servic.Storage.S3.Laws.{IsClient}
use artifact_registry_servic.Storage.Factory.{new_backend}
use artifact_registry_servic.Storage.Factory.Laws.{new_backend-IsBackend}
use artifact_registry_servic.Webhooks.Event.{Codec}
use artifact_registry_servic.Webhooks.Dispatcher.{sqlite_store}
use artifact_registry_servic.Server.System.{System, Reach}
use artifact_registry_servic.Server.System.Invariant.{IsRunning, Reach-IsRunning}
use artifact_registry_servic.Server.Start.{Server, open_database, server_of, start_with, start}

module _ (go : Platform) (codec : Codec) (engine : Engine) (connect : S3Settings → Client) where
  module _ (name : S3Settings → String → String → String)
      (keeps : (s : S3Settings) → IsClient (connect s) (name s)) where
    -- The backend keeps the laws of a backend, and the deliveries are kept in the database.
    abbrev IsWired : Server → Type 0
    IsWired s =
        ((f : String → String) × IsBackend s.handler.stor f)
        × (s.handler.wh.store ≡ some (sqlite_store s.handler.engine))

    abbrev Anything : World → Type 0
    Anything w = Unit

    backend-Triple :
        (cfg : Config)
        → Triple Anything
            (new_backend go connect cfg)
            (λ b _. (f : String → String) × IsBackend b f)
            (λ _. Anything)
    backend-Triple cfg = record {
      at = λ w _.
          made (new_backend go connect cfg w).0 (new_backend go connect cfg w).1
            (λ b e. new_backend-IsBackend go connect name keeps cfg w b e);
    }
      where
        made :
            (r : Result Backend) (w : World)
            → ((b : Backend) → r ≡ ok b → (f : String → String) × IsBackend b f)
            → Post (λ b _. (f : String → String) × IsBackend b f) (λ _. Anything) r w
        made (ok b) w k = k b refl
        made (err e) w k = tt

    server_of-Triple :
        (cfg : Config) (stor : Backend)
        → ((f : String → String) × IsBackend stor f)
        → Triple Anything
            (do open_database; return (server_of go codec engine connect cfg stor))
            (λ s _. IsWired s)
            (λ _. Anything)
    unfolding server_of open_database
    server_of-Triple cfg stor laws = record {
      at = λ w _. opened (open_database w).0 (open_database w).1;
    }
      where
        opened :
            (r : Result (Unit {0})) (w : World)
            → Post
                (λ s _. IsWired s)
                (λ _. Anything)
                (continue r (λ _. return (server_of go codec engine connect cfg stor)) w).0
                (continue r (λ _. return (server_of go codec engine connect cfg stor)) w).1
        opened (ok u) w = (laws, refl)
        opened (err e) w = tt

    start-Triple :
        (env : Env)
        → Triple Anything (start go codec engine connect env) (λ s _. IsWired s) (λ _. Anything)
    unfolding start start_with
    start-Triple env =
        Triple-bind _ _
          (Triple-weaken _ (backend-Triple (load env)) (λ b w laws. (tt, laws)) (λ e w x. x))
          λ stor. Triple-fact {P = Anything} _ (server_of-Triple (load env) stor)

    -- Whatever the environment and whatever fails on the way, a server that starts keeps its tables
    -- consistent in every state that its goroutines reach from an empty database, in any
    -- interleaving, with restarts, whichever calls fail and whatever receivers answer, if S3 clients
    -- keep their objects as S3 documents it. Consistent: no two artifacts have one identifier, or
    -- one type, name and version; every stored version is normal and lies under the key of its name;
    -- every pointer, current or past, points at a stored artifact and carries its identifier; every
    -- current pointer is in the history, and a channel has one; no two deliveries have one
    -- identifier, and the numbers of the deliveries of an aggregate increase.
    pub start-IsRunning :
        (env : Env) (w : World) (s : Server)
        → (start go codec engine connect env w).0 ≡ ok s
        → {state : System} → Reach s.handler s.auth state
        → IsRunning state
    start-IsRunning env w s e r =
        let ((f, laws), store) =
          wired (start go codec engine connect env w).0 _ e ((start-Triple env).at w tt) in
        Reach-IsRunning s.handler s.auth f laws store r
      where
        wired :
            (r : Result Server) (v : World)
            → r ≡ ok s
            → Post (λ s _. IsWired s) (λ _. Anything) r v
            → IsWired s
        wired (ok t) v e h = rw⁻¹ (ok_injective e) h
        wired (err x) v e h = absurd (ok≢err (sym e))
