-- ===== src/Server/Safekeeping/Runs.antt =====
-- Runs in which no upload begins for a file that is in use.
use mathlib.Core.List.{append-nil}
use artifact_registry_servic.Base.{
  ℕ, String, ◌≡◌, List, [], ◌∷◌, ◌++◌, All, All-weaken, some, refl, ◌∙◌, length, hex_text,
}
use artifact_registry_servic.Auth.{Store}
use artifact_registry_servic.World.{World, Bytes}
use artifact_registry_servic.World.Laws.{IsCalm}
use artifact_registry_servic.Exec.{ok}
use artifact_registry_servic.Storage.{IsBackend}
use artifact_registry_servic.Webhooks.Dispatcher.{sqlite_store}
use artifact_registry_servic.Api.Handlers.{Handler}
use artifact_registry_servic.Server.Threads.{Chance, Thread, Request, begin}
use artifact_registry_servic.Server.System.{System, no_rows, given, accept, move}
use artifact_registry_servic.Server.Safekeeping.{IsSafe}
use artifact_registry_servic.Server.Safekeeping.Steps.{IsUnused, advanced, began}

module _ (h : Handler) (store : Store) (name : String → String) where
  -- As `Reach`, but each upload is for a file that no row and no goroutine has.
  pub data Separate : System → Type 0 where
    starts : (w : World) → Separate (record { world = record w { db = no_rows }; threads = [] })
    accepts :
        (c : Chance) (id_time : ℕ) (req : Request) {s : System}
        → Separate s
        → IsUnused name s.world.db.artifacts s.threads req.call
        → Separate (accept h store c id_time req s)
    moves :
        (c : Chance) (before : List Thread) (t : Thread) (after : List Thread) (w : World)
        → Separate (record { world = w; threads = before ++ t ∷ after })
        → Separate (move h store c before t after w)
    restarts : {s : System} → Separate s → Separate (record { world = s.world; threads = [] })

  module _ (bk : IsBackend h.stor name) (is : h.wh.store ≡ some (sqlite_store h.engine)) where
    same_state :
        (c : Chance) (w : World) (ts : List Thread)
        → IsSafe h.go name w ts
        → IsSafe h.go name (given c w) ts
    same_state c w ts safe = record {
      files = safe.files;
      held = safe.held;
      outside = safe.outside;
      alone = safe.alone;
    }

    Separate-IsSafe : {s : System} → Separate s → IsSafe h.go name s.world s.threads
    Separate-IsSafe (starts w) = record { files = tt; held = tt; outside = tt; alone = tt }
    Separate-IsSafe (accepts c id_time req {s} r unused) =
        let safe = Separate-IsSafe r in
        rw (append-nil (begin h c store id_time req (given c s.world)).0) at (
          began h c name bk is (given c s.world) store id_time req s.threads
            (same_state c s.world s.threads safe) unused)
    Separate-IsSafe (moves c before t after w r) =
        let safe = Separate-IsSafe r in
        advanced h c name bk is (given c w) before t after (same_state c w _ safe)
    Separate-IsSafe (restarts r) = record {
      files = (Separate-IsSafe r).files;
      held = tt;
      outside = tt;
      alone = tt;
    }

    -- With a backend that keeps its laws and deliveries in the database, and from an empty database
    -- on: as long as no upload begins for a file that a stored artifact has or that another upload
    -- has in hand, every stored artifact can be read back, where the backend answers, with the size and the hash
    -- that its row records, in whatever order the goroutines run, whichever calls fail, and across
    -- restarts.
    pub Separate-open :
        {s : System}
        → Separate s
        → IsCalm s.world
        → All
            (λ a.
              (content : Bytes) × (h.stor.open_key a.storage_key s.world ≡ (ok content, s.world))
              × (a.size_bytes ≡ length content)
              × (a.sha256 ≡ hex_text (h.go.sha256 content)))
            s.world.db.artifacts
    Separate-open {s} r calm =
        All-weaken _ _
          (λ a (content, there, size, hash).
            (content, bk.open_calm a.storage_key s.world calm ∙ rw there refl, size, hash))
          s.world.db.artifacts (Separate-IsSafe r).files
