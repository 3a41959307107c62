-- ===== src/Server/System.antt =====
-- All goroutines over the state, in any interleaving. The database and the objects outlive the
-- process; the goroutines do not.
pub mod Invariant
pub mod Pointers
pub mod Settling
pub mod Files
pub mod Reading
pub mod Stranded
pub mod Rest
pub mod Retries
use artifact_registry_servic.Base.{ℕ, List, [], ◌∷◌, ◌++◌}
use artifact_registry_servic.Auth.{Store}
use artifact_registry_servic.World.{World, Db}
use artifact_registry_servic.Api.Handlers.{Handler}
use artifact_registry_servic.Server.Threads.{Chance, Thread, Request, advance, begin}

pub record System : Type 0 where
  pub world : World
  pub threads : List Thread

-- The tables of a new database file.
abbrev pub no_rows : Db
no_rows = record { artifacts = []; channels = []; channel_history = []; webhook_deliveries = [] }

abbrev pub given : Chance → World → World
given c w = record w { faults = c.faults }

module _ (h : Handler) (store : Store) where
  -- A request comes in.
  abbrev pub accept : Chance → ℕ → Request → System → System
  accept c id_time req s =
      let (ts, w) = begin h c store id_time req (given c s.world) in
      record { world = w; threads = s.threads ++ ts }

  -- The goroutine `t`, between the others, makes a step.
  abbrev pub move : Chance → List Thread → Thread → List Thread → World → System
  move c before t after w =
      let (ts, w1) = advance h c t (given c w) in
      record { world = w1; threads = before ++ (ts ++ after) }

  pub data Step : System → System → Type 0 where
    accepts :
        (c : Chance) (id_time : ℕ) (req : Request) (s : System) → Step s (accept c id_time req s)
    moves :
        (c : Chance) (before : List Thread) (t : Thread) (after : List Thread) (w : World)
        → Step (record { world = w; threads = before ++ t ∷ after }) (move c before t after w)
    -- The process ends, and another takes its place.
    restarts : (s : System) → Step s (record { world = s.world; threads = [] })

  pub data Reach : System → Type 0 where
    starts : (w : World) → Reach (record { world = record w { db = no_rows }; threads = [] })
    then_step : {s s' : System} → Reach s → Step s s' → Reach s'
