-- ===== src/Server/System/Stranded.antt =====
-- Deliveries that were under way when the process ended.
use artifact_registry_servic.Base.{
  ℕ, String, ◌==◌, ◌≡◌, false, List, [], ◌∷◌, ◌++◌, All-append, some,
}
use artifact_registry_servic.Delivery.{DeliveryRecord, is_dead_letter}
use artifact_registry_servic.Auth.{Store}
use artifact_registry_servic.World.{World}
use artifact_registry_servic.Storage.{IsBackend}
use artifact_registry_servic.Sqlite.Deliveries.{find_delivery}
use artifact_registry_servic.Webhooks.Dispatcher.{sqlite_store}
use artifact_registry_servic.Api.Handlers.{Handler}
use artifact_registry_servic.Server.Threads.{Chance, Thread, Request}
use artifact_registry_servic.Server.Threads.Stranded.{IsElsewhere, IsLeft}
use artifact_registry_servic.Server.Threads.Stranded.Steps.{advance-IsLeft, begin-IsLeft}
use artifact_registry_servic.Server.System.{System, given, accept, move}
use artifact_registry_servic.Server.System.Invariant.{All-halves}

module _ (h : Handler) (store : Store) (id : String) where
  -- Any number of steps, in which no new UUID is `id`.
  pub data Others (s : System) : System → Type 0 where
    stays : Others s s
    accepts :
        (c : Chance) (id_time : ℕ) (req : Request) {s' : System}
        → Others s s'
        → (c.id == id) ≡ false
        → Others s (accept h store c id_time req s')
    moves :
        (c : Chance) (before : List Thread) (t : Thread) (after : List Thread) (w : World)
        → Others s (record { world = w; threads = before ++ t ∷ after })
        → (c.id == id) ≡ false
        → Others s (move h store c before t after w)
    restarts : {s' : System} → Others s s' → Others s (record { world = s'.world; threads = [] })

  module _ (name : String → String) (bk : IsBackend h.stor name)
      (is : h.wh.store ≡ some (sqlite_store h.engine)) (d : DeliveryRecord)
      (alive : is_dead_letter d.status ≡ false) where
    abbrev Left : System → Type 0
    Left s = IsLeft id d (s.threads, s.world)

    Others-IsLeft : {s s' : System} → Others s s' → Left s → Left s'
    Others-IsLeft stays l = l
    Others-IsLeft (accepts c id_time req {s'} steps new) l =
        let k = Others-IsLeft steps l in
        let b = begin-IsLeft h c name bk is id d (given c s'.world) k.row alive store id_time req in
        record {
          row = b.row;
          elsewhere = All-append (IsElsewhere id) s'.threads _ k.elsewhere b.elsewhere;
        }
    Others-IsLeft (moves c before t after w steps new) l =
        let k = Others-IsLeft steps l in
        let (ahead, (here, behind)) = All-halves (IsElsewhere id) before (t ∷ after) k.elsewhere in
        let a = advance-IsLeft h c name bk is id d (given c w) k.row new t here in
        record {
          row = a.row;
          elsewhere =
              All-append (IsElsewhere id) before _ ahead
                (All-append (IsElsewhere id) _ after a.elsewhere behind);
        }
    Others-IsLeft (restarts steps) l = record { row = (Others-IsLeft steps l).row; elsewhere = tt }

    -- With a backend that keeps its laws and deliveries in the database: a delivery that is not a
    -- dead letter when the process ends (still pending, or failed with attempts left) keeps its row
    -- as it is in the process that takes its place, whatever requests come in, replays of it
    -- included, and as long as no new UUID is its identifier. So it stays pending or failed for good,
    -- with the attempts that it had.
    pub restart_strands :
        (s s' : System)
        → find_delivery s.world.db id ≡ some d
        → Others (record { world = s.world; threads = [] }) s'
        → find_delivery s'.world.db id ≡ some d
    unfolding find_delivery
    restart_strands s s' found steps =
        (Others-IsLeft steps (record { row = found; elsewhere = tt })).row
