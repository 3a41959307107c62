-- ===== src/Server/System/Retries.antt =====
-- The attempts that the deliveries of a running service make.
use artifact_registry_servic.Base.{◌≤◌, String, ◌≡◌, ◌∷◌, All, All-append, length, some}
use artifact_registry_servic.Auth.{Store}
use artifact_registry_servic.Storage.{IsBackend}
use artifact_registry_servic.Webhooks.Dispatcher.{sqlite_store}
use artifact_registry_servic.Api.Handlers.{Handler}
use artifact_registry_servic.Server.Threads.Attempts.{IsCounted, IsCounting}
use artifact_registry_servic.Server.Threads.Attempts.Steps.{advance-IsCounting, begin-IsCounting}
use artifact_registry_servic.Server.System.{
  System, given, Step, accepts, moves, restarts, Reach, starts, then_step,
}
use artifact_registry_servic.Server.System.Invariant.{All-halves}

module _ (h : Handler) (store : Store) (name : String → String) (bk : IsBackend h.stor name)
    (is : h.wh.store ≡ some (sqlite_store h.engine)) where
  abbrev IsRetrying : System → Type 0
  IsRetrying s = IsCounting h (s.threads, s.world)

  Step-IsRetrying : {s s' : System} → Step h store s s' → IsRetrying s → IsRetrying s'
  Step-IsRetrying (accepts c id_time req s) r =
      let k = begin-IsCounting h c name bk is (given c s.world) r.rows store id_time req in
      record { rows = k.rows; threads = All-append (IsCounted h) s.threads _ r.threads k.threads }
  Step-IsRetrying (moves c before t after w) r =
      let (ahead, (now, behind)) = All-halves (IsCounted h) before (t ∷ after) r.threads in
      let k = advance-IsCounting h c name bk is (given c w) r.rows t now in
      record {
        rows = k.rows;
        threads =
            All-append (IsCounted h) before _ ahead
              (All-append (IsCounted h) _ after k.threads behind);
      }
  Step-IsRetrying (restarts s) r = record { rows = r.rows; threads = tt }

  counted : {s : System} → Reach h store s → IsRetrying s
  counted (starts w) = record { rows = tt; threads = tt }
  counted (then_step r step) = Step-IsRetrying step (counted r)

  -- With a backend that keeps its laws and deliveries in the database: in every state that the
  -- service reaches from an empty database, no delivery has a recorded count of attempts above the
  -- number of delays, replays and restarts included.
  pub Reach-attempts :
      {s : System}
      → Reach h store s
      → All (λ d. d.attempt_count ≤ length h.wh.backoff) s.world.db.webhook_deliveries
  Reach-attempts r = (counted r).rows
