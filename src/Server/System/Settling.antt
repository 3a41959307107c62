-- ===== src/Server/System/Settling.antt =====
-- Runs without new requests.
use artifact_registry_servic.Base.{ℕ, ◌+◌, ◌≤◌, List, ◌∷◌, ◌++◌, arith}
use artifact_registry_servic.Auth.{Store}
use artifact_registry_servic.World.{World}
use artifact_registry_servic.Api.Handlers.{Handler}
use artifact_registry_servic.Server.Threads.{Chance, Thread, advance}
use artifact_registry_servic.Server.Threads.Work.{total, total-append, advance-total}
use artifact_registry_servic.Server.System.{System, given, move}

module _ (h : Handler) (store : Store) where
  -- So many steps of goroutines, in any order.
  pub data Run : ℕ → System → System → Type 0 where
    rests : (s : System) → Run 0 s s
    goes :
        (c : Chance) (before : List Thread) (t : Thread) (after : List Thread) (w : World) {n : ℕ}
        {s : System}
        → Run n (move h store c before t after w) s
        → Run (n + 1) (record { world = w; threads = before ++ t ∷ after }) s

  -- Without new requests the service comes to rest: whatever order the goroutines run in, whichever
  -- calls fail and whatever receivers answer, the steps that have been made and the work that is
  -- left are together at most the work at the start. The work of a goroutine is its own calls, for
  -- its `Emit` one step for each URL and one, and for each delivery one step for each delay and one.
  pub Run-total : {n : ℕ} {s s' : System} → Run n s s' → n + total h s'.threads ≤ total h s.threads
  Run-total (rests s) = omega arith
  Run-total (goes c before t after w {n} {s} r) =
      let step = advance-total h c t (given c w) in
      let ts = (advance h c t (given c w)).0 in
      omega (
        arith,
        Run-total r,
        step,
        total-append h before (t ∷ after),
        total-append h before (ts ++ after),
        total-append h ts after,
      )
