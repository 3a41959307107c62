-- ===== src/Server/System/Invariant.antt =====
-- What holds in every state that the service reaches.
use artifact_registry_servic.Base.{
  ℕ, String, ◌≡◌, List, [], ◌∷◌, ◌++◌, All, All-append, All-weaken, some,
}
use artifact_registry_servic.Domain.{Artifact}
use artifact_registry_servic.Auth.{Store}
use artifact_registry_servic.World.{World}
use artifact_registry_servic.Storage.{IsBackend}
use artifact_registry_servic.Webhooks.Dispatcher.{sqlite_store}
use artifact_registry_servic.Api.Handlers.{Handler}
use artifact_registry_servic.Server.Integrity.{IsConsistent}
use artifact_registry_servic.Server.Threads.{Chance, Thread, Request}
use artifact_registry_servic.Server.Threads.Kept.{Extends, IsPending, IsPending-Extends}
use artifact_registry_servic.Server.Threads.Advance.{advance-IsKept}
use artifact_registry_servic.Server.Threads.Begin.{begin-IsKept}
use artifact_registry_servic.Server.System.{
  System, given, accept, move, Step, accepts, moves, restarts, Reach, starts, then_step,
}

-- The tables are consistent, and every goroutine may go on.
pub record IsRunning (s : System) : Type 0 where
  pub consistent : IsConsistent s.world.db
  pub pending : All (IsPending s.world.db.artifacts) s.threads

-- The state after a step: it is as before, and no artifact has gone.
pub record IsNext (s s' : System) : Type 0 where
  pub running : IsRunning s'
  pub extends : Extends s.world.db.artifacts s'.world.db.artifacts

pub All-halves :
    {A : Type 0} (P : A → Type 0) (xs ys : List A) → All P (xs ++ ys) → All P xs × All P ys
All-halves P [] ys h = (tt, h)
All-halves P (x ∷ xs) ys (p, h) = let (a, b) = All-halves P xs ys h in ((p, a), b)

waiting :
    (rows more : List Artifact)
    → Extends rows more
    → (ts : List Thread) → All (IsPending rows) ts
    → All (IsPending more) ts
waiting rows more keep ts p =
    All-weaken (IsPending rows) (IsPending more) (IsPending-Extends rows more keep) ts p

module _ (h : Handler) (store : Store) (name : String → String) (bk : IsBackend h.stor name)
    (is : h.wh.store ≡ some (sqlite_store h.engine)) where
  accepts-IsNext :
      (c : Chance) (id_time : ℕ) (req : Request) (s : System)
      → IsRunning s
      → IsNext s (accept h store c id_time req s)
  accepts-IsNext c id_time req s r =
      let k = begin-IsKept h c name bk is (given c s.world) r.consistent store id_time req in
      record {
        running = record {
          consistent = k.consistent;
          pending =
              All-append (IsPending _) s.threads _ (waiting _ _ k.extends s.threads r.pending)
                k.pending;
        };
        extends = k.extends;
      }

  moves-IsNext :
      (c : Chance) (before : List Thread) (t : Thread) (after : List Thread) (w : World)
      → IsRunning (record { world = w; threads = before ++ t ∷ after })
      → IsNext
          (record { world = w; threads = before ++ t ∷ after })
          (move h store c before t after w)
  moves-IsNext c before t after w r =
      let (ahead, (now, behind)) =
        All-halves (IsPending w.db.artifacts) before (t ∷ after) r.pending in
      let k = advance-IsKept h c name bk is (given c w) r.consistent t now in
      record {
        running = record {
          consistent = k.consistent;
          pending =
              All-append (IsPending _) before _ (waiting _ _ k.extends before ahead)
                (All-append (IsPending _) _ after k.pending (waiting _ _ k.extends after behind));
        };
        extends = k.extends;
      }

  -- With a backend that keeps its laws and deliveries in the database, and from a state where the
  -- tables are consistent and every goroutine may go on (what it has found in the tables is there):
  -- whatever step the service makes, whichever calls fail in it, and whatever receivers answer, this
  -- stays so, and every artifact stays what it was.
  pub Step-IsNext : {s s' : System} → Step h store s s' → IsRunning s → IsNext s s'
  Step-IsNext (accepts c id_time req s) r = accepts-IsNext c id_time req s r
  Step-IsNext (moves c before t after w) r = moves-IsNext c before t after w r
  Step-IsNext (restarts s) r = record {
    running = record { consistent = r.consistent; pending = tt };
    extends = λ type name version a found. found;
  }

  -- In every state that the service reaches from an empty database, the tables are consistent: the
  -- keys are unique, every stored version is normal and lies under the key of its name, every
  -- pointer, current or past, points at a stored artifact and carries its identifier, every current
  -- pointer is in the history, and the numbers of the deliveries of an aggregate increase.
  pub Reach-IsRunning : {s : System} → Reach h store s → IsRunning s
  Reach-IsRunning (starts w) = record {
    consistent = record {
      sound = tt;
      apart = tt;
      pointed = tt;
      recorded = tt;
      current = tt;
      one_pointer = tt;
      numbered = tt;
    };
    pending = tt;
  }
  Reach-IsRunning (then_step r step) = (Step-IsNext step (Reach-IsRunning r)).running
