-- ===== src/Server/System/Rest.antt =====
-- Deliveries while the process lives and the database answers.
use artifact_registry_servic.Base.{
  ℕ, String, ◌==◌, ◌≡◌, refl, false, true, Bool, ◌||◌, List, [], ◌∷◌, ◌++◌, All, All-append,
  All-weaken, any, some, arith,
}
use artifact_registry_servic.Auth.{Store}
use artifact_registry_servic.World.{World}
use artifact_registry_servic.Storage.{IsBackend}
use artifact_registry_servic.Webhooks.Dispatcher.{sqlite_store}
use artifact_registry_servic.Api.Handlers.{Handler}
use artifact_registry_servic.Server.Threads.{Chance, Thread, Request, begin, advance}
use artifact_registry_servic.Server.Threads.Covered.{
  is_final, works_on, IsArmed, IsCovered, more_work,
}
use artifact_registry_servic.Server.Threads.Covered.Steps.{advance-IsFollowed}
use artifact_registry_servic.Server.Threads.Covered.Begin.{begin-IsFollowed}
use artifact_registry_servic.Server.System.{System, no_rows, given, accept, move}
use artifact_registry_servic.Server.System.Invariant.{All-halves}

any-append :
    {A : Type 0} (p : A → Bool) (xs ys : List A) → any p (xs ++ ys) ≡ (any p xs || any p ys)
any-append p [] ys = refl
any-append p (x ∷ xs) ys = ground (arith, any-append p xs ys)

module _ (h : Handler) (store : Store) where
  -- One process, from an empty database on: in the steps of goroutines no call fails, and UUIDs
  -- are not empty.
  pub data Alive : System → Type 0 where
    starts : (w : World) → Alive (record { world = record w { db = no_rows }; threads = [] })
    accepts :
        (c : Chance) (id_time : ℕ) (req : Request) {s : System}
        → Alive s
        → Alive (accept h store c id_time req s)
    moves :
        (c : Chance) (before : List Thread) (t : Thread) (after : List Thread) (w : World)
        → Alive (record { world = w; threads = before ++ t ∷ after })
        → c.faults ≡ []
        → (c.id == "") ≡ false
        → Alive (move h store c before t after w)

  record IsAttended (s : System) : Type 0 where
    rows : All (IsCovered (λ id. any (works_on id) s.threads)) s.world.db.webhook_deliveries
    armed : All IsArmed s.threads

  module _ (name : String → String) (bk : IsBackend h.stor name)
      (is : h.wh.store ≡ some (sqlite_store h.engine)) (b : ℕ) (bs : List ℕ)
      (retries : h.wh.backoff ≡ b ∷ bs) where
    Alive-IsAttended : {s : System} → Alive s → IsAttended s
    Alive-IsAttended (starts w) = record { rows = tt; armed = tt }
    Alive-IsAttended (accepts c id_time req {s} r) =
        let k = Alive-IsAttended r in
        let f =
          begin-IsFollowed h c name bk is (given c s.world) (λ id. any (works_on id) s.threads)
            store id_time req k.rows in
        record {
          rows =
              more_work _ _ _
                (λ id.
                  joined (works_on id) s.threads (begin h c store id_time req (given c s.world)).0)
                f.rows;
          armed = All-append IsArmed s.threads _ k.armed f.armed;
        }
      where
        joined :
            (p : Thread → Bool) (xs ts : List Thread)
            → (any p ts || any p xs) ≡ true
            → any p (xs ++ ts) ≡ true
        joined p xs ts e = ground (arith, any-append p xs ts)
    Alive-IsAttended (moves c before t after w r quiet given_id) =
        let k = Alive-IsAttended r in
        let (ahead, (here, behind)) = All-halves IsArmed before (t ∷ after) k.armed in
        let f =
          advance-IsFollowed h c name bk is (given c w) (λ id. any (works_on id) (before ++ after))
            b bs retries quiet given_id t here
            (more_work _ _ _ (λ id. apart (works_on id) before t after) k.rows) in
        record {
          rows =
              more_work _ _ _
                (λ id. joined (works_on id) before after (advance h c t (given c w)).0) f.rows;
          armed = All-append IsArmed before _ ahead (All-append IsArmed _ after f.armed behind);
        }
      where
        apart :
            (p : Thread → Bool) (xs : List Thread) (t : Thread) (ys : List Thread)
            → any p (xs ++ t ∷ ys) ≡ true
            → (p t || any p (xs ++ ys)) ≡ true
        apart p xs t ys e = ground (arith, any-append p xs (t ∷ ys), any-append p xs ys)

        joined :
            (p : Thread → Bool) (xs ys ts : List Thread)
            → (any p ts || any p (xs ++ ys)) ≡ true
            → any p (xs ++ (ts ++ ys)) ≡ true
        joined p xs ys ts e =
            ground (arith, any-append p xs (ts ++ ys), any-append p xs ys, any-append p ts ys)

    -- With a backend that keeps its laws, deliveries in the database and at least one delay: for
    -- one process that starts on an empty database, as long as it lives, no call in a step of its
    -- goroutines fails and the UUIDs of its steps are not empty, every delivery is `delivered`, or
    -- `dead_letter`, or a goroutine works on it, in whatever order the goroutines run and whatever
    -- receivers answer. So where no goroutine is left, every delivery is `delivered` or
    -- `dead_letter`.
    pub Alive-final :
        {s : System}
        → Alive s
        → All
            (λ d. (is_final d.status || any (works_on d.delivery_id) s.threads) ≡ true)
            s.world.db.webhook_deliveries
    Alive-final {s} r =
        All-weaken _ _ (λ d k. k.0) s.world.db.webhook_deliveries (Alive-IsAttended r).rows
