-- ===== src/Server/Threads/Covered/Calls.antt =====
-- Calls that leave the deliveries, and goroutines that have no delivery in hand.
use artifact_registry_servic.World.Laws.{At}
use artifact_registry_servic.Exec.{Exec}
use artifact_registry_servic.Domain.Errors.{Error}
use artifact_registry_servic.Base.{
  Bool, ◌||◌, any, arith, String, ◌≡◌, refl, ap, true, false, List, All,
}
use artifact_registry_servic.Domain.{Artifact, ChannelPointer}
use artifact_registry_servic.Delivery.{EventType}
use artifact_registry_servic.Exec.{Result, ok, err}
use artifact_registry_servic.Exec.Triple.{Triple, Triple-outcome}
use artifact_registry_servic.World.{World, Db}
use artifact_registry_servic.Webhooks.Event.{EventData}
use artifact_registry_servic.Api.Handlers.{Handler}
use artifact_registry_servic.Server.Threads.Announced.{announced-by_cases}
use artifact_registry_servic.Server.Threads.{
  Chance, Thread, announcing, then_do, announced, saved, inserted,
}
use artifact_registry_servic.Server.Threads.Covered.{works_on, IsArmed, IsCovered, more_work}

pub or_right : (a b : Bool) → b ≡ true → (a || b) ≡ true
or_right a b h = ground arith

pub or_drop : (a b : Bool) → a ≡ false → (a || b) ≡ true → b ≡ true
or_drop a b h k = ground arith

pub or_same : (a b : Bool) → (a || b) ≡ true → ((a || false) || b) ≡ true
or_same a b h = ground arith

-- The rows are covered by the goroutines that a step leaves, and by those of `rest`.
pub record IsFollowed (rest : String → Bool) (out : List Thread × World) : Type 0 where
  pub rows : All (IsCovered (λ id. any (works_on id) out.0 || rest id)) out.1.db.webhook_deliveries
  pub armed : All IsArmed out.0

module _ (h : Handler) (c : Chance) where
  pub each-IsArmed :
      {A : Type 0} (f : A → Thread) (r : Result A)
      → ((a : A) → IsArmed (f a))
      → All IsArmed (then_do f r)
  each-IsArmed f (ok a) p = (p a, tt)
  each-IsArmed f (err e) p = tt

  pub announced-IsArmed :
      (event_type : EventType) (key : String) (content : EventData)
      → All IsArmed (announced h c event_type key content)
  announced-IsArmed event_type key content =
      announced-by_cases h c (All IsArmed) tt
        (λ r. each-IsArmed (λ (e, body). announcing e body h.wh.urls) r (λ x. tt)) event_type key
        content

  pub saved-IsArmed :
      (event : EventType) (r : Result ChannelPointer) → All IsArmed (saved h c event r)
  unfolding saved
  saved-IsArmed event (ok ch) = announced-IsArmed _ _ _
  saved-IsArmed event (err e) = tt

  pub inserted-IsArmed : (a : Artifact) (r : Result (Unit {0})) → All IsArmed (inserted h c a r)
  unfolding inserted
  inserted-IsArmed a (ok u) = announced-IsArmed _ _ _
  inserted-IsArmed a (err e) = (tt, tt)

module _ (w : World) (rest : String → Bool) where
  pub same_rows :
      (ts : List Thread) (v : World)
      → v.db.webhook_deliveries ≡ w.db.webhook_deliveries
      → All IsArmed ts
      → All (IsCovered rest) w.db.webhook_deliveries
      → IsFollowed rest (ts, v)
  same_rows ts v e p k = record {
    rows = rw e (
        more_work rest (λ id. any (works_on id) ts || rest id) w.db.webhook_deliveries
          (λ id r. or_right (any (works_on id) ts) (rest id) r) k);
    armed = p;
  }

  -- A call that leaves the deliveries, whatever its outcome.
  pub called :
      {A : Type 0} (m : Exec World A) (next : Result A → List Thread) {Q : A → World → Type 0}
      {R : Error → World → Type 0}
      → Triple (At w.db w.objects) m Q R
      → ((a : A) (v : World) → Q a v → v.db.webhook_deliveries ≡ w.db.webhook_deliveries)
      → ((e : Error) (v : World) → R e v → v.db ≡ w.db)
      → ((r : Result A) → All IsArmed (next r))
      → All (IsCovered rest) w.db.webhook_deliveries
      → IsFollowed rest (next (m w).0, (m w).1)
  called m next t q r p k =
      Triple-outcome m (λ x v. IsFollowed rest (next x, v)) w t
        (record { tables = refl; stored = refl }) (λ a v e. same_rows _ v (q a v e) (p (ok a)) k)
        (λ x v e. same_rows _ v (ap (λ (y : Db). y.webhook_deliveries) (r x v e)) (p (err x)) k)
