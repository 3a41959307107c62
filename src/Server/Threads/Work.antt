-- ===== src/Server/Threads/Work.antt =====
-- The steps that a goroutine may still cause, its own and those of the goroutines that it starts.
use artifact_registry_servic.Base.{
  ℕ, ◌+◌, ◌≤◌, ◌<◌, String, ◌≡◌, List, [], ◌∷◌, ◌++◌, Option, none, some, length, arith,
}
use artifact_registry_servic.Domain.{Artifact, ChannelPointer}
use artifact_registry_servic.Delivery.{EventType, channel_rollback, DeliveryRecord}
use artifact_registry_servic.Exec.{Result, ok, err}
use artifact_registry_servic.World.{World}
use artifact_registry_servic.Registry.Service.{point}
use artifact_registry_servic.Webhooks.Event.{EventData}
use artifact_registry_servic.Webhooks.Dispatcher.{DeliveryStore, Task, post}
use artifact_registry_servic.Api.Handlers.{Handler}
use artifact_registry_servic.Server.Threads.Announced.{announced-by_cases}
use artifact_registry_servic.Server.Threads.{
  Chance, Thread, inserting, cleaning, restoring, pointing, saving, announcing, resetting,
  delivering, then_do, announced, saved, inserted, attempted, reset, advance,
}

-- The steps that a delivery may still make, that an `Emit` of so many URLs may cause, and that a
-- goroutine may cause.
module _ (h : Handler) where
  abbrev pub rounds : ℕ
  rounds = length h.wh.backoff + 1

  abbrev pub emits : List String → ℕ
  emits [] = 1
  emits (url ∷ urls) = emits urls + (rounds + 1)

  abbrev pub work : Thread → ℕ
  work (inserting a) = emits h.wh.urls + 1
  work (cleaning a) = 1
  work (restoring channel type name by version) = emits h.wh.urls + 3
  work (pointing event channel type name by t) = emits h.wh.urls + 2
  work (saving event ch) = emits h.wh.urls + 1
  work (announcing e body urls) = emits urls
  work (resetting id rec) = rounds + 1
  work (delivering task i last delays) = length delays + 1

  abbrev pub total : List Thread → ℕ
  total [] = 0
  total (t ∷ ts) = work t + total ts

  emits_positive : (urls : List String) → 1 ≤ emits urls
  emits_positive [] = omega arith
  emits_positive (url ∷ urls) = omega (arith, emits_positive urls)

  pub total-append : (xs ys : List Thread) → total (xs ++ ys) ≡ total xs + total ys
  total-append [] ys = omega arith
  total-append (x ∷ xs) ys = omega (arith, total-append xs ys)

  then_do-total :
      {A : Type 0} (f : A → Thread) (n : ℕ) (r : Result A)
      → ((a : A) → work (f a) < n)
      → 0 < n
      → total (then_do f r) < n
  then_do-total f n (ok a) less some_work = omega (arith, less a)
  then_do-total f n (err e) less some_work = some_work

  module _ (c : Chance) where
    announced-total :
        (event_type : EventType) (key : String) (content : EventData)
        → total (announced h c event_type key content) < emits h.wh.urls + 1
    announced-total event_type key content =
        announced-by_cases h c (λ ts. total ts < emits h.wh.urls + 1) (omega arith)
          (λ r.
            then_do-total (λ (e, body). announcing e body h.wh.urls) (emits h.wh.urls + 1) r
              (λ x. omega arith) (omega arith))
          event_type key content

    saved-total :
        (event : EventType) (r : Result ChannelPointer)
        → total (saved h c event r) < emits h.wh.urls + 1
    unfolding saved
    saved-total event (ok ch) = announced-total _ _ _
    saved-total event (err e) = omega arith

    inserted-total :
        (a : Artifact) (r : Result (Unit {0})) → total (inserted h c a r) < emits h.wh.urls + 1
    unfolding inserted
    inserted-total a (ok u) = announced-total _ _ _
    inserted-total a (err e) = omega (arith, emits_positive h.wh.urls)

    attempted-total :
        (task : Task) (i : ℕ) (delays : List ℕ) (outcome : Option String) (w : World)
        → total (attempted h c task i delays outcome w).0 < length delays + 2
    unfolding attempted
    attempted-total task i delays none w = omega arith
    attempted-total task i delays (some e) w = omega arith

    reset-total :
        (store : Option DeliveryStore) (id : String) (d : DeliveryRecord) (w : World)
        → total (reset h c store id d w).0 < rounds + 1
    unfolding reset
    reset-total none id d w = omega arith
    reset-total (some store) id d w =
        then_do-total (λ task. delivering task 0 none h.wh.backoff) (rounds + 1) _
          (λ task. omega arith) (omega arith)

    -- A step leaves less to do.
    pub advance-total : (t : Thread) (w : World) → total (advance h c t w).0 < work t
    unfolding advance
    advance-total (inserting a) w = inserted-total a _
    advance-total (cleaning a) w = omega arith
    advance-total (restoring channel type name by version) w =
        then_do-total (pointing channel_rollback channel type name by) (emits h.wh.urls + 3) _
          (λ t. omega arith) (omega arith)
    advance-total (pointing event channel type name by t) w =
        then_do-total (saving event) (emits h.wh.urls + 2) (point c.now channel type name by t w).0
          (λ ch. omega arith) (omega arith)
    advance-total (saving event ch) w = saved-total event _
    advance-total (announcing e body []) w = omega arith
    advance-total (announcing e body (url ∷ urls)) w = omega arith
    advance-total (resetting id rec) w = reset-total h.wh.store id rec w
    advance-total (delivering task i last []) w = omega arith
    advance-total (delivering task i last (delay ∷ delays)) w =
        omega (arith, attempted-total task i delays (post c.answer) w)
