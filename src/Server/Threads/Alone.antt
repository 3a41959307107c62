-- ===== src/Server/Threads/Alone.antt =====
-- One request or delivery with nothing in between, beside the functions that run to their end.
use artifact_registry_servic.Base.{
  ℕ, zero, suc, ◌+◌, String, ◌≡◌, refl, List, [], ◌∷◌, ◌++◌, Option, none, some, length, arith,
}
use artifact_registry_servic.Domain.{Artifact, ChannelPointer}
use artifact_registry_servic.Delivery.{
  EventType, Status, failed, channel_promoted, artifact_uploaded,
}
use artifact_registry_servic.Exec.{Result, ok, err, continue, attempt, ◌>>=◌}
use artifact_registry_servic.World.{World}
use artifact_registry_servic.Sqlite.Artifacts.{save_artifact}
use artifact_registry_servic.Webhooks.Event.{EventData}
use artifact_registry_servic.Registry.Service.{
  UploadRequest, Checked, check_upload, stored_artifact, finish_upload, store_checked, upload,
  Target, find_target, point, save_pointer, promote,
}
use artifact_registry_servic.Webhooks.Dispatcher.{
  DeliveryStore, Task, post, persist_status, after_post, deliver_from, deliver,
}
use artifact_registry_servic.Api.Handlers.{Handler}
use artifact_registry_servic.Server.Threads.{
  Chance, Thread, inserting, uploads, announced, inserted, pointing, saving, delivering, promotes,
  then_do, attempted, advance, begin_call,
}

persist_status_ok :
    (store : Option DeliveryStore) (now : ℕ) (id : String) (s : Status) (n : ℕ) (e : String)
    (w : World)
    → (persist_status store now id s n e w).0 ≡ ok tt
unfolding persist_status
persist_status_ok none now id s n e w = refl
persist_status_ok (some store) now id s n e w = ground arith

module _ (h : Handler) (c : ℕ → Chance) where
  -- So many steps from the `i`-th on, always of the first goroutine.
  abbrev pub alone : ℕ → ℕ → List Thread → World → List Thread × World
  alone zero i ts w = (ts, w)
  alone (suc n) i [] w = ([], w)
  alone (suc n) i (t ∷ ts) w =
      let (next, w1) = advance h (c i) t w in alone n (i + 1) (next ++ ts) w1

  alone_done : (n i : ℕ) (w : World) → alone n i [] w ≡ ([], w)
  alone_done zero i w = refl
  alone_done (suc n) i w = refl

  abbrev ended_by : Task → ℕ → Option String → List ℕ → World → World
  ended_by task i last delays w =
      (deliver_from h.wh.store (λ j. (c j).answer) (λ j. (c j).now) task.delivery_id
        (length h.wh.backoff) i last delays w).1

  -- One round, from the outcome of its POST.
  attempted-alone :
      (task : Task) (i : ℕ) (delays : List ℕ) (outcome : Option String) (w : World)
      → ((e : String) (w1 : World)
          → alone (suc (length delays)) (i + 1) (delivering task (i + 1) (some e) delays ∷ []) w1
            ≡ ([], ended_by task (i + 1) (some e) delays w1))
      → alone
          (suc (length delays))
          (i + 1)
          ((attempted h (c i) task i delays outcome w).0 ++ [])
          (attempted h (c i) task i delays outcome w).1
        ≡ (
          [],
          (after_post h.wh.store
              (c i).now
              task.delivery_id
              i
              outcome
              (λ e.
                deliver_from h.wh.store
                  (λ j. (c j).answer)
                  (λ j. (c j).now)
                  task.delivery_id
                  (length h.wh.backoff)
                  (i + 1)
                  (some e)
                  delays)
              w).1,
        )
  unfolding attempted after_post
  attempted-alone task i delays none w more = refl
  attempted-alone task i delays (some e) w more =
      rw (persist_status_ok h.wh.store (c i).now task.delivery_id failed (i + 1) e w) (more e _)

  deliver_from-alone :
      (task : Task) (i : ℕ) (last : Option String) (delays : List ℕ) (w : World)
      → alone (suc (length delays)) i (delivering task i last delays ∷ []) w ≡ (
        [],
        (deliver_from h.wh.store
            (λ j. (c j).answer)
            (λ j. (c j).now)
            task.delivery_id
            (length h.wh.backoff)
            i
            last
            delays
            w).1,
      )
  unfolding advance deliver_from
  deliver_from-alone task i last [] w = refl
  deliver_from-alone task i last (delay ∷ delays) w =
      attempted-alone task i delays (post (c i).answer) w
        (λ e w1. deliver_from-alone task (i + 1) (some e) delays w1)

  -- A delivery that makes its steps with nothing in between ends, after one step for each delay and
  -- one at most, in the state in which `deliver` ends that gets the same answers at the same times.
  pub deliver-alone :
      (task : Task) (w : World)
      → alone (suc (length h.wh.backoff)) 0 (delivering task 0 none h.wh.backoff ∷ []) w
        ≡ ([], (deliver h.wh (λ j. (c j).answer) (λ j. (c j).now) task w).1)
  unfolding deliver
  deliver-alone task w = deliver_from-alone task 0 none h.wh.backoff w

  module _ (event : EventType) (channel type name by : String) where
    -- The two steps behind `find_target`, from its result.
    target-alone :
        (r : Result Target) (w : World)
        → (alone 2 0 (then_do (pointing event channel type name by) r) w).1
          ≡ (continue r (λ t. point (c 0).now channel type name by t >>= λ ch. save_pointer ch) w).1
    unfolding advance
    target-alone (err e) w = refl
    target-alone (ok t) w =
        pointed (point (c 0).now channel type name by t w).0
          (point (c 0).now channel type name by t w).1
      where
        pointed :
            (r : Result ChannelPointer) (w : World)
            → (alone 1 1 (then_do (saving event) r ++ []) w).1
              ≡ (continue r (λ ch. save_pointer ch) w).1
        pointed (err e) w = refl
        pointed (ok ch) w = refl

  -- A promotion whose three steps have nothing in between leaves the state that `Promote` leaves,
  -- whether it succeeds or fails.
  pub promote-alone :
      (d : Chance) (id_time : ℕ) (channel type name version by : String) (w : World)
      → (let (ts, w1) = begin_call h d id_time (promotes channel type name version by) w in
          (alone 2 0 ts w1).1)
        ≡ (promote (c 0).now channel type name version by w).1
  unfolding begin_call promote
  promote-alone d id_time channel type name version by w =
      target-alone channel_promoted channel type name by (find_target type name version w).0
        (find_target type name version w).1

  module _ (silent : h.wh.urls ≡ []) where
    announced_none :
        (event_type : EventType) (key : String) (content : EventData)
        → announced h (c 0) event_type key content ≡ []
    unfolding announced
    announced_none event_type key content = rw silent refl

    stored-alone :
        (r : Result Artifact) (w : World)
        → (alone 2 0 (then_do inserting r) w).1
          ≡ (continue r
              (λ a. attempt (save_artifact h.engine a) >>= λ saved. finish_upload h.stor a saved)
              w).1
    unfolding advance finish_upload inserted
    stored-alone (err e) w = refl
    stored-alone (ok a) w = added (save_artifact h.engine a w).0 (save_artifact h.engine a w).1
      where
        added :
            (r : Result (Unit {0})) (w : World)
            → (alone 1 1 (inserted h (c 0) a r ++ []) w).1 ≡ (finish_upload h.stor a r w).1
        added (ok u) w = rw (announced_none artifact_uploaded a.id _) refl
        added (err e) w = refl

    -- Without receivers, an upload whose steps have nothing in between leaves the state that
    -- `Upload` leaves, whether it succeeds or fails.
    pub upload-alone :
        (d : Chance) (id_time : ℕ) (req : UploadRequest) (w : World)
        → (let (ts, w1) = begin_call h d id_time (uploads req) w in (alone 2 0 ts w1).1)
          ≡ (upload h.go h.engine h.stor id_time d.now req w).1
    unfolding begin_call upload store_checked
    upload-alone d id_time req w =
        checked_first (check_upload h.go req w).0 (check_upload h.go req w).1
      where
        checked_first :
            (r : Result Checked) (w : World)
            → (let (a, w1) =
                  continue r (λ k. stored_artifact h.go h.engine h.stor id_time d.now k) w in
                (alone 2 0 (then_do inserting a) w1).1)
              ≡ (continue r (λ k. store_checked h.go h.engine h.stor id_time d.now k) w).1
        checked_first (err e) w = refl
        checked_first (ok k) w =
            stored-alone (stored_artifact h.go h.engine h.stor id_time d.now k w).0
              (stored_artifact h.go h.engine h.stor id_time d.now k w).1
