-- ===== src/Webhooks/Dispatcher/Delivering.antt =====
-- `deliver`: the attempts, and the state in which they leave the record.
use artifact_registry_servic.Base.{
  ℕ, zero, suc, ◌+◌, ◌≤◌, ◌<◌, String, ◌==◌, ◌≡◌, refl, ap, ◌∙◌, false, List, [], ◌∷◌, Option, none,
  some, length, arith,
}
use artifact_registry_servic.Delivery.{Status, delivered, failed, dead_letter}
use artifact_registry_servic.Exec.{Result, ok}
use artifact_registry_servic.World.{World, Engine}
use artifact_registry_servic.World.Laws.{IsCalm}
use artifact_registry_servic.Sqlite.Deliveries.{update_rows}
use artifact_registry_servic.Sqlite.Deliveries.Laws.{
  with_deliveries, update_delivery_calm, update_rows-update_rows,
}
use artifact_registry_servic.Webhooks.Dispatcher.{
  sqlite_store, Dispatcher, Task, Answer, post, persist_status, give_up, after_post, deliver_from,
  deliver,
}

-- The world after an update of a delivery row.
abbrev pub updated : World → ℕ → String → Status → ℕ → String → World
updated w t id s n e = record w {
  db = with_deliveries w.db (update_rows t id s n e w.db.webhook_deliveries);
}

updated-updated :
    (w : World) (t1 t2 : ℕ) (id : String) (s1 s2 : Status) (n1 n2 : ℕ) (e1 e2 : String)
    → updated (updated w t1 id s1 n1 e1) t2 id s2 n2 e2 ≡ updated w t2 id s2 n2 e2
updated-updated w t1 t2 id s1 s2 n1 n2 e1 e2 =
    ap (λ rows. let v : World = record w { db = with_deliveries w.db rows } in v)
      (update_rows-update_rows t1 t2 id s1 s2 n1 n2 e1 e2 w.db.webhook_deliveries)

module _ (engine : Engine) (id : String) (named : (id == "") ≡ false) where
  persist_calm :
      (w : World)
      → IsCalm w
      → (t : ℕ) (s : Status) (n : ℕ) (e : String)
      → persist_status (some (sqlite_store engine)) t id s n e w ≡ (ok tt, updated w t id s n e)
  unfolding persist_status
  persist_calm w calm t s n e = rw named (rw (update_delivery_calm w calm t id s n e) refl)

  module _ (answers : ℕ → Answer) (now : ℕ → ℕ) (attempts : ℕ) where
    run : ℕ → Option String → List ℕ → World → Result (Unit {0}) × World
    run = deliver_from (some (sqlite_store engine)) answers now id attempts

    run_failed :
        (i : ℕ) (last : Option String) (delay : ℕ) (delays : List ℕ) (w : World) (e : String)
        → IsCalm w
        → post (answers i) ≡ some e
        → run i last (delay ∷ delays) w
          ≡ run (i + 1) (some e) delays (updated w (now i) id failed (i + 1) e)
    unfolding run deliver_from after_post
    run_failed i last delay delays w e calm h =
        rw h (rw (persist_calm w calm (now i) failed (i + 1) e) refl)

    run_accepted :
        (i : ℕ) (last : Option String) (delay : ℕ) (delays : List ℕ) (w : World)
        → IsCalm w
        → post (answers i) ≡ none
        → run i last (delay ∷ delays) w ≡ (ok tt, updated w (now i) id delivered (i + 1) "")
    unfolding run deliver_from after_post
    run_accepted i last delay delays w calm h =
        rw h (persist_calm w calm (now i) delivered (i + 1) "")

    run_ended :
        (i : ℕ) (e : String) (w : World)
        → IsCalm w
        → run i (some e) [] w ≡ (ok tt, updated w (now i) id dead_letter attempts e)
    unfolding run deliver_from give_up
    run_ended i e w calm = persist_calm w calm (now i) dead_letter attempts e

    module _ (errs : ℕ → String) where
      -- Attempt `i + m` is the first that succeeds.
      run_first :
          (m i : ℕ) (last : Option String) (delays : List ℕ) (w : World)
          → IsCalm w
          → m < length delays
          → ((j : ℕ) → i ≤ j → j < i + m → post (answers j) ≡ some (errs j))
          → post (answers (i + m)) ≡ none
          → run i last delays w ≡ (ok tt, updated w (now (i + m)) id delivered (i + m + 1) "")
      run_first m i last [] w calm short fails good = absurd (omega arith)
      run_first zero i last (delay ∷ delays) w calm short fails good =
          let same : i + 0 ≡ i = omega arith in
          rw same (run_accepted i last delay delays w calm (rw same at good))
      run_first (suc m) i last (delay ∷ delays) w calm short fails good =
          let next : i + suc m ≡ i + 1 + m = omega arith in
          run_failed i last delay delays w (errs i) calm (fails i (omega arith) (omega arith))
          ∙ rw next (
              run_first m (i + 1) (some (errs i)) delays
                (updated w (now i) id failed (i + 1) (errs i)) calm (omega arith)
                (λ j low high. fails j (omega arith) (omega arith)) (rw next at good)
              ∙ ap (λ v. (ok tt, v))
                  (updated-updated w (now i) (now (i + 1 + m)) id failed delivered (i + 1)
                    (i + 1 + m + 1) (errs i) ""))

      -- No attempt from `i` on succeeds, and there is one more at least.
      run_none :
          (delay : ℕ) (delays : List ℕ) (i : ℕ) (last : Option String) (w : World)
          → IsCalm w
          → ((j : ℕ) → i ≤ j → j < i + suc (length delays) → post (answers j) ≡ some (errs j))
          → run i last (delay ∷ delays) w ≡ (
            ok tt,
            updated w
                (now (i + suc (length delays)))
                id
                dead_letter
                attempts
                (errs (i + length delays)),
          )
      run_none delay [] i last w calm fails =
          let same : i + 0 ≡ i = omega arith in
          rw same (
            run_failed i last delay [] w (errs i) calm (fails i (omega arith) (omega arith))
            ∙ run_ended (i + 1) (errs i) (updated w (now i) id failed (i + 1) (errs i)) calm
            ∙ ap (λ v. (ok tt, v))
                (updated-updated w (now i) (now (i + 1)) id failed dead_letter (i + 1) attempts
                  (errs i) (errs i)))
      run_none delay (d ∷ ds) i last w calm fails =
          let k = length ds in
          let next : i + suc (suc k) ≡ i + 1 + suc k = omega arith in
          let last_one : i + suc k ≡ i + 1 + k = omega arith in
          run_failed i last delay (d ∷ ds) w (errs i) calm (fails i (omega arith) (omega arith))
          ∙ rw next (
              rw last_one (
                run_none d ds (i + 1) (some (errs i)) (updated w (now i) id failed (i + 1) (errs i))
                  calm (λ j low high. fails j (omega arith) (omega arith))
                ∙ ap (λ v. (ok tt, v))
                    (updated-updated w (now i) (now (i + 1 + suc k)) id failed dead_letter (i + 1)
                      attempts (errs i) (errs (i + 1 + k)))))

module _ (engine : Engine) (d : Dispatcher) (task : Task) (answers : ℕ → Answer) (now : ℕ → ℕ)
    (errs : ℕ → String) (stored : d.store ≡ some (sqlite_store engine))
    (named : (task.delivery_id == "") ≡ false) where
  -- Where the database answers: if attempt `k` (counted from 0, below the number of delays) is the
  -- first with a 2xx response, the record ends as delivered after `k + 1` attempts, with no error,
  -- and nothing else in the database changes.
  pub deliver_accepted :
      (k : ℕ) (w : World)
      → IsCalm w
      → k < length d.backoff
      → ((j : ℕ) → j < k → post (answers j) ≡ some (errs j))
      → post (answers k) ≡ none
      → deliver d answers now task w
        ≡ (ok tt, updated w (now k) task.delivery_id delivered (k + 1) "")
  unfolding deliver run
  deliver_accepted k w calm short fails good =
      let plus : 0 + k ≡ k = omega arith in
      rw stored (
        rw plus at (
          run_first engine task.delivery_id named answers now (length d.backoff) errs k 0 none
            d.backoff w calm short (λ j _ high. fails j (omega arith)) (rw plus good)))

  -- Where the database answers: if every attempt fails, the record ends as a dead letter after as
  -- many attempts as there are delays, with the error of the last one, and nothing else in the
  -- database changes.
  pub deliver_exhausted :
      (delay : ℕ) (delays : List ℕ) (w : World)
      → IsCalm w
      → d.backoff ≡ delay ∷ delays
      → ((j : ℕ) → j < suc (length delays) → post (answers j) ≡ some (errs j))
      → deliver d answers now task w ≡ (
        ok tt,
        updated w
            (now (suc (length delays)))
            task.delivery_id
            dead_letter
            (suc (length delays))
            (errs (length delays)),
      )
  unfolding deliver run
  deliver_exhausted delay delays w calm some_delay fails =
      let k = length delays in
      let plus : 0 + suc k ≡ suc k = omega arith in
      let plus' : 0 + k ≡ k = omega arith in
      rw stored (
        rw some_delay (
          rw plus' at (
            rw plus at (
              run_none engine task.delivery_id named answers now (suc k) errs delay delays 0 none w
                calm (λ j _ high. fails j (omega arith))))))
