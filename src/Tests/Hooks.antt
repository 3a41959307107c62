-- ===== src/Tests/Hooks.antt =====
-- Examples for the webhook dispatcher.
use artifact_registry_servic.Base.{
  ◌⊎◌, ℕ, zero, suc, ◌+◌, ◌≡◌, refl, ◌<◌, [], ◌∷◌, map, All, some, arith,
}
use artifact_registry_servic.Delivery.{artifact_uploaded, pending, delivered, dead_letter}
use artifact_registry_servic.Exec.{ok}
use artifact_registry_servic.World.{World}
use artifact_registry_servic.Sqlite.Deliveries.{find_delivery}
use artifact_registry_servic.Webhooks.Event.{Event, compute_signature, uploaded}
use artifact_registry_servic.Webhooks.Dispatcher.{
  Answer, responded, unreachable, post, deliver, sqlite_store,
}
use artifact_registry_servic.Webhooks.Emit.{emit}
use artifact_registry_servic.Webhooks.Replay.{replay_check, replay_reset}
use artifact_registry_servic.Webhooks.Dispatcher.Delivering.{
  updated, deliver_accepted, deliver_exhausted,
}
use artifact_registry_servic.Webhooks.Replay.Repeats.{resent, replay_race}
use artifact_registry_servic.Webhooks.Emit.Tasks.{url_of, Carries, signed, emit-tasks}
use artifact_registry_servic.Api.Handlers.{handle_replay}
use artifact_registry_servic.Api.Handlers.Replays.{IsDeclined, IsRestarted, replay-answers}
use artifact_registry_servic.Tests.{
  stable_db, handler, plain, sqlite, hooks, task, codec_of, event, record_in, db_with, calm_world,
}

abbrev pending_world : World
pending_world = calm_world (db_with [] [] pending)

abbrev dead_world : World
dead_world = calm_world (db_with [] [] dead_letter)

-- The second attempt is accepted.
abbrev second_time : ℕ → Answer
second_time zero = unreachable "refused"
second_time (suc _) = responded 204

deliver_accepted_example :
    deliver hooks second_time (λ i. 100 + i) task pending_world
    ≡ (ok tt, updated pending_world 101 "d1" delivered 2 "")
unfolding post
deliver_accepted_example =
    deliver_accepted sqlite hooks task second_time (λ i. 100 + i) (λ i. "refused") refl refl 1
      pending_world refl (omega arith) first_fails refl
  where
    first_fails : (j : ℕ) → j < 1 → post (second_time j) ≡ some "refused"
    first_fails zero _ = refl
    first_fails (suc j) h = absurd (omega arith)

deliver_exhausted_example :
    deliver hooks (λ i. unreachable "refused") (λ i. 100 + i) task pending_world
    ≡ (ok tt, updated pending_world 103 "d1" dead_letter 3 "refused")
unfolding post
deliver_exhausted_example =
    deliver_exhausted sqlite hooks task (λ i. unreachable "refused") (λ i. 100 + i) (λ i. "refused")
      refl refl 0 (1000 ∷ 5000 ∷ []) pending_world refl refl (λ j _. refl)

replay_race_example :
    let rec = record_in dead_letter in
    let store = sqlite_store sqlite in
    let (r1, w1) = replay_check store "d1" dead_world in
    let (r2, w2) = replay_check store "d1" w1 in
    let (s1, w3) = replay_reset store 9 rec "d1" w2 in
    let (s2, w4) = replay_reset store 10 rec "d1" w3 in
    (r1 ≡ ok rec) × (r2 ≡ ok rec) × (s1 ≡ ok (resent "d1" rec)) × (s2 ≡ ok (resent "d1" rec))
unfolding find_delivery
replay_race_example = replay_race sqlite 9 10 "d1" (record_in dead_letter) dead_world refl refl refl

emit-tasks_example :
    let unsigned = event in
    let tasks =
      (emit plain
        (codec_of event)
        hooks
        artifact_uploaded
        "a1"
        (uploaded "a1" "v1.0.0" "0102" 2)
        "e2"
        "now"
        (λ i. "d2")
        (λ i. 9)
        dead_world).0 in
    (map url_of tasks ≡ hooks.urls)
    × All
        (Carries
          (signed plain
            (codec_of event)
            hooks.secret
            unsigned
            ""
            (compute_signature plain hooks.secret ""))
          (compute_signature plain hooks.secret ""))
        tasks
emit-tasks_example =
    emit-tasks plain (codec_of event) hooks artifact_uploaded "a1" (uploaded "a1" "v1.0.0" "0102" 2)
      "e2" "now" (λ i. "d2") (λ i. 9) dead_world "{}" "" (compute_signature plain hooks.secret "")
      refl refl refl

abbrev signed_event : Event
signed_event = record event { signature = compute_signature plain hooks.secret "" }

replay-answers_example :
    IsDeclined handler refl 9 "d1" stable_db
      (calm_world stable_db).objects
      (handle_replay handler 9 "d1" (calm_world stable_db))
    ⊎ IsRestarted handler refl 9 "d1" stable_db
        (calm_world stable_db).objects
        (handle_replay handler 9 "d1" (calm_world stable_db))
replay-answers_example =
    replay-answers handler refl 9 "d1" stable_db (calm_world stable_db).objects
      (calm_world stable_db) (record { tables = refl; stored = refl })
