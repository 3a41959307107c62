-- ===== src/Api/Handlers/Replays.antt =====
-- What the answer to a replay says of the state.
use artifact_registry_servic.Base.{
  ℕ, String, ◌≡◌, refl, ◌⊎◌, inl, inr, Bool-cases, List, [], ◌∷◌, some,
}
use artifact_registry_servic.Domain.Errors.{Error, is, delivery_not_found, not_dead_letter}
use artifact_registry_servic.Exec.{Result, ok, err}
use artifact_registry_servic.Exec.Triple.{Post}
use artifact_registry_servic.World.{World, Db, Bytes}
use artifact_registry_servic.World.Laws.{At}
use artifact_registry_servic.Webhooks.Dispatcher.{sqlite_store, Task}
use artifact_registry_servic.Webhooks.Replay.{replay}
use artifact_registry_servic.Webhooks.Replay.Outcomes.{IsReplayed, replay-Triple}
use artifact_registry_servic.Api.Reply.{Served, replaying}
use artifact_registry_servic.Api.Handlers.{Handler, replay_reply, handle_replay}

module _ (h : Handler) (store : h.wh.store ≡ some (sqlite_store h.engine)) (now : ℕ) (id : String)
    (db : Db) (objects : List (String × Bytes)) where
  -- The answer is an error, no delivery starts, and nothing has changed.
  abbrev pub IsDeclined : Served → Type 0
  IsDeclined s =
      ((s.0.status ≡ 404) ⊎ ((s.0.status ≡ 409) ⊎ (s.0.status ≡ 500)))
      × (s.1 ≡ [])
      × At db objects s.2

  -- The answer is 202 with the identifier, and one delivery starts.
  abbrev pub IsRestarted : Served → Type 0
  IsRestarted s =
      (task : Task) × (s.0 ≡ record { status = 202; body = replaying id })
      × (s.1 ≡ task ∷ [])
      × IsReplayed h.wh h.engine store now id db objects task s.2

  declined : (e : Error) (w : World) → At db objects w → IsDeclined (replay_reply id (err e) w)
  unfolding replay_reply
  declined e w same = elim (Bool-cases (is e delivery_not_found)) [
    | inl gone ↦ rw gone (inl refl, refl, same)
    | inr there ↦ elim (Bool-cases (is e not_dead_letter)) [
      | inl live ↦ rw there (rw live (inr (inl refl), refl, same))
      | inr dead ↦ rw there (rw dead (inr (inr refl), refl, same))
    ]
  ]

  answered :
      (r : Result Task) (w : World)
      → Post (IsReplayed h.wh h.engine store now id db objects) (λ _. At db objects) r w
      → IsDeclined (replay_reply id r w) ⊎ IsRestarted (replay_reply id r w)
  unfolding replay_reply
  answered (ok task) w k = inr (task, refl, refl, k)
  answered (err e) w k = inl (declined e w k)

  -- Whatever calls fail, a replay ends in one of two ways. It is answered with 404, 409 or 500, no
  -- delivery starts and nothing changes. Or the record of the identifier was a dead letter: it is
  -- set to pending with its count of attempts kept and no error, nothing else changes, the answer
  -- is 202, and one delivery starts, of the same event with the same body and signature.
  pub replay-answers :
      (w : World)
      → At db objects w
      → IsDeclined (handle_replay h now id w) ⊎ IsRestarted (handle_replay h now id w)
  unfolding handle_replay
  replay-answers w same =
      answered (replay h.wh now id w).0 (replay h.wh now id w).1
        ((replay-Triple h.wh h.engine store now id db objects).at w same)
