-- ===== src/Server/Threads/Begin.antt =====
-- The start of a request: what it finds before its first change of the tables.
use artifact_registry_servic.Base.{
  ℕ, String, ◌≡◌, refl, Bool-cases, inl, inr, List, [], ◌∷◌, All, Option, some,
}
use artifact_registry_servic.Domain.{Artifact, ChannelPointer}
use artifact_registry_servic.Delivery.{channel_promoted}
use artifact_registry_servic.Auth.{Store, allowed}
use artifact_registry_servic.Exec.{◌>>=◌}
use artifact_registry_servic.Exec.Triple.{Triple, Triple-bind, Triple-fact, Triple-weaken}
use artifact_registry_servic.World.{World, Db, Bytes}
use artifact_registry_servic.World.Laws.{At}
use artifact_registry_servic.Storage.{IsBackend}
use artifact_registry_servic.Sqlite.Artifacts.{find_artifact}
use artifact_registry_servic.Sqlite.Channels.Calls.{list_channel_history-Triple}
use artifact_registry_servic.Registry.Version.Normal.{normalize_version-IsNormal}
use artifact_registry_servic.Registry.Identifier.Laws.{validate_identifier-no_slash}
use artifact_registry_servic.Registry.Service.{
  UploadRequest, Checked, artifact_of, check_upload, stored_artifact,
}
use artifact_registry_servic.Registry.Service.Upload.{
  IsChecked, IsStored, check_upload-Triple, stored_artifact-Triple,
}
use artifact_registry_servic.Registry.Service.Promote.{find_target-Triple}
use artifact_registry_servic.Webhooks.Dispatcher.{DeliveryStore, sqlite_store}
use artifact_registry_servic.Api.Middleware.{extract_bearer}
use artifact_registry_servic.Webhooks.Replay.Outcomes.{replay_check-Triple}
use artifact_registry_servic.Api.Handlers.{Handler}
use artifact_registry_servic.Server.Integrity.{IsSound, IsConsistent}
use artifact_registry_servic.Server.Threads.{
  Chance, Thread, inserting, pointing, resetting, Call, uploads, promotes, rolls_back, replays,
  Request, scope_of, then_do, then_all, second_version, checked, begin_call, begin,
}
use artifact_registry_servic.Server.Threads.Kept.{IsPending, IsKept, artifacts-IsKept}
use artifact_registry_servic.Server.Threads.Advance.{called-IsKept}

last_of_four : {A B C D : Type 0} → A × B × C × D → D
last_of_four (a, b, c, d) = d

module _ (h : Handler) (c : Chance) (name : String → String) (bk : IsBackend h.stor name)
    (id_time : ℕ) (req : UploadRequest) (db : Db) (objects : List (String × Bytes)) where
  artifact_of-IsSound :
      (k : Checked) (a : Artifact)
      → IsChecked h.go req k
      → (w : World) → IsStored h.go h.engine h.stor name bk id_time c.now db objects k a w
      → (w.db ≡ db) × IsSound a
  artifact_of-IsSound k a good w (state, e) = (
    state.tables,
    rw e (
        unfold artifact_of in
        record {
          normal = last_of_four (normalize_version-IsNormal req.version k.version good.version_ok);
          plain_type = rw good.same (validate_identifier-no_slash h.go req.type good.type_ok);
          plain_name = rw good.same (validate_identifier-no_slash h.go req.name good.name_ok);
          keyed = refl;
        }),
  )

  pub uploading-Triple :
      Triple
        (At db objects)
        (do k ← check_upload h.go req; stored_artifact h.go h.engine h.stor id_time c.now k)
        (λ a w. (w.db ≡ db) × IsSound a)
        (λ _ w. w.db ≡ db)
  uploading-Triple =
      Triple-bind _ _
        (Triple-weaken _ (check_upload-Triple h.go req (At db objects)) (λ k w p. p)
          (λ _ w p. p.tables))
        λ k. Triple-fact {F = IsChecked h.go req k} _ λ good.
          Triple-weaken _
            (stored_artifact-Triple h.go h.engine h.stor name bk id_time c.now db objects k)
            (λ a w s. artifact_of-IsSound k a good w s) (λ _ w s. s.tables)

module _ (h : Handler) (c : Chance) (name : String → String) (bk : IsBackend h.stor name)
    (is : h.wh.store ≡ some (sqlite_store h.engine)) (w : World) (sane : IsConsistent w.db) where
  same_tables :
      (ts : List Thread) (v : World)
      → v.db ≡ w.db
      → All (IsPending w.db.artifacts) ts
      → IsKept w.db (ts, v)
  same_tables ts v e p = artifacts-IsKept w.db ts v w.db e refl sane p

  second_version-IsPending :
      (channel type name' by : String) (rows : List ChannelPointer)
      → All (IsPending w.db.artifacts) (second_version channel type name' by rows)
  second_version-IsPending channel type name' by [] = tt
  second_version-IsPending channel type name' by (curr ∷ []) = tt
  second_version-IsPending channel type name' by (curr ∷ prev ∷ rest) = (tt, tt)

  checked-IsKept :
      (store : Option DeliveryStore)
      → store ≡ some (sqlite_store h.engine)
      → (id : String) → IsKept w.db (checked h c store id w)
  unfolding checked
  checked-IsKept store e id = rw e (
      called-IsKept _ (then_do (resetting id)) w (replay_check-Triple h.engine id w.db w.objects)
        (λ d v k. same_tables _ v k.0.tables (tt, tt)) (λ x v k. same_tables [] v k.tables tt))

  begin_call-IsKept : (id_time : ℕ) (call : Call) → IsKept w.db (begin_call h c id_time call w)
  unfolding begin_call
  begin_call-IsKept id_time (uploads req) =
      called-IsKept _ (then_do inserting) w
        (uploading-Triple h c name bk id_time req w.db w.objects)
        (λ a v (e, sound). same_tables _ v e (sound, tt)) (λ x v e. same_tables [] v e tt)
  begin_call-IsKept id_time (promotes channel type name' version by) =
      called-IsKept _ (then_do (pointing channel_promoted channel type name' by)) w
        (find_target-Triple type name' version w.db w.objects)
        (λ t v (k, (normal, found)). same_tables _ v k.tables (unfold find_artifact in found, tt))
        (λ x v k. same_tables [] v k.tables tt)
  begin_call-IsKept id_time (rolls_back channel type name' by) =
      called-IsKept _ (then_all (second_version channel type name' by)) w
        (list_channel_history-Triple channel type name' w.db w.objects h.engine)
        (λ rows v (k, e).
          same_tables _ v k.tables (second_version-IsPending channel type name' by rows))
        (λ x v k. same_tables [] v k.tables tt)
  begin_call-IsKept id_time (replays id) = checked-IsKept h.wh.store is id

  -- A request, granted or not, changes no table.
  pub begin-IsKept :
      (store : Store) (id_time : ℕ) (req : Request) → IsKept w.db (begin h c store id_time req w)
  unfolding begin
  begin-IsKept store id_time req =
      elim (Bool-cases (allowed store (extract_bearer req.authorization) (scope_of req.call))) [
        | inl granted ↦ rw granted (begin_call-IsKept id_time req.call)
        | inr refused ↦ rw refused (same_tables [] w refl tt)
      ]
