-- ===== src/Server/Threads/Covered/Begin.antt =====
-- The start of a request leaves no delivery behind.
use artifact_registry_servic.Base.{
  Bool, ℕ, String, ◌≡◌, refl, ap, Bool-cases, inl, inr, List, [], ◌∷◌, All, Option, some,
}
use artifact_registry_servic.Domain.{ChannelPointer}
use artifact_registry_servic.Delivery.{channel_promoted}
use artifact_registry_servic.Auth.{Store, allowed}
use artifact_registry_servic.Exec.{Result, ok, err}
use artifact_registry_servic.World.{World, Db}
use artifact_registry_servic.Storage.{IsBackend}
use artifact_registry_servic.Sqlite.Channels.Calls.{list_channel_history-Triple}
use artifact_registry_servic.Registry.Service.Promote.{find_target-Triple}
use artifact_registry_servic.Webhooks.Dispatcher.{DeliveryStore, sqlite_store}
use artifact_registry_servic.Webhooks.Replay.Outcomes.{replay_check-Triple}
use artifact_registry_servic.Api.Middleware.{extract_bearer}
use artifact_registry_servic.Api.Handlers.{Handler}
use artifact_registry_servic.Server.Threads.Begin.{uploading-Triple}
use artifact_registry_servic.Server.Threads.{
  Chance, inserting, pointing, resetting, then_do, then_all, Call, uploads, promotes, rolls_back,
  replays, Request, scope_of, second_version, checked, begin_call, begin,
}
use artifact_registry_servic.Server.Threads.Covered.{IsArmed, IsCovered}
use artifact_registry_servic.Server.Threads.Covered.Calls.{
  IsFollowed, each-IsArmed, same_rows, called,
}

module _ (h : Handler) (c : Chance) (name : String → String) (bk : IsBackend h.stor name)
    (is : h.wh.store ≡ some (sqlite_store h.engine)) (w : World) (rest : String → Bool) where
  begin_call-IsFollowed :
      (id_time : ℕ) (call : Call)
      → All (IsCovered rest) w.db.webhook_deliveries
      → IsFollowed rest (begin_call h c id_time call w)
  unfolding begin_call checked
  begin_call-IsFollowed id_time (uploads req) k =
      called w rest _ (then_do inserting) (uploading-Triple h c name bk id_time req w.db w.objects)
        (λ a v k. ap (λ (x : Db). x.webhook_deliveries) k.0) (λ _ v k. k)
        (λ r. each-IsArmed h c inserting r (λ x. tt)) k
  begin_call-IsFollowed id_time (promotes channel type app version by) k =
      called w rest _ (then_do (pointing channel_promoted channel type app by))
        (find_target-Triple type app version w.db w.objects)
        (λ _ v k. ap (λ (x : Db). x.webhook_deliveries) k.0.tables) (λ _ v k. k.tables)
        (λ r. each-IsArmed h c (pointing channel_promoted channel type app by) r (λ x. tt)) k
  begin_call-IsFollowed id_time (rolls_back channel type app by) k =
      called w rest _ (then_all (second_version channel type app by))
        (list_channel_history-Triple channel type app w.db w.objects h.engine)
        (λ _ v k. ap (λ (x : Db). x.webhook_deliveries) k.0.tables) (λ _ v k. k.tables)
        (second channel type app by) k
    where
      second :
          (channel type app by : String) (r : Result (List ChannelPointer))
          → All IsArmed (then_all (second_version channel type app by) r)
      second channel type app by (ok []) = tt
      second channel type app by (ok (curr ∷ [])) = tt
      second channel type app by (ok (curr ∷ prev ∷ rest)) = (tt, tt)
      second channel type app by (err e) = tt
  begin_call-IsFollowed id_time (replays id) k = replaying h.wh.store is
    where
      replaying :
          (store : Option DeliveryStore)
          → store ≡ some (sqlite_store h.engine)
          → IsFollowed rest (checked h c store id w)
      replaying store e = rw e (
          called w rest _ (then_do (resetting id)) (replay_check-Triple h.engine id w.db w.objects)
            (λ d v k. ap (λ (x : Db). x.webhook_deliveries) k.0.tables) (λ _ v k. k.tables)
            (λ r. each-IsArmed h c (resetting id) r (λ x. tt)) k)

  pub begin-IsFollowed :
      (store : Store) (id_time : ℕ) (req : Request)
      → All (IsCovered rest) w.db.webhook_deliveries
      → IsFollowed rest (begin h c store id_time req w)
  unfolding begin
  begin-IsFollowed store id_time req k =
      elim (Bool-cases (allowed store (extract_bearer req.authorization) (scope_of req.call))) [
        | inl granted ↦ rw granted (begin_call-IsFollowed id_time req.call k)
        | inr refused ↦ rw refused (same_rows w rest [] w refl tt k)
      ]
