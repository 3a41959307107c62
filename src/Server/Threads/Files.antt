-- ===== src/Server/Threads/Files.antt =====
-- The steps that have a file in hand: an upload's first calls, its row, and the removal of its file.
use artifact_registry_servic.Base.{
  ℕ, String, ◌==◌, ◌≡◌, ◌≢◌, refl, ap, sym, ◌∙◌, false, inl, inr, Bool-cases, List, [], ◌∷◌, All,
  Option, none, some, length, lookup, lookup-insert, lookup-remove, eq_refl, eq_iff, hex_text,
}
use artifact_registry_servic.Domain.{Artifact, ChannelPointer}
use artifact_registry_servic.Delivery.{channel_promoted}
use artifact_registry_servic.Auth.{Store, allowed}
use artifact_registry_servic.Exec.{◌>>=◌, Result, ok, err}
use artifact_registry_servic.Exec.Triple.{
  Triple, Triple-outcome, Triple-bind, Triple-fact, Triple-weaken,
}
use artifact_registry_servic.World.{World}
use artifact_registry_servic.World.Laws.{At}
use artifact_registry_servic.Storage.{AtBut, IsBackend}
use artifact_registry_servic.Sqlite.Artifacts.Laws.{with_artifact, save_artifact-Triple}
use artifact_registry_servic.Sqlite.Channels.Calls.{list_channel_history-Triple}
use artifact_registry_servic.Registry.Version.{normalize_version}
use artifact_registry_servic.Registry.Identifier.{storage_key}
use artifact_registry_servic.Registry.Service.{
  UploadRequest, Checked, key_of, artifact_of, check_upload, stored_artifact,
}
use artifact_registry_servic.Registry.Service.Promote.{find_target-Triple}
use artifact_registry_servic.Registry.Service.Upload.{
  IsChecked, IsStored, check_upload-Triple, stored_artifact-Triple,
}
use artifact_registry_servic.Webhooks.Dispatcher.{DeliveryStore, sqlite_store}
use artifact_registry_servic.Webhooks.Replay.Outcomes.{replay_check-Triple}
use artifact_registry_servic.Api.Middleware.{extract_bearer}
use artifact_registry_servic.Api.Handlers.{Handler}
use artifact_registry_servic.Server.Threads.{
  Chance, Thread, inserting, cleaning, pointing, resetting, then_do, then_all, inserted, advance,
  Call, uploads, promotes, rolls_back, replays, Request, scope_of, second_version, checked,
  begin_call, begin,
}
use artifact_registry_servic.Server.Threads.Quiet.{
  Apart, HasNone, IsQuiet, called, tables-IsQuiet, announced-HasNone,
}

-- The tables are as before, and so are the objects but that of the name, if there is one.
pub record IsBut (k : Option String) (w v : World) : Type 0 where
  pub tables : v.db ≡ w.db
  pub others : (j : String) → Apart (some j) k → lookup j v.objects ≡ lookup j w.objects

differ : (j k : String) → j ≢ k → (k == j) ≡ false
differ j k other = elim (Bool-cases (k == j)) [
  | inr e ↦ e
  | inl e ↦ absurd (other (sym ((eq_iff k j).0 e)))
]

AtBut-IsBut : (key : String) (w v : World) → AtBut key w.db w.objects v → IsBut (some key) w v
AtBut-IsBut key w v k = record {
  tables = k.tables;
  others = λ j other. k.others j (differ j key other);
}

module _ (h : Handler) (c : Chance) (name : String → String) (bk : IsBackend h.stor name)
    (w : World) where
  pub inserting-outcomes :
      (a : Artifact) (C : List Thread × World → Type 0)
      → ((ts : List Thread) (v : World)
          → All HasNone ts
          → At (with_artifact w.db a) w.objects v
          → C (ts, v))
      → ((v : World) → At w.db w.objects v → C (cleaning a ∷ [], v))
      → C (advance h c (inserting a) w)
  unfolding advance inserted
  inserting-outcomes a C saved failed =
      Triple-outcome _ (λ r v. C (inserted h c a r, v)) w
        (save_artifact-Triple h.engine a w.db w.objects) (record { tables = refl; stored = refl })
        (λ u v k. saved _ v (announced-HasNone h c _ _ _) k.0) (λ e v k. failed v k)

  cleaned : (a : Artifact) → IsBut (some (name a.storage_key)) w (h.stor.delete a.storage_key w).1
  cleaned a =
      Triple-outcome _ (λ _ v. IsBut (some (name a.storage_key)) w v) w
        (bk.delete_keeps a.storage_key w.db w.objects) (record { tables = refl; stored = refl })
        (λ u v k. record {
          tables = k.tables;
          others = λ j other. rw k.stored (
              lookup-remove (name a.storage_key) j w.objects
              ∙ rw (differ j (name a.storage_key) other) refl);
        })
        (λ e v k. AtBut-IsBut (name a.storage_key) w v k)

  pub cleaning-outcome :
      (a : Artifact) (C : List Thread × World → Type 0)
      → ((v : World) → IsBut (some (name a.storage_key)) w v → C ([], v))
      → C (advance h c (cleaning a) w)
  unfolding advance
  cleaning-outcome a C f = f _ (cleaned a)

-- The file that an upload is for.
abbrev pub named : (String → String) → UploadRequest → Result String → Option String
named name req (ok v) = some (name (storage_key req.type req.name v))
named name req (err e) = none

module _ (h : Handler) (c : Chance) (name : String → String) (bk : IsBackend h.stor name)
    (w : World) where
  -- The request's file is stored, and the record for it has its size and its hash.
  pub record IsUploading (req : UploadRequest) (a : Artifact) (v : World) : Type 0 where
    pub mine : some (name a.storage_key) ≡ named name req (normalize_version req.version)
    pub but : IsBut (some (name a.storage_key)) w v
    pub there : lookup (name a.storage_key) v.objects ≡ some req.file.content
    pub size : a.size_bytes ≡ length req.file.content
    pub hash : a.sha256 ≡ hex_text (h.go.sha256 req.file.content)

  my_name :
      (req : UploadRequest) (k : Checked)
      → IsChecked h.go req k
      → some (name (key_of k)) ≡ named name req (normalize_version req.version)
  my_name req k good = rw good.version_ok (rw good.same refl)

  stored-IsUploading :
      (id_time : ℕ) (req : UploadRequest) (k : Checked) (a : Artifact)
      → IsChecked h.go req k
      → (v : World) → IsStored h.go h.engine h.stor name bk id_time c.now w.db w.objects k a v
      → IsUploading req a v
  unfolding artifact_of
  stored-IsUploading id_time req k a good v (state, e) =
      let key : a.storage_key ≡ key_of k = ap (λ (x : Artifact). x.storage_key) e in
      let here : lookup (name (key_of k)) v.objects ≡ some k.request.file.content =
        rw state.stored (
          lookup-insert (name (key_of k)) (name (key_of k)) _ w.objects
          ∙ rw (eq_refl (name (key_of k))) refl) in
      let content : k.request.file.content ≡ req.file.content =
        ap (λ (r : UploadRequest). r.file.content) good.same in
      record {
        mine = ap (λ x. some (name x)) key ∙ my_name req k good;
        but = rw key (record {
          tables = state.tables;
          others = λ j other. rw state.stored (
              lookup-insert (name (key_of k)) j _ w.objects
              ∙ rw (differ j (name (key_of k)) other) refl);
        });
        there = rw key (here ∙ ap some content);
        size = ap (λ (x : Artifact). x.size_bytes) e ∙ ap length content;
        hash = ap (λ (x : Artifact). x.sha256) e ∙ ap (λ b. hex_text (h.go.sha256 b)) content;
      }

  begun-Triple :
      (id_time : ℕ) (req : UploadRequest)
      → Triple
          (At w.db w.objects)
          (do k ← check_upload h.go req; stored_artifact h.go h.engine h.stor id_time c.now k)
          (λ a v. IsUploading req a v)
          (λ _ v. IsBut (named name req (normalize_version req.version)) w v)
  begun-Triple id_time req =
      Triple-bind _ _
        (Triple-weaken _ (check_upload-Triple h.go req (At w.db w.objects)) (λ k v p. p)
          (λ _ v p. record { tables = p.tables; others = λ j _. rw p.stored refl }))
        λ k. Triple-fact {F = IsChecked h.go req k} _ λ good.
          Triple-weaken _
            (stored_artifact-Triple h.go h.engine h.stor name bk id_time c.now w.db w.objects k)
            (λ a v s. stored-IsUploading id_time req k a good v s)
            (λ _ v s. rw⁻¹ (my_name req k good) (AtBut-IsBut (name (key_of k)) w v s))

  -- The start of a request.
  pub record IsStart (C : List Thread × World → Type 0) (call : Call) : Type 0 where
    pub quiet : (ts : List Thread) (v : World) → IsQuiet w (ts, v) → C (ts, v)
    pub uploading :
        (req : UploadRequest)
        → call ≡ uploads req
        → (a : Artifact) (v : World) → IsUploading req a v
        → C (inserting a ∷ [], v)
    pub failing :
        (req : UploadRequest)
        → call ≡ uploads req
        → (v : World) → IsBut (named name req (normalize_version req.version)) w v
        → C ([], v)

  begin_call-outcomes :
      (is : h.wh.store ≡ some (sqlite_store h.engine)) (id_time : ℕ) (call : Call)
      (C : List Thread × World → Type 0)
      → IsStart C call
      → C (begin_call h c id_time call w)
  unfolding begin_call checked
  begin_call-outcomes is id_time (uploads req) C start =
      Triple-outcome _ (λ r v. C (then_do inserting r, v)) w (begun-Triple id_time req)
        (record { tables = refl; stored = refl }) (λ a v k. start.uploading req refl a v k)
        (λ e v k. start.failing req refl v k)
  begin_call-outcomes is id_time (promotes channel type app version by) C start = start.quiet _ _ (
      called _ (then_do (pointing channel_promoted channel type app by)) w
        (find_target-Triple type app version w.db w.objects)
        (λ _ v k. tables-IsQuiet w _ v w.db refl k.0 (refl, tt)) (λ _ v k. k) (λ _. tt))
  begin_call-outcomes is id_time (rolls_back channel type app by) C start = start.quiet _ _ (
      called _ (then_all (second_version channel type app by)) w
        (list_channel_history-Triple channel type app w.db w.objects h.engine)
        (λ rows v k. tables-IsQuiet w _ v w.db refl k.0 (second channel type app by rows))
        (λ _ v k. k) (λ _. tt))
    where
      second :
          (channel type app by : String) (rows : List ChannelPointer)
          → All HasNone (second_version channel type app by rows)
      second channel type app by [] = tt
      second channel type app by (curr ∷ []) = tt
      second channel type app by (curr ∷ prev ∷ rest) = (refl, tt)
  begin_call-outcomes is id_time (replays id) C start = start.quiet _ _ (replaying h.wh.store is)
    where
      replaying :
          (store : Option DeliveryStore)
          → store ≡ some (sqlite_store h.engine)
          → IsQuiet w (checked h c store id w)
      replaying store e = rw e (
          called _ (then_do (resetting id)) w (replay_check-Triple h.engine id w.db w.objects)
            (λ d v k. tables-IsQuiet w _ v w.db refl k.0 (refl, tt)) (λ _ v k. k) (λ _. tt))

  pub begin-outcomes :
      (is : h.wh.store ≡ some (sqlite_store h.engine)) (store : Store) (id_time : ℕ) (req : Request)
      (C : List Thread × World → Type 0)
      → IsStart C req.call
      → C (begin h c store id_time req w)
  unfolding begin
  begin-outcomes is store id_time req C start =
      elim (Bool-cases (allowed store (extract_bearer req.authorization) (scope_of req.call))) [
        | inl granted ↦ rw granted (begin_call-outcomes is id_time req.call C start)
        | inr refused ↦
            rw refused (start.quiet [] w (record { rows = refl; stored = refl; empty = tt }))
      ]
