-- ===== src/Server/Safekeeping/Steps.antt =====
-- Each step keeps the files, if no upload begins for a file that is in use.
use mathlib.Core.List.{append-nil}
use artifact_registry_servic.Base.{
  ℕ, String, ◌≡◌, refl, sym, ap, inr, List, [], ◌∷◌, ◌++◌, All, All-append, All-weaken, none, some,
}
use artifact_registry_servic.Domain.{Artifact}
use artifact_registry_servic.Auth.{Store}
use artifact_registry_servic.World.{World, Db}
use artifact_registry_servic.World.Laws.{At}
use artifact_registry_servic.Storage.{IsBackend}
use artifact_registry_servic.Webhooks.Dispatcher.{sqlite_store}
use artifact_registry_servic.Registry.Version.{normalize_version}
use artifact_registry_servic.Registry.Service.{UploadRequest}
use artifact_registry_servic.Sqlite.Artifacts.Laws.{with_artifact}
use artifact_registry_servic.Api.Handlers.{Handler}
use artifact_registry_servic.Server.Threads.{
  Chance, Thread, inserting, cleaning, restoring, pointing, saving, announcing, resetting,
  delivering, Call, uploads, Request, advance, begin,
}
use artifact_registry_servic.Server.Threads.Quiet.{
  Apart, in_hand, HasNone, IsQuiet, advance-IsQuiet,
}
use artifact_registry_servic.Server.Threads.Files.{
  IsBut, named, IsUploading, inserting-outcomes, cleaning-outcome, begin-outcomes,
}
use artifact_registry_servic.Server.System.Invariant.{All-halves}
use artifact_registry_servic.Server.Safekeeping.{file, file_name, Held, IsOutside, IsSafe}
use artifact_registry_servic.Server.Safekeeping.Files.{
  Apart-sym, Apart-none, Pairwise-middle, none-IsHeir, replaced, added, All-of,
}

-- No row and no goroutine has the file of an upload.
abbrev pub IsUnused : (String → String) → List Artifact → List Thread → Call → Type 0
IsUnused name rows threads (uploads req) =
    let k = named name req (normalize_version req.version) in
    IsOutside name rows k × All (λ t. Apart (file name t) k) threads
IsUnused name rows threads _ = Unit {0}

module _ (h : Handler) (c : Chance) (name : String → String) (bk : IsBackend h.stor name)
    (is : h.wh.store ≡ some (sqlite_store h.engine)) (w : World) where
  abbrev pub After : List Thread → List Thread → List Thread × World → Type 0
  After before after out = IsSafe h.go name out.1 (before ++ (out.0 ++ after))

  beside :
      (before after : List Thread)
      → IsSafe h.go name w (before ++ after)
      → (ts : List Thread) (v : World) → IsQuiet w (ts, v)
      → After before after (ts, v)
  beside before after safe ts v q =
      replaced h.go name w v before ts after none q.rows (λ j _. rw q.stored refl) safe
        (All-of _ (λ x. Apart-none (file name x)) before)
        (All-of _ (λ x. Apart-none (file name x)) after) (All-of _ (λ a. tt) w.db.artifacts)
        (none-IsHeir h.go name v.objects none ts q.empty)

  -- A goroutine between others.
  module _ (before : List Thread) (t : Thread) (after : List Thread)
      (safe : IsSafe h.go name w (before ++ t ∷ after)) where
    others : IsSafe h.go name w (before ++ after)
    others =
        let (ahead, (here, behind)) = All-halves _ before (t ∷ after) safe.held in
        let (out, (mine, outside)) = All-halves _ before (t ∷ after) safe.outside in
        record {
          files = safe.files;
          held = All-append _ before after ahead behind;
          outside = All-append _ before after out outside;
          alone = (Pairwise-middle _ before t after safe.alone).0;
        }

    ahead : All (λ x. Apart (file name x) (file name t)) before
    ahead = (Pairwise-middle _ before t after safe.alone).1

    behind : All (λ x. Apart (file name x) (file name t)) after
    behind =
        All-weaken _ _ (λ x. Apart-sym (file name t) (file name x)) after
          (Pairwise-middle _ before t after safe.alone).2

    mine : IsOutside name w.db.artifacts (file name t)
    mine = (All-halves _ before (t ∷ after) safe.outside).1.0

    here : Held h.go name w.objects t
    here = (All-halves _ before (t ∷ after) safe.held).1.0

    quiet : (ts : List Thread) (v : World) → IsQuiet w (ts, v) → After before after (ts, v)
    quiet = beside before after others

    -- An upload whose row could not be saved keeps its file in hand, until it has removed it.
    unsaved :
        (a : Artifact)
        → in_hand t ≡ some a
        → (v : World) → At w.db w.objects v
        → After before after (cleaning a ∷ [], v)
    unsaved a e v k =
        replaced h.go name w v before (cleaning a ∷ []) after (file name t)
          (ap (λ (d : Db). d.artifacts) k.tables) (λ j _. rw k.stored refl) others ahead behind mine
          (record {
            mine = (inr (ap (file_name name) (sym e)), tt);
            alone = (tt, tt);
            held = (tt, tt);
          })

    removed :
        (a : Artifact)
        → in_hand t ≡ some a
        → (v : World) → IsBut (some (name a.storage_key)) w v
        → After before after ([], v)
    removed a e v k =
        replaced h.go name w v before [] after (file name t) (ap (λ (d : Db). d.artifacts) k.tables)
          (λ j far. k.others j (rw (ap (file_name name) e) at far)) others ahead behind mine
          (record { mine = tt; alone = tt; held = tt })

  -- The row of an upload is saved.
  saved :
      (before : List Thread) (a : Artifact) (after : List Thread)
      → IsSafe h.go name w (before ++ inserting a ∷ after)
      → (ts : List Thread) (v : World) → All HasNone ts
      → At (with_artifact w.db a) w.objects v
      → After before after (ts, v)
  saved before a after safe ts v idle k =
      added h.go name w v a (before ++ (ts ++ after)) (ap (λ (d : Db). d.artifacts) k.tables)
        k.stored
        (quiet before (inserting a) after safe ts w
          (record { rows = refl; stored = refl; empty = idle }))
        (here before (inserting a) after safe)
        (All-append _ before _ (far before (ahead before (inserting a) after safe)) (
          All-append _ ts _
            (All-weaken HasNone (λ t. Apart (some (name a.storage_key)) (file name t))
              (λ t e. rw (ap (file_name name) e) tt) ts idle)
            (far after (behind before (inserting a) after safe))))
    where
      far :
          (us : List Thread)
          → All (λ x. Apart (file name x) (some (name a.storage_key))) us
          → All (λ x. Apart (some (name a.storage_key)) (file name x)) us
      far us = All-weaken _ _ (λ x. Apart-sym (file name x) (some (name a.storage_key))) us

  pub advanced :
      (before : List Thread) (t : Thread) (after : List Thread)
      → IsSafe h.go name w (before ++ t ∷ after)
      → After before after (advance h c t w)
  advanced before (inserting a) after safe =
      inserting-outcomes h c name bk w a (After before after) (saved before a after safe)
        (unsaved before (inserting a) after safe a refl)
  advanced before (cleaning a) after safe =
      cleaning-outcome h c name bk w a (After before after)
        (removed before (cleaning a) after safe a refl)
  advanced before (restoring channel type app by version) after safe =
      quiet before _ after safe _ _
        (advance-IsQuiet h c is w (restoring channel type app by version) refl)
  advanced before (pointing event channel type app by target) after safe =
      quiet before _ after safe _ _
        (advance-IsQuiet h c is w (pointing event channel type app by target) refl)
  advanced before (saving event ch) after safe =
      quiet before _ after safe _ _ (advance-IsQuiet h c is w (saving event ch) refl)
  advanced before (announcing e body urls) after safe =
      quiet before _ after safe _ _ (advance-IsQuiet h c is w (announcing e body urls) refl)
  advanced before (resetting id d) after safe =
      quiet before _ after safe _ _ (advance-IsQuiet h c is w (resetting id d) refl)
  advanced before (delivering task i last delays) after safe =
      quiet before _ after safe _ _ (advance-IsQuiet h c is w (delivering task i last delays) refl)

  -- A request beside the goroutines that run.
  pub began :
      (store : Store) (id_time : ℕ) (req : Request) (threads : List Thread)
      → IsSafe h.go name w threads
      → IsUnused name w.db.artifacts threads req.call
      → After threads [] (begin h c store id_time req w)
  began store id_time req threads safe unused =
      begin-outcomes h c name bk w is store id_time req (After threads [])
        (record { quiet = beside threads [] alone; uploading = uploading; failing = failing })
    where
      alone : IsSafe h.go name w (threads ++ [])
      alone = rw (append-nil threads) safe

      uploading :
          (u : UploadRequest)
          → req.call ≡ uploads u
          → (a : Artifact) (v : World) → IsUploading h c name bk w u a v
          → After threads [] (inserting a ∷ [], v)
      uploading u e a v k =
          let (out, clear) = rw e at unused in
          replaced h.go name w v threads (inserting a ∷ []) []
            (named name u (normalize_version u.version)) (ap (λ (d : Db). d.artifacts) k.but.tables)
            (λ j far. k.but.others j (rw (sym k.mine) at far)) alone clear tt out
            (record {
              mine = (inr k.mine, tt);
              alone = (tt, tt);
              held = ((u.file.content, k.there, k.size, k.hash), tt);
            })

      failing :
          (u : UploadRequest)
          → req.call ≡ uploads u
          → (v : World) → IsBut (named name u (normalize_version u.version)) w v
          → After threads [] ([], v)
      failing u e v k =
          let (out, clear) = rw e at unused in
          replaced h.go name w v threads [] [] (named name u (normalize_version u.version))
            (ap (λ (d : Db). d.artifacts) k.tables) (λ j far. k.others j far) alone clear tt out
            (record { mine = tt; alone = tt; held = tt })
