-- ===== src/Server/Threads/Kept.antt =====
-- What a step has to keep: the consistency of the tables, the artifacts, and what a goroutine has
-- found in the tables until it uses it.
use artifact_registry_servic.Base.{String, ◌≡◌, ap, ◌∙◌, List, All, some, find}
use artifact_registry_servic.Domain.{Artifact, ChannelPointer}
use artifact_registry_servic.Delivery.{EventType}
use artifact_registry_servic.Exec.{Result, ok, err}
use artifact_registry_servic.World.{World, Db}
use artifact_registry_servic.Sqlite.Artifacts.{is_artifact}
use artifact_registry_servic.Webhooks.Event.{EventData}
use artifact_registry_servic.Api.Handlers.{Handler}
use artifact_registry_servic.Server.Integrity.{IsSound, Refers, IsConsistent}
use artifact_registry_servic.Server.Threads.Announced.{announced-by_cases}
use artifact_registry_servic.Server.Threads.{
  Chance, Thread, inserting, cleaning, restoring, pointing, saving, announcing, resetting,
  delivering, then_do, announced, saved, inserted,
}

-- What is found by type, name and version stays.
abbrev pub Extends : List Artifact → List Artifact → Type 0
Extends rows more =
    (type name version : String) (a : Artifact)
    → find (is_artifact type name version) rows ≡ some a
    → find (is_artifact type name version) more ≡ some a

-- What a goroutine relies on.
abbrev pub IsPending : List Artifact → Thread → Type 0
IsPending rows (inserting a) = IsSound a
IsPending rows (pointing event channel type name by t) =
    find (is_artifact type name t.version) rows ≡ some t.artifact
IsPending rows (saving event ch) = Refers rows ch
IsPending rows _ = Unit {0}

pub IsPending-Extends :
    (rows more : List Artifact)
    → Extends rows more
    → (t : Thread) → IsPending rows t
    → IsPending more t
IsPending-Extends rows more keep (inserting a) p = p
IsPending-Extends rows more keep (pointing event channel type name by t) p =
    keep type name t.version t.artifact p
IsPending-Extends rows more keep (saving event ch) (a, found, same) =
    (a, keep ch.type ch.name ch.version a found, same)
IsPending-Extends rows more keep (cleaning a) p = p
IsPending-Extends rows more keep (restoring channel type name by version) p = p
IsPending-Extends rows more keep (announcing e body urls) p = p
IsPending-Extends rows more keep (resetting id rec) p = p
IsPending-Extends rows more keep (delivering task i last delays) p = p

-- The outcome of a step from the tables `db`.
pub record IsKept (db : Db) (out : List Thread × World) : Type 0 where
  pub consistent : IsConsistent out.1.db
  pub extends : Extends db.artifacts out.1.db.artifacts
  pub pending : All (IsPending out.1.db.artifacts) out.0

-- A step that leaves the artifacts.
pub artifacts-IsKept :
    (db : Db) (ts : List Thread) (w : World) (d : Db)
    → w.db ≡ d
    → d.artifacts ≡ db.artifacts
    → IsConsistent d
    → All (IsPending db.artifacts) ts
    → IsKept db (ts, w)
artifacts-IsKept db ts w d e same c p =
    let rows : w.db.artifacts ≡ db.artifacts = ap (λ (x : Db). x.artifacts) e ∙ same in
    record {
      consistent = rw e c;
      extends = λ type name version a found. rw rows found;
      pending = rw rows p;
    }

module _ (h : Handler) (c : Chance) (rows : List Artifact) where
  pub then_do-IsPending :
      {A : Type 0} (f : A → Thread) (r : Result A)
      → ((a : A) → IsPending rows (f a))
      → All (IsPending rows) (then_do f r)
  then_do-IsPending f (ok a) p = (p a, tt)
  then_do-IsPending f (err e) p = tt

  pub announced-IsPending :
      (event_type : EventType) (key : String) (content : EventData)
      → All (IsPending rows) (announced h c event_type key content)
  announced-IsPending event_type key content =
      announced-by_cases h c (All (IsPending rows)) tt
        (λ r. then_do-IsPending (λ (e, body). announcing e body h.wh.urls) r (λ x. tt)) event_type
        key content

  pub saved-IsPending :
      (event : EventType) (r : Result ChannelPointer) → All (IsPending rows) (saved h c event r)
  unfolding saved
  saved-IsPending event (ok ch) = announced-IsPending _ _ _
  saved-IsPending event (err e) = tt

  pub inserted-IsPending :
      (a : Artifact) (r : Result (Unit {0})) → All (IsPending rows) (inserted h c a r)
  unfolding inserted
  inserted-IsPending a (ok u) = announced-IsPending _ _ _
  inserted-IsPending a (err e) = (tt, tt)
