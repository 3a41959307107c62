-- ===== src/Server/Integrity/Artifacts.antt =====
-- A new artifact.
use artifact_registry_servic.Base.{
  ◌≡◌, false, List, [], ◌∷◌, ◌++◌, All-append, All-weaken, All-of_not_any, Pairwise-append_one, any,
}
use artifact_registry_servic.Domain.{Artifact, ChannelPointer}
use artifact_registry_servic.World.{Db}
use artifact_registry_servic.Sqlite.Artifacts.{conflicts}
use artifact_registry_servic.Sqlite.Artifacts.Laws.{with_artifact, find-append_old}
use artifact_registry_servic.Server.Integrity.{IsSound, Refers, IsApart, IsConsistent}

-- A pointer keeps its artifact when rows are added.
pub Refers-append :
    (rows : List Artifact) (a : Artifact) (ch : ChannelPointer)
    → Refers rows ch
    → Refers (rows ++ a ∷ []) ch
Refers-append rows a ch (b, found, same) = (b, find-append_old _ rows (a ∷ []) b found, same)

pub with_artifact-IsConsistent :
    (db : Db) (a : Artifact)
    → IsConsistent db
    → IsSound a
    → any (conflicts a) db.artifacts ≡ false
    → IsConsistent (with_artifact db a)
with_artifact-IsConsistent db a c sound fresh = record {
  sound = All-append IsSound db.artifacts (a ∷ []) c.sound (sound, tt);
  apart =
      Pairwise-append_one IsApart db.artifacts a c.apart
        (All-of_not_any (conflicts a) db.artifacts fresh);
  pointed =
      All-weaken (Refers db.artifacts) (Refers (db.artifacts ++ a ∷ []))
        (Refers-append db.artifacts a) db.channels c.pointed;
  recorded =
      All-weaken (Refers db.artifacts) (Refers (db.artifacts ++ a ∷ []))
        (Refers-append db.artifacts a) db.channel_history c.recorded;
  current = c.current;
  one_pointer = c.one_pointer;
  numbered = c.numbered;
}
