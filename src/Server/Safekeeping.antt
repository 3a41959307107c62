-- ===== src/Server/Safekeeping.antt =====
-- The files of the artifacts while uploads run: every row has its file, with the size and the hash
-- that it records, and no goroutine has a file in hand that a row or another goroutine uses.
pub mod Files
pub mod Steps
pub mod Runs
use artifact_registry_servic.Base.{
  String, ◌≡◌, List, All, Pairwise, Option, none, some, length, lookup, hex_text,
}
use artifact_registry_servic.Domain.{Artifact}
use artifact_registry_servic.World.{World, Bytes}
use artifact_registry_servic.Platform.{Platform}
use artifact_registry_servic.Server.Threads.{Thread, inserting}
use artifact_registry_servic.Server.Threads.Quiet.{Apart, in_hand}

module _ (name : String → String) where
  abbrev pub file_name : Option Artifact → Option String
  file_name none = none
  file_name (some a) = some (name a.storage_key)

  -- The name of the file that the goroutine has in hand.
  abbrev pub file : Thread → Option String
  file t = file_name (in_hand t)

  -- No row has that file.
  abbrev pub IsOutside : List Artifact → Option String → Type 0
  IsOutside rows k = All (λ a. Apart (some (name a.storage_key)) k) rows

module _ (go : Platform) (name : String → String) where
  -- The stored file of the artifact has the size and the hash that the artifact records.
  abbrev pub Holds : List (String × Bytes) → Artifact → Type 0
  Holds objects a =
      (content : Bytes) × (lookup (name a.storage_key) objects ≡ some content)
      × (a.size_bytes ≡ length content)
      × (a.sha256 ≡ hex_text (go.sha256 content))

  abbrev pub Held : List (String × Bytes) → Thread → Type 0
  Held objects (inserting a) = Holds objects a
  Held objects _ = Unit {0}

  pub record IsSafe (w : World) (ts : List Thread) : Type 0 where
    pub files : All (Holds w.objects) w.db.artifacts
    pub held : All (Held w.objects) ts
    pub outside : All (λ t. IsOutside name w.db.artifacts (file name t)) ts
    pub alone : Pairwise (λ t u. Apart (file name t) (file name u)) ts
