-- ===== src/World/Laws.antt =====
-- Calls that leave the process, and what they leave.
use artifact_registry_servic.Base.{List, [], ◌∷◌, Option, none, some, ◌≡◌, refl, String}
use artifact_registry_servic.World.{World, Db, Bytes, fault, external}
use artifact_registry_servic.Exec.Triple.{Post, Triple}
use artifact_registry_servic.Domain.Errors.{other}
use artifact_registry_servic.Exec.{Result, ok, err}

fault-db : (l : List (Option String)) (w : World) → (fault l w).1.db ≡ w.db
fault-db [] w = refl
fault-db (none ∷ l) w = refl
fault-db (some t ∷ l) w = refl

fault-objects : (l : List (Option String)) (w : World) → (fault l w).1.objects ≡ w.objects
fault-objects [] w = refl
fault-objects (none ∷ l) w = refl
fault-objects (some t ∷ l) w = refl

pub external-db : (w : World) → (external w).1.db ≡ w.db
unfolding external
external-db w = fault-db w.faults w

pub external-objects : (w : World) → (external w).1.objects ≡ w.objects
unfolding external
external-objects w = fault-objects w.faults w

-- How the next call ends, and the outcomes behind it.
abbrev pub answer : List (Option String) → Result (Unit {0})
answer [] = ok tt
answer (none ∷ rest) = ok tt
answer (some text ∷ rest) = err (other text)

abbrev pub later : List (Option String) → List (Option String)
later [] = []
later (f ∷ rest) = rest

fault_lem :
    (l : List (Option String)) (w : World)
    → w.faults ≡ l
    → fault l w ≡ (answer l, record w { faults = later l })
fault_lem [] w e = rw⁻¹ e refl
fault_lem (none ∷ rest) w e = refl
fault_lem (some text ∷ rest) w e = refl

pub external_lem :
    (w : World) → external w ≡ (answer w.faults, record w { faults = later w.faults })
unfolding external
external_lem w = fault_lem w.faults w refl

-- No coming call fails.
abbrev pub IsCalm : World → Type 0
IsCalm w = w.faults ≡ []

pub external-calm : (w : World) → IsCalm w → external w ≡ (ok tt, w)
unfolding external
external-calm w h = rw h

-- The tables and the objects are these.
pub record At (db : Db) (objects : List (String × Bytes)) (w : World) : Type 0 where
  pub tables : w.db ≡ db
  pub stored : w.objects ≡ objects

-- A predicate that says nothing of the coming faults.
abbrev pub IsStable : (World → Type 0) → Type 0
IsStable P = (w : World) (l : List (Option String)) → P w → P (record w { faults = l })

external-Post :
    (P : World → Type 0)
    → IsStable P
    → (l : List (Option String)) (w : World) → P w
    → Post (λ _. P) (λ _. P) (fault l w).0 (fault l w).1
external-Post P stable [] w h = h
external-Post P stable (none ∷ l) w h = stable w l h
external-Post P stable (some t ∷ l) w h = stable w l h

pub Triple-external_stable : (P : World → Type 0) → IsStable P → Triple P external (λ _. P) (λ _. P)
unfolding external
Triple-external_stable P stable = record { at = λ w h. external-Post P stable w.faults w h }

module _ {db : Db} {objects : List (String × Bytes)} where
  pub Triple-external : Triple (At db objects) external (λ _. At db objects) (λ _. At db objects)
  Triple-external =
      Triple-external_stable (At db objects)
        (λ w l h. record { tables = h.tables; stored = h.stored })
