-- ===== src/Tests/Channels.antt =====
-- Examples for the tables and for rollback.
use artifact_registry_servic.Base.{◌≡◌, refl, List, [], ◌∷◌, text_ltb, some, none, Option, String}
use artifact_registry_servic.Domain.{Artifact, ChannelPointer}
use artifact_registry_servic.Delivery.{dead_letter}
use artifact_registry_servic.Exec.Triple.{Triple}
use artifact_registry_servic.World.{World}
use artifact_registry_servic.World.Laws.{At}
use artifact_registry_servic.Sqlite.Rows.{sort_rows}
use artifact_registry_servic.Sqlite.Artifacts.{find_artifact}
use artifact_registry_servic.Sqlite.Channels.{find_channel, history_rows}
use artifact_registry_servic.Registry.Version.{normalize_version}
use artifact_registry_servic.Registry.Service.{rollback, promote}
use artifact_registry_servic.Registry.Service.Promote.{IsPromoted}
use artifact_registry_servic.Registry.Service.Promote.Previous.{left_behind, promote-Triple}
use artifact_registry_servic.Registry.Service.Rollback.{rollback_twice, rollback_misordered}
use artifact_registry_servic.Time.{rfc3339_nano}
use artifact_registry_servic.Tests.{sqlite, artifact, pointer, db_with, calm_world, stable_db}

-- Two promotions a tenth of a second apart: the stored time of the first ends in `00Z`, that of the
-- second in `00.1Z`.
abbrev tenth : List ChannelPointer
tenth = pointer 0 "v1.0.0" "" ∷ pointer 100000000 "v2.0.0" "v1.0.0" ∷ []

abbrev tenth_world : World
tenth_world = calm_world (db_with (pointer 100000000 "v2.0.0" "v1.0.0" ∷ []) tenth dead_letter)

abbrev new_artifact : Artifact
new_artifact = artifact "a3" "v3.0.0"

abbrev next : ChannelPointer
next = pointer 30 "v1.0.0" "v2.0.0"

-- The read of the artifact is answered, and the read of the pointer fails.
abbrev failed_read : List (Option String)
failed_read = none ∷ some "disk I/O error" ∷ []

promote-Triple_example :
    Triple
      (λ w. At stable_db [] w × (w.faults ≡ failed_read))
      (promote 30 "stable" "jar" "app" "1.0.0" "ci")
      (λ ch w.
        ((a : Artifact) × IsPromoted 30 "stable" "jar" "app" "1.0.0" "ci" stable_db [] ch a w)
        × (ch.previous_version
            ≡ left_behind failed_read (find_channel stable_db "stable" "jar" "app")))
      (λ _. At stable_db [])
promote-Triple_example =
    promote-Triple 30 "stable" "jar" "app" "1.0.0" "ci" stable_db [] failed_read

rollback_twice_example :
    let w1 = (rollback sqlite 30 "stable" "jar" "app" "ci" (calm_world stable_db)).1 in
    let w2 = (rollback sqlite 40 "stable" "jar" "app" "ci" w1).1 in
    (ch1 : ChannelPointer) × (find_channel w1.db "stable" "jar" "app" ≡ some ch1)
    × (ch1.version ≡ "v1.0.0")
    × (ch1.previous_version ≡ "v2.0.0")
    × (ch2 : ChannelPointer) × (find_channel w2.db "stable" "jar" "app" ≡ some ch2)
    × (ch2.version ≡ "v2.0.0")
    × (ch2.previous_version ≡ "v1.0.0")
unfolding find_channel history_rows sort_rows normalize_version find_artifact text_ltb rfc3339_nano
rollback_twice_example =
    rollback_twice sqlite "stable" "jar" "app" 30 40 "ci" (pointer 20 "v2.0.0" "v1.0.0")
      (pointer 10 "v1.0.0" "") [] (artifact "a1" "v1.0.0") (artifact "a2" "v2.0.0")
      (calm_world stable_db) refl refl refl refl refl refl refl (refl, (refl, tt))

rollback_misordered_example :
    let w' = (rollback sqlite 30 "stable" "jar" "app" "ci" tenth_world).1 in
    (ch : ChannelPointer) × (find_channel w'.db "stable" "jar" "app" ≡ some ch)
    × (ch.version ≡ "v2.0.0")
    × (ch.previous_version ≡ "v2.0.0")
unfolding find_channel normalize_version find_artifact text_ltb rfc3339_nano
rollback_misordered_example =
    rollback_misordered sqlite "stable" "jar" "app" 30 "ci" (pointer 0 "v1.0.0" "")
      (pointer 100000000 "v2.0.0" "v1.0.0") (artifact "a2" "v2.0.0") tenth_world refl refl refl refl
      refl refl
