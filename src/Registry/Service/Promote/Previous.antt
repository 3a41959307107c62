-- ===== src/Registry/Service/Promote/Previous.antt =====
-- `Promote`: the version that it records as the one left behind, whichever calls fail.
use artifact_registry_servic.Base.{
  ℕ, String, ◌≡◌, refl, sym, ap, ◌∙◌, inl, inr, List, Option, none, some,
}
use artifact_registry_servic.Domain.{Artifact, ChannelPointer}
use artifact_registry_servic.Exec.{
  Exec, Result, ok, err, ok≢err, ok_injective, continue, return, Result-cases,
}
use artifact_registry_servic.Exec.Triple.{Post, Triple}
use artifact_registry_servic.World.{World, Db, Bytes}
use artifact_registry_servic.World.Laws.{At, answer, later}
use artifact_registry_servic.Sqlite.Artifacts.{get_artifact}
use artifact_registry_servic.Sqlite.Artifacts.Laws.{get_artifact-later}
use artifact_registry_servic.Sqlite.Channels.{find_channel, get_channel, row_or_missing}
use artifact_registry_servic.Sqlite.Channels.Calls.{get_channel_answered, get_channel_failed}
use artifact_registry_servic.Registry.Version.{normalize_version}
use artifact_registry_servic.Registry.Service.{
  previous, save_pointer, promote, Target, find_target, point,
}
use artifact_registry_servic.Registry.Service.Promote.{IsPromoted, promote-IsPromoted}

abbrev pub held_version : Option ChannelPointer → String
held_version none = ""
held_version (some curr) = curr.version

-- The version of the pointer, if the read of it is answered, and empty if the read fails.
abbrev pub version_read : Result (Unit {0}) → Option ChannelPointer → String
version_read (ok u) current = held_version current
version_read (err failure) current = ""

-- The version that a promotion leaves behind: its first call is `GetArtifact`, its second
-- `GetChannel`.
abbrev pub left_behind : List (Option String) → Option ChannelPointer → String
left_behind faults current = version_read (answer (later faults)) current

continue_ok :
    {S A B : Type 0} (r : Result A) (f : A → Exec S B) (s : S) (b : B)
    → (continue r f s).0 ≡ ok b
    → (a : A) × (r ≡ ok a) × ((f a s).0 ≡ ok b)
continue_ok (ok a) f s b h = (a, refl, h)
continue_ok (err e) f s b h = absurd (ok≢err (sym h))

previous-row_or_missing : (o : Option ChannelPointer) → previous (row_or_missing o) ≡ held_version o
previous-row_or_missing none = refl
previous-row_or_missing (some curr) = refl

save_pointer-ok : (p ch : ChannelPointer) (w : World) → (save_pointer p w).0 ≡ ok ch → p ≡ ch
unfolding save_pointer
save_pointer-ok p ch w h = ok_injective ((continue_ok _ (λ _. return p) _ ch h).2)

find_target-later :
    (type name version : String) (t : Target) (w : World)
    → (find_target type name version w).0 ≡ ok t
    → (find_target type name version w).1 ≡ record w { faults = later w.faults }
unfolding find_target
find_target-later type name version t w h =
    let (v, e, rest) = continue_ok (normalize_version version) _ w t h in
    elim (Result-cases (get_artifact type name v w).0) [
      | inl (a, f) ↦ rw e (rw f (get_artifact-later type name v w))
      | inr (x, f) ↦ rw e (rw f (get_artifact-later type name v w))
    ]

module _ (now : ℕ) (channel type name version by : String) where
  get_channel-version_read :
      (w : World)
      → previous (get_channel channel type name w).0
        ≡ version_read (answer w.faults) (find_channel w.db channel type name)
  get_channel-version_read w = elim (Result-cases (answer w.faults)) [
    | inl (u, e) ↦
        rw (get_channel_answered channel type name w e)
          (rw e (previous-row_or_missing (find_channel w.db channel type name)))
    | inr (x, e) ↦ let (y, f) = get_channel_failed channel type name w x e in rw f (rw e refl)
  ]

  promote-left_behind :
      (ch : ChannelPointer) (w : World)
      → (promote now channel type name version by w).0 ≡ ok ch
      → ch.previous_version ≡ left_behind w.faults (find_channel w.db channel type name)
  unfolding promote point
  promote-left_behind ch w h =
      let (t, found, pointed) =
        continue_ok (find_target type name version w).0 _ (find_target type name version w).1 ch
          h in
      let saved = save_pointer-ok _ ch _ pointed in
      ap (λ (c : ChannelPointer). c.previous_version) (sym saved)
      ∙ get_channel-version_read (find_target type name version w).1
      ∙ ap (λ (v : World). version_read (answer v.faults) (find_channel v.db channel type name))
          (find_target-later type name version t w found)

  -- Whatever calls fail, `Promote` ends in one of two ways. It returns a pointer: then an artifact
  -- of the normalized version exists, the pointer carries its identifier, saving the pointer is the
  -- only change, and the previous version that it records is that of the channel's pointer before,
  -- empty if there was none, and empty also if the read of that pointer (the second call, behind the
  -- read of the artifact) fails. Or it fails and changes nothing.
  pub promote-Triple :
      (db : Db) (objects : List (String × Bytes)) (faults : List (Option String))
      → Triple
          (λ w. At db objects w × (w.faults ≡ faults))
          (promote now channel type name version by)
          (λ ch w.
            ((a : Artifact) × IsPromoted now channel type name version by db objects ch a w)
            × (ch.previous_version ≡ left_behind faults (find_channel db channel type name)))
          (λ _. At db objects)
  promote-Triple db objects faults = record {
    at = λ w h.
        recorded (promote now channel type name version by w).0
          (promote now channel type name version by w).1
          ((promote-IsPromoted now channel type name version by db objects).at w h.0)
          (λ ch e. rw⁻¹ (h.0).tables (rw⁻¹ h.1 (promote-left_behind ch w e)));
  }
    where
      recorded :
          (r : Result ChannelPointer) (w : World)
          → Post
              (λ ch w.
                (a : Artifact) × IsPromoted now channel type name version by db objects ch a w)
              (λ _. At db objects)
              r
              w
          → ((ch : ChannelPointer)
              → r ≡ ok ch
              → ch.previous_version ≡ left_behind faults (find_channel db channel type name))
          → Post
              (λ ch w.
                ((a : Artifact) × IsPromoted now channel type name version by db objects ch a w)
                × (ch.previous_version ≡ left_behind faults (find_channel db channel type name)))
              (λ _. At db objects)
              r
              w
      recorded (ok ch) w promoted behind = (promoted, behind ch refl)
      recorded (err e) w same behind = same
