-- ===== src/Registry/Service/Promote.antt =====
-- `Promote`: what it points a channel at, and what a failure leaves.
pub mod Previous
use artifact_registry_servic.Base.{ℕ, String, ◌≡◌, refl, sym, ap, ◌∙◌, ◌⊎◌, inl, inr, List, some}
use artifact_registry_servic.Domain.{Artifact, ChannelPointer}
use artifact_registry_servic.Domain.Errors.{wrapped}
use artifact_registry_servic.Exec.{Result, ok, err, attempt, return}
use artifact_registry_servic.Exec.Triple.{
  Post, Triple, Triple-bind, Triple-on_error, Triple-weaken, Triple-attempt, Triple-return,
  Triple-lift, Triple-fact,
}
use artifact_registry_servic.World.{World, Db, Bytes}
use artifact_registry_servic.World.Laws.{At, IsCalm}
use artifact_registry_servic.Sqlite.Artifacts.{find_artifact}
use artifact_registry_servic.Sqlite.Artifacts.Laws.{get_artifact-Triple, get_artifact-find}
use artifact_registry_servic.Sqlite.Channels.{find_channel, get_channel, row_or_missing}
use artifact_registry_servic.Sqlite.Channels.Laws.{with_channel, save_channel-Triple}
use artifact_registry_servic.Sqlite.Channels.Calls.{
  get_channel-Triple, get_channel_calm, save_channel_calm,
}
use artifact_registry_servic.Registry.Version.{normalize_version}
use artifact_registry_servic.Registry.Service.{
  previous, pointer_of, save_pointer, promote, Target, find_target, point,
}

module _ (type name version : String) (db : Db) (objects : List (String × Bytes)) where
  -- What `find_target` returns is the artifact of the normalized version.
  abbrev pub IsTarget : Target → Type 0
  IsTarget t =
      (normalize_version version ≡ ok t.version)
      × (find_artifact db type name t.version ≡ some t.artifact)

  pub find_target-Triple :
      Triple
        (At db objects)
        (find_target type name version)
        (λ t w. At db objects w × IsTarget t)
        (λ _. At db objects)
  unfolding find_target
  find_target-Triple =
      Triple-bind _ _
        (Triple-weaken _ (Triple-lift (normalize_version version)) (λ _ w h. h) (λ _ w h. h.0))
        λ v. Triple-fact {F = normalize_version version ≡ ok v} _ λ normal.
          Triple-bind _ _ (Triple-on_error _ _ (get_artifact-Triple type name v db objects)) λ a.
            Triple-fact {F = find_artifact db type name v ≡ some a} _
              λ exists. Triple-return _ (λ w h. (h, (normal, exists)))

module _ (db : Db) (objects : List (String × Bytes)) where
  pub save_pointer-Triple :
      (ch : ChannelPointer)
      → Triple
          (At db objects)
          (save_pointer ch)
          (λ saved w. (saved ≡ ch) × At (with_channel db ch) objects w)
          (λ _. At db objects)
  unfolding save_pointer
  save_pointer-Triple ch =
      Triple-bind _ (λ _. return ch)
        (Triple-on_error (λ e. wrapped "save channel: " e "") _ (save_channel-Triple ch db objects))
        (λ _. Triple-return ch (λ w h. (refl, h)))

module _ (now : ℕ) (channel type name version by : String) (db : Db)
    (objects : List (String × Bytes)) where
  -- The version that the channel pointed to before, or empty (see Previous for which of the two).
  abbrev pub IsPrevious : String → Type 0
  IsPrevious v =
      (v ≡ "")
      ⊎ ((curr : ChannelPointer) × (find_channel db channel type name ≡ some curr)
          × (v ≡ curr.version))

  -- The pointer `ch` at the artifact `a`.
  pub record IsPromoted (ch : ChannelPointer) (a : Artifact) (w : World) : Type 0 where
    pub normal : normalize_version version ≡ ok ch.version
    pub exists : find_artifact db type name ch.version ≡ some a
    pub pointer :
        (current : Result ChannelPointer) × (ch
          ≡ pointer_of now channel type name ch.version by a current)
        × IsPrevious (previous current)
    pub state : At (with_channel db ch) objects w

  read_previous :
      Triple
        (At db objects)
        (attempt (get_channel channel type name))
        (λ current w. At db objects w × IsPrevious (previous current))
        (λ _. At db objects)
  read_previous =
      Triple-weaken _
        (Triple-attempt (get_channel channel type name) (λ _. At db objects)
          (get_channel-Triple channel type name db objects))
        seen (λ _ w h. h)
    where
      seen :
          (r : Result ChannelPointer) (w : World)
          → Post
              (λ ch w. At db objects w × (find_channel db channel type name ≡ some ch))
              (λ _. At db objects)
              r
              w
          → At db objects w × IsPrevious (previous r)
      seen (ok curr) w h = (h.0, inr (curr, h.1, refl))
      seen (err e) w h = (h, inl refl)

  -- The pointer at `t`, with what the channel pointed to before.
  abbrev pub IsPointer : Target → ChannelPointer → Type 0
  IsPointer t ch =
      (current : Result ChannelPointer) × (ch
        ≡ pointer_of now channel type name t.version by t.artifact current)
      × IsPrevious (previous current)

  pub point-Triple :
      (t : Target)
      → Triple
          (At db objects)
          (point now channel type name by t)
          (λ ch w. At db objects w × IsPointer t ch)
          (λ _. At db objects)
  unfolding point
  point-Triple t =
      Triple-bind (attempt (get_channel channel type name))
        (λ current. return (pointer_of now channel type name t.version by t.artifact current))
        read_previous
        λ current.
          Triple-fact {F = IsPrevious (previous current)} _
            λ prev. Triple-return _ (λ w h. (h, (current, refl, prev)))

  -- What `Promote` leaves in either case, as far as no call is told from another.
  pub promote-IsPromoted :
      Triple
        (At db objects)
        (promote now channel type name version by)
        (λ ch w. (a : Artifact) × IsPromoted ch a w)
        (λ _. At db objects)
  unfolding promote
  promote-IsPromoted = Triple-bind _ _ (find_target-Triple type name version db objects) λ t.
      Triple-fact {F = IsTarget type name version db objects t} _ λ target.
        Triple-bind _ _ (point-Triple t) λ ch. Triple-fact {F = IsPointer t ch} _ λ pointer.
          Triple-weaken _ (save_pointer-Triple db objects ch) (promoted t ch target pointer)
            (λ _ w h. h)
    where
      promoted :
          (t : Target) (ch : ChannelPointer)
          → IsTarget type name version db objects t
          → IsPointer t ch
          → (saved : ChannelPointer) (w : World) → (saved ≡ ch) × At (with_channel db ch) objects w
          → (a : Artifact) × IsPromoted saved a w
      promoted t ch target pointer saved w (same, state) =
          let version_of : ch.version ≡ t.version =
            ap (λ (c : ChannelPointer). c.version) pointer.1 in
          rw same (
            t.artifact,
            record {
              normal = rw version_of target.0;
              exists = rw version_of target.1;
              pointer = (
                pointer.0,
                pointer.1
                    ∙ ap (λ v. pointer_of now channel type name v by t.artifact pointer.0)
                        (sym version_of),
                pointer.2,
              );
              state = state;
            },
          )

-- Where the database answers and the artifact exists, `Promote` succeeds, and the previous version
-- is that of the pointer before, or empty if there was none.
pub promote_calm :
    (now : ℕ) (channel type name version by v : String) (a : Artifact) (w : World)
    → IsCalm w
    → normalize_version version ≡ ok v
    → find_artifact w.db type name v ≡ some a
    → let ch =
        pointer_of now channel type name v by a
          (row_or_missing (find_channel w.db channel type name)) in
      promote now channel type name version by w ≡ (ok ch, record w { db = with_channel w.db ch })
unfolding promote
promote_calm now channel type name version by v a w calm normal exists = rw normal (
    rw (get_artifact-find w type name v calm) (
      rw exists
        (rw (get_channel_calm w calm channel type name) (rw (save_channel_calm w calm _) refl))))
