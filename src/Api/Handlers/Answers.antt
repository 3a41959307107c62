-- ===== src/Api/Handlers/Answers.antt =====
-- What the answer to a promotion says of the state.
use artifact_registry_servic.Base.{
  Option, ap, ℕ, String, ◌≡◌, refl, ◌⊎◌, inl, inr, Bool-cases, List, [],
}
use artifact_registry_servic.Domain.{Artifact, ChannelPointer}
use artifact_registry_servic.Domain.Errors.{Error, is, not_found, invalid_version}
use artifact_registry_servic.Exec.{Result, ok, err}
use artifact_registry_servic.Exec.Triple.{Post}
use artifact_registry_servic.World.{World, Db, Bytes}
use artifact_registry_servic.World.Laws.{At}
use artifact_registry_servic.Sqlite.Channels.{find_channel}
use artifact_registry_servic.Registry.Service.{promote}
use artifact_registry_servic.Registry.Service.Promote.{IsPromoted}
use artifact_registry_servic.Registry.Service.Promote.Previous.{left_behind, promote-Triple}
use artifact_registry_servic.Api.Reply.{channel_body, Served}
use artifact_registry_servic.Api.Handlers.{Handler, Fresh, emitting, promote_reply, handle_promote}
use artifact_registry_servic.Delivery.{channel_promoted}
use artifact_registry_servic.Webhooks.Event.{moved}

module _ (h : Handler) (fresh : Fresh) (now : ℕ) (channel type name version by : String) where
  -- The answer is an error, nothing has been sent, and the tables and the objects are these.
  abbrev pub IsFailed : Db → List (String × Bytes) → Served → Type 0
  IsFailed db objects s =
      ((s.0.status ≡ 404) ⊎ ((s.0.status ≡ 400) ⊎ (s.0.status ≡ 500)))
      × (s.1 ≡ [])
      × At db objects s.2

  promote_reply-IsFailed :
      (e : Error) (db : Db) (objects : List (String × Bytes)) (w : World)
      → At db objects w
      → IsFailed db objects (promote_reply h fresh (err e) w)
  unfolding promote_reply
  promote_reply-IsFailed e db objects w same = elim (Bool-cases (is e not_found)) [
    | inl missing ↦ rw missing (inl refl, refl, same)
    | inr there ↦ elim (Bool-cases (is e invalid_version)) [
      | inl bad ↦ rw there (rw bad (inr (inl refl), refl, same))
      | inr good ↦ rw there (rw good (inr (inr refl), refl, same))
    ]
  ]

  -- The promotion of `a` has been saved in the state `w1`, the pointer records the version left
  -- behind, and the answer is 200 with the pointer, behind one `Emit` of a channel.promoted event
  -- from that version.
  abbrev pub IsAnnounced : Db → List (String × Bytes) → List (Option String) → Served → Type 0
  IsAnnounced db objects faults s =
      let behind = left_behind faults (find_channel db channel type name) in
      (ch : ChannelPointer) × (a : Artifact) × (w1 : World) × IsPromoted now channel type name
        version by db objects ch a w1
      × (ch.previous_version ≡ behind)
      × (s
          ≡ emitting h fresh channel_promoted channel (moved channel behind ch.version)
              (record { status = 200; body = channel_body ch }) w1)

  answered :
      (db : Db) (objects : List (String × Bytes)) (faults : List (Option String))
      (r : Result ChannelPointer) (w : World)
      → Post
          (λ ch w.
            ((a : Artifact) × IsPromoted now channel type name version by db objects ch a w)
            × (ch.previous_version ≡ left_behind faults (find_channel db channel type name)))
          (λ _. At db objects)
          r
          w
      → IsFailed db objects (promote_reply h fresh r w)
        ⊎ IsAnnounced db objects faults (promote_reply h fresh r w)
  unfolding promote_reply
  answered db objects faults (ok ch) w ((a, promoted), behind) =
      let named : ch.channel ≡ channel =
        ap (λ (c : ChannelPointer). c.channel) promoted.pointer.1 in
      inr (
        ch,
        a,
        w,
        promoted,
        behind,
        λ i.
            emitting h fresh channel_promoted (named i) (moved (named i) (behind i) ch.version)
              (record { status = 200; body = channel_body ch }) w,
      )
  answered db objects faults (err e) w same = inl (promote_reply-IsFailed e db objects w same)

  -- Whatever calls fail, a request to promote ends in one of two ways. It is answered with 404, 400
  -- or 500: then nothing has changed and no delivery starts. Or the promotion is saved, as
  -- `promote-Triple` describes it, and is answered with 200 and the pointer, behind one
  -- channel.promoted event to the version now active, from the version of the channel's pointer
  -- before; from the empty text if there was none, and also if the read of that pointer fails.
  pub promote-answers :
      (db : Db) (objects : List (String × Bytes)) (w : World)
      → At db objects w
      → let s = handle_promote h fresh now channel type name version by w in
        IsFailed db objects s ⊎ IsAnnounced db objects w.faults s
  unfolding handle_promote
  promote-answers db objects w same =
      answered db objects w.faults (promote now channel type name version by w).0
        (promote now channel type name version by w).1
        ((promote-Triple now channel type name version by db objects w.faults).at w (same, refl))
