-- ===== src/Api/Handlers/Rollbacks.antt =====
-- What the answer to a rollback says of the state.
use artifact_registry_servic.Base.{ℕ, String, ◌≡◌, refl, ◌⊎◌, inl, inr, Bool-cases, List, []}
use artifact_registry_servic.Domain.{ChannelPointer}
use artifact_registry_servic.Domain.Errors.{Error, is, no_channel_history, not_found}
use artifact_registry_servic.Delivery.{channel_rollback}
use artifact_registry_servic.Exec.{Result, ok, err}
use artifact_registry_servic.Exec.Triple.{Post}
use artifact_registry_servic.World.{World, Db, Bytes}
use artifact_registry_servic.World.Laws.{At}
use artifact_registry_servic.Registry.Service.{rollback}
use artifact_registry_servic.Registry.Service.Rollback.{IsRolledBack, rollback-Triple}
use artifact_registry_servic.Webhooks.Event.{moved}
use artifact_registry_servic.Api.Reply.{Served, channel_body}
use artifact_registry_servic.Api.Handlers.{
  Handler, Fresh, emitting, rollback_reply, handle_rollback,
}

module _ (h : Handler) (fresh : Fresh) (now : ℕ) (channel type name by : String) (db : Db)
    (objects : List (String × Bytes)) where
  -- The answer is an error, no delivery starts, and nothing has changed.
  abbrev pub IsRefusal : Served → Type 0
  IsRefusal s =
      ((s.0.status ≡ 409) ⊎ ((s.0.status ≡ 404) ⊎ (s.0.status ≡ 500)))
      × (s.1 ≡ [])
      × At db objects s.2

  -- The channel points at the version before in the state `w1`, and the answer is 200 with the
  -- pointer, behind one `Emit` of a channel.rollback event for it.
  abbrev pub IsRestored : Served → Type 0
  IsRestored s =
      (ch : ChannelPointer) × (w1 : World) × IsRolledBack h.engine channel type name now by db
        objects ch w1
      × (s
          ≡ emitting h fresh channel_rollback ch.channel
              (moved ch.channel ch.previous_version ch.version)
              (record { status = 200; body = channel_body ch }) w1)

  rollback_reply-IsRefusal :
      (e : Error) (w : World) → At db objects w → IsRefusal (rollback_reply h fresh (err e) w)
  unfolding rollback_reply
  rollback_reply-IsRefusal e w same = elim (Bool-cases (is e no_channel_history)) [
    | inl short ↦ rw short (inl refl, refl, same)
    | inr long ↦ elim (Bool-cases (is e not_found)) [
      | inl missing ↦ rw long (rw missing (inr (inl refl), refl, same))
      | inr there ↦ rw long (rw there (inr (inr refl), refl, same))
    ]
  ]

  rolled :
      (r : Result ChannelPointer) (w : World)
      → Post (IsRolledBack h.engine channel type name now by db objects) (λ _. At db objects) r w
      → IsRefusal (rollback_reply h fresh r w) ⊎ IsRestored (rollback_reply h fresh r w)
  unfolding rollback_reply
  rolled (ok ch) w back = inr (ch, w, back, refl)
  rolled (err e) w same = inl (rollback_reply-IsRefusal e w same)

  -- Whatever calls fail, a request to roll back ends in one of two ways. It is answered with 409,
  -- 404 or 500: then nothing has changed and no delivery starts. Or the version of the second row
  -- of the channel's history is promoted, and the answer is 200 with the pointer, behind one
  -- channel.rollback event, from the previous version that the pointer records to the version now
  -- active.
  pub rollback-answers :
      (w : World)
      → At db objects w
      → let s = handle_rollback h fresh now channel type name by w in IsRefusal s ⊎ IsRestored s
  unfolding handle_rollback
  rollback-answers w same =
      let run = rollback h.engine now channel type name by in
      rolled (run w).0 (run w).1
        ((rollback-Triple h.engine channel type name now by db objects).at w same)
