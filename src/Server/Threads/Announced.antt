-- ===== src/Server/Threads/Announced.antt =====
-- What an `Emit` leaves to do.
use artifact_registry_servic.Base.{String, List, [], ◌∷◌}
use artifact_registry_servic.Delivery.{EventType}
use artifact_registry_servic.Exec.{Result}
use artifact_registry_servic.Webhooks.Event.{Event, EventData}
use artifact_registry_servic.Webhooks.Emit.{envelope}
use artifact_registry_servic.Api.Handlers.{Handler}
use artifact_registry_servic.Server.Threads.{Chance, Thread, announcing, then_do, announced}

-- What holds of nothing to do, and of the URLs for every outcome of signing, holds of it.
pub announced-by_cases :
    (h : Handler) (c : Chance) (P : List Thread → Type 0)
    → P []
    → ((r : Result (Event × String)) → P (then_do (λ (e, body). announcing e body h.wh.urls) r))
    → (event_type : EventType) (key : String) (content : EventData)
    → P (announced h c event_type key content)
unfolding announced
announced-by_cases h c P none_left signed event_type key content =
    elim h.wh.urls
      as (λ urls. P (elim urls [
        | [] ↦ []
        | url ∷ rest ↦
            then_do (λ (e, body). announcing e body h.wh.urls)
              (envelope h.go h.codec h.wh.secret event_type key c.id c.timestamp
                (h.codec.marshal_data content))
      ])) [ [] ↦ none_left | url ∷ rest ↦ signed _ ]
