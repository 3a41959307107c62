-- ===== src/Webhooks/Emit/Tasks.antt =====
-- The deliveries that `Emit` starts.
use artifact_registry_servic.Base.{ℕ, ◌+◌, String, ◌≡◌, refl, ap, List, [], ◌∷◌, map, All, Option}
use artifact_registry_servic.Delivery.{EventType}
use artifact_registry_servic.Exec.{ok}
use artifact_registry_servic.World.{World, Bytes}
use artifact_registry_servic.Platform.{Platform}
use artifact_registry_servic.Webhooks.Event.{EventData, Event, Codec, compute_signature}
use artifact_registry_servic.Webhooks.Dispatcher.{DeliveryStore, Dispatcher, Task}
use artifact_registry_servic.Webhooks.Emit.{
  sign_event, unsigned_event, emit_urls, emit_signed, envelope, emit, persist_new, record_of,
}

abbrev pub url_of : Task → String
url_of task = task.url

-- The task carries this event, this body and this signature.
abbrev pub Carries : Event → String → Task → Type 0
Carries e body task =
    (task.event_id ≡ e.event_id)
    × (task.event_type ≡ e.event_type)
    × (task.body ≡ body)
    × (task.sig ≡ e.signature)

module _ (store : Option DeliveryStore) (ids : ℕ → String) (now : ℕ → ℕ) (e : Event)
    (body : String) where
  -- One task for each URL, in their order, whether or not the records can be persisted.
  pub emit_urls-tasks :
      (i : ℕ) (urls : List String) (w : World)
      → let tasks = (emit_urls store ids now e body i urls w).0 in
        (map url_of tasks ≡ urls) × All (Carries e body) tasks
  unfolding emit_urls
  emit_urls-tasks i [] w = (refl, tt)
  emit_urls-tasks i (url ∷ urls) w =
      let task : Task = record {
        delivery_id = ids i;
        event_id = e.event_id;
        event_type = e.event_type;
        url = url;
        body = body;
        sig = e.signature;
      } in
      let rest =
        emit_urls-tasks (i + 1) urls
          (persist_new store (now i) (record_of (now i) task e.aggregate_key) w) in
      (ap (λ l. url ∷ l) rest.0, ((refl, refl, refl, refl), rest.1))

module _ (go : Platform) (codec : Codec) (secret : Bytes) (e : Event) (unsigned body : String) where
  -- The envelope with its signature.
  abbrev pub signed : Event
  signed = record e { signature = compute_signature go secret unsigned }

  pub sign_event-ok :
      codec.marshal_event e ≡ ok unsigned
      → codec.marshal_event signed ≡ ok body
      → sign_event go codec secret e ≡ ok (signed, body)
  unfolding sign_event
  sign_event-ok first second = rw (first, sign_event) (rw second refl)

module _ (go : Platform) (codec : Codec) (d : Dispatcher) (event_type : EventType)
    (aggregate_key : String) (content : EventData) (event_id timestamp : String) (ids : ℕ → String)
    (now : ℕ → ℕ) (w : World) where
  -- With data that marshal to `raw`, an envelope without a signature that marshals to `unsigned` and
  -- a signed envelope that marshals to `body`, `Emit` starts one delivery for each URL of the
  -- configuration, in that order, and every one carries the event's id and type, `body`, and the
  -- signature of `unsigned` under the secret. Neither the store nor its errors change that.
  pub emit-tasks :
      (raw unsigned body : String)
      → let e = unsigned_event event_type event_id timestamp aggregate_key raw in
        codec.marshal_data content ≡ ok raw
        → codec.marshal_event e ≡ ok unsigned
        → codec.marshal_event (signed go codec d.secret e unsigned body) ≡ ok body
        → let tasks =
            (emit go codec d event_type aggregate_key content event_id timestamp ids now w).0 in
          (map url_of tasks ≡ d.urls)
          × All (Carries (signed go codec d.secret e unsigned body) body) tasks
  unfolding emit envelope emit_signed emit_urls
  emit-tasks raw unsigned body data_ok first second =
      let e = unsigned_event event_type event_id timestamp aggregate_key raw in
      let carried = signed go codec d.secret e unsigned body in
      elim d.urls
          as (λ urls.
            d.urls ≡ urls
            → let tasks =
                (emit go codec d event_type aggregate_key content event_id timestamp ids now w).0 in
              (map url_of tasks ≡ d.urls) × All (Carries carried body) tasks) [
                | [] ↦ λ same. rw same (refl, tt)
                | url ∷ rest ↦ λ same. rw same (
                    rw data_ok (
                      rw (sign_event-ok go codec d.secret e unsigned body first second)
                        (emit_urls-tasks d.store ids now carried body 0 (url ∷ rest) w)))
              ]
        refl
