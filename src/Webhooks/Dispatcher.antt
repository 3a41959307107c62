-- ===== src/Webhooks/Dispatcher.antt =====
-- internal/webhooks/dispatcher.go and retry.go: the dispatcher and `deliver`. The readings of the
-- clock and the answers of the receivers are arguments.
pub mod Delivering
use artifact_registry_servic.Base.{
  ℕ, ◌+◌, String, ◌<>◌, ◌==◌, ◌&&◌, leb, ltb, List, [], ◌∷◌, Option, none, some, length, utf8_bytes,
  decimal_text, if◌then◌else◌,
}
use artifact_registry_servic.Domain.Errors.{other}
use artifact_registry_servic.Delivery.{
  EventType, Status, delivered, failed, dead_letter, DeliveryRecord,
}
use artifact_registry_servic.Exec.{◌>>=◌, ◌>>◌, Exec, ok, fail}
use artifact_registry_servic.World.{World, Bytes, Engine}
use artifact_registry_servic.Sqlite.Deliveries

-- `DeliveryStore`; the readings of the clock that its methods make come first.
pub record DeliveryStore : Type 0 where
  pub create_delivery : ℕ → DeliveryRecord → Exec World ℕ
  pub update_delivery : ℕ → String → Status → ℕ → String → Exec World (Unit {0})
  pub get_delivery : String → Exec World DeliveryRecord
  pub list_dead_letters : Exec World (List DeliveryRecord)

-- The repository as a `DeliveryStore`.
abbrev pub sqlite_store : Engine → DeliveryStore
sqlite_store engine = record {
  create_delivery = Deliveries.create_delivery engine;
  update_delivery = Deliveries.update_delivery;
  get_delivery = Deliveries.get_delivery;
  list_dead_letters = Deliveries.list_dead_letters engine;
}

-- `store` is `none` for a nil interface; `backoff` has the delays in milliseconds.
pub record Dispatcher : Type 0 where
  pub urls : List String
  pub secret : Bytes
  pub store : Option DeliveryStore
  pub backoff : List ℕ

abbrev pub default_backoff : List ℕ
default_backoff = 0 ∷ 1000 ∷ 5000 ∷ 30000 ∷ 120000 ∷ []

unfoldable pub new_dispatcher : List String → String → Option DeliveryStore → Dispatcher
unfolding utf8_bytes
new_dispatcher urls secret store = record {
  urls = urls;
  secret = utf8_bytes secret;
  store = store;
  backoff = default_backoff;
}

-- The arguments of one `deliver`.
pub record Task : Type 0 where
  pub delivery_id : String
  pub event_id : String
  pub event_type : EventType
  pub url : String
  pub body : String
  pub sig : String

-- What a receiver does with a POST: no response, or a response with a status code.
pub data Answer : Type 0 where
  unreachable : String → Answer
  responded : ℕ → Answer

-- `post`: the error text, or nothing.
unfoldable pub post : Answer → Option String
post (unreachable text) = some text
post (responded code) =
    if leb 200 code && ltb code 300 then none else some ("non-2xx status: " <> decimal_text 20 code)

-- `persistStatus`: an error of the store is logged and dropped.
unfoldable pub persist_status :
    Option DeliveryStore → ℕ → String → Status → ℕ → String → Exec World (Unit {0})
persist_status none now id status attempts last_err w = (ok tt, w)
persist_status (some store) now id status attempts last_err w =
    if id == ""
    then (ok tt, w)
    else (ok tt, (store.update_delivery now id status attempts last_err w).1)

-- Behind the loop of `deliver`; without an attempt `lastErr.Error()` is a nil dereference.
unfoldable pub give_up :
    Option DeliveryStore → ℕ → String → ℕ → Option String → Exec World (Unit {0})
unfolding persist_status
give_up store now id attempts none = fail (other "panic: nil pointer dereference")
give_up store now id attempts (some last_err) =
    persist_status store now id dead_letter attempts last_err

-- One round of the loop of `deliver`, from the result of `post`; `rest` is the loop's next round.
unfoldable pub after_post :
    Option DeliveryStore
    → ℕ
    → String
    → ℕ
    → Option String
    → (String → Exec World (Unit {0}))
    → Exec World (Unit {0})
unfolding persist_status
after_post store now id i none rest = persist_status store now id delivered (i + 1) ""
after_post store now id i (some e) rest = do persist_status store now id failed (i + 1) e; rest e

-- The loop of `deliver` from attempt `i` on, over the delays that are left. Attempt `i` gets the
-- answer `answers i` and is recorded at the time `now i`.
unfoldable pub deliver_from :
    Option DeliveryStore
    → (ℕ → Answer)
    → (ℕ → ℕ)
    → String
    → ℕ
    → ℕ
    → Option String
    → List ℕ
    → Exec World (Unit {0})
unfolding after_post give_up post
deliver_from store answers now id attempts i last_err [] =
    give_up store (now i) id attempts last_err
deliver_from store answers now id attempts i last_err (delay ∷ delays) =
    after_post store (now i) id i (post (answers i))
      (λ e. deliver_from store answers now id attempts (i + 1) (some e) delays)

unfoldable pub deliver : Dispatcher → (ℕ → Answer) → (ℕ → ℕ) → Task → Exec World (Unit {0})
unfolding deliver_from
deliver d answers now task =
    deliver_from d.store answers now task.delivery_id (length d.backoff) 0 none d.backoff
