-- ===== src/Server/Threads.antt =====
-- The service as goroutines over one state. A goroutine is what it has left to do; its next call of
-- the database or of the storage, with the code up to the following one, is one step. The database
-- has one connection (`SetMaxOpenConns(1)`), so a statement, and the transaction of `SaveChannel`,
-- run alone. Handlers that only read have no steps here.
pub mod Announced
pub mod Kept
pub mod Advance
pub mod Begin
pub mod Work
pub mod Alone
pub mod Attempts
pub mod Changes
pub mod Quiet
pub mod Files
pub mod Stranded
pub mod Covered
use artifact_registry_servic.Base.{
  ℕ, ◌+◌, String, List, [], ◌∷◌, Option, none, some, length, if◌then◌else◌, not,
}
use artifact_registry_servic.Domain.{Artifact, ChannelPointer}
use artifact_registry_servic.Delivery.{
  EventType, artifact_uploaded, channel_promoted, channel_rollback, DeliveryRecord, delivered,
  failed,
}
use artifact_registry_servic.Auth.{Store, scope_write, scope_admin, allowed}
use artifact_registry_servic.Exec.{◌>>=◌, Result, ok, err}
use artifact_registry_servic.World.{World}
use artifact_registry_servic.Sqlite.Artifacts.{save_artifact}
use artifact_registry_servic.Sqlite.Channels.{list_channel_history}
use artifact_registry_servic.Registry.Service.{
  UploadRequest, check_upload, stored_artifact, Target, find_target, point, save_pointer,
}
use artifact_registry_servic.Webhooks.Event.{Event, EventData, uploaded}
use artifact_registry_servic.Webhooks.Dispatcher.{
  DeliveryStore, Task, Answer, post, persist_status, give_up,
}
use artifact_registry_servic.Webhooks.Emit.{record_of, persist_new, envelope}
use artifact_registry_servic.Webhooks.Replay.{replay_check, replay_reset}
use artifact_registry_servic.Api.Middleware.{extract_bearer}
use artifact_registry_servic.Api.Handlers.{Handler, moved_by}

-- What a step is given from outside: a UUID, the time as text and as a number, what the receiver of
-- a POST does, and how the calls of the step turn out.
pub record Chance : Type 0 where
  pub id : String
  pub timestamp : String
  pub now : ℕ
  pub answer : Answer
  pub faults : List (Option String)

pub data Thread : Type 0 where
  -- `Upload` has stored the file, and saves the row next; or that failed, and the file goes.
  inserting cleaning : Artifact → Thread
  -- `Rollback` has read the history, and promotes this version next.
  restoring : (channel type name by version : String) → Thread
  -- `Promote` has found the artifact, and reads the current pointer next.
  pointing : EventType → (channel type name by : String) → Target → Thread
  -- `Promote` has made the pointer, and saves it next.
  saving : EventType → ChannelPointer → Thread
  -- `Emit` has signed the event, and has these URLs left.
  announcing : Event → (body : String) → List String → Thread
  -- `Replay` has read a dead letter, and resets it next.
  resetting : (id : String) → DeliveryRecord → Thread
  -- `deliver`: the number of attempts made, the last error, the delays left.
  delivering : Task → ℕ → Option String → List ℕ → Thread

-- The requests that change state, as their handlers read them.
pub data Call : Type 0 where
  uploads : UploadRequest → Call
  promotes : (channel type name version by : String) → Call
  rolls_back : (channel type name by : String) → Call
  replays : (delivery_id : String) → Call

pub record Request : Type 0 where
  pub authorization : String
  pub call : Call

abbrev pub scope_of : Call → String
scope_of (uploads req) = scope_write
scope_of _ = scope_admin

-- What a result leaves to do.
abbrev pub then_do : {A : Type 0} → (A → Thread) → Result A → List Thread
then_do f (ok a) = f a ∷ []
then_do f (err e) = []

abbrev pub then_all : {A : Type 0} → (A → List Thread) → Result A → List Thread
then_all f (ok a) = f a
then_all f (err e) = []

abbrev pub second_version : String → String → String → String → List ChannelPointer → List Thread
second_version channel type name by [] = []
second_version channel type name by (curr ∷ []) = []
second_version channel type name by (curr ∷ prev ∷ rest) =
    restoring channel type name by prev.version ∷ []

module _ (h : Handler) (c : Chance) where
  -- `Emit` up to its loop.
  pub announced : EventType → String → EventData → List Thread
  unfolding envelope
  announced event_type key content = elim h.wh.urls [
    | [] ↦ []
    | url ∷ urls ↦
        then_do (λ (e, body). announcing e body h.wh.urls)
          (envelope h.go h.codec h.wh.secret event_type key c.id c.timestamp
            (h.codec.marshal_data content))
  ]

  pub saved : EventType → Result ChannelPointer → List Thread
  unfolding announced
  saved event (err e) = []
  saved event (ok ch) = announced event ch.channel (moved_by ch)

  pub inserted : Artifact → Result (Unit {0}) → List Thread
  unfolding announced
  inserted a (err e) = cleaning a ∷ []
  inserted a (ok _) =
      announced artifact_uploaded a.id (uploaded a.id a.version a.sha256 a.size_bytes)

  -- One round of `deliver`.
  pub attempted : Task → ℕ → List ℕ → Option String → World → List Thread × World
  unfolding persist_status
  attempted task i delays none w =
      ([], (persist_status h.wh.store c.now task.delivery_id delivered (i + 1) "" w).1)
  attempted task i delays (some e) w = (
    delivering task (i + 1) (some e) delays ∷ [],
    (persist_status h.wh.store c.now task.delivery_id failed (i + 1) e w).1,
  )

  pub delivery_of : Event → String → String → Task
  delivery_of e body url = record {
    delivery_id = c.id;
    event_id = e.event_id;
    event_type = e.event_type;
    url = url;
    body = body;
    sig = e.signature;
  }

  pub reset : Option DeliveryStore → String → DeliveryRecord → World → List Thread × World
  unfolding replay_reset
  reset none id rec w = ([], w)
  reset (some store) id rec w =
      let (r, w1) = replay_reset store c.now rec id w in
      (then_do (λ task. delivering task 0 none h.wh.backoff) r, w1)

  -- The next step of a goroutine: what it has left to do afterwards, with the goroutines it starts.
  unfoldable pub advance : Thread → World → List Thread × World
  unfolding find_target point save_pointer saved inserted persist_new give_up attempted reset
      delivery_of post
  advance (inserting a) w = let (r, w1) = save_artifact h.engine a w in (inserted a r, w1)
  advance (cleaning a) w = ([], (h.stor.delete a.storage_key w).1)
  advance (restoring channel type name by version) w =
      let (r, w1) = find_target type name version w in
      (then_do (pointing channel_rollback channel type name by) r, w1)
  advance (pointing event channel type name by target) w =
      let (r, w1) = point c.now channel type name by target w in (then_do (saving event) r, w1)
  advance (saving event ch) w = let (r, w1) = save_pointer ch w in (saved event r, w1)
  advance (announcing e body []) w = ([], w)
  advance (announcing e body (url ∷ urls)) w =
      let task = delivery_of e body url in
      (
        announcing e body urls ∷ delivering task 0 none h.wh.backoff ∷ [],
        persist_new h.wh.store c.now (record_of c.now task e.aggregate_key) w,
      )
  advance (resetting id rec) w = reset h.wh.store id rec w
  advance (delivering task i last []) w =
      ([], (give_up h.wh.store c.now task.delivery_id (length h.wh.backoff) last w).1)
  advance (delivering task i last (delay ∷ delays)) w = attempted task i delays (post c.answer) w

  pub checked : Option DeliveryStore → String → World → List Thread × World
  unfolding replay_check
  checked none id w = ([], w)
  checked (some store) id w =
      let (r, w1) = replay_check store id w in (then_do (resetting id) r, w1)

  -- A handler up to its first change of the tables. `id_time` is the time of `newID`.
  pub begin_call : ℕ → Call → World → List Thread × World
  unfolding find_target checked
  begin_call id_time (uploads req) w =
      let (r, w1) =
        (do
          checked_req ← check_upload h.go req
          stored_artifact h.go h.engine h.stor id_time c.now checked_req)
          w in
      (then_do inserting r, w1)
  begin_call id_time (promotes channel type name version by) w =
      let (r, w1) = find_target type name version w in
      (then_do (pointing channel_promoted channel type name by) r, w1)
  begin_call id_time (rolls_back channel type name by) w =
      let (r, w1) = list_channel_history h.engine channel type name w in
      (then_all (second_version channel type name by) r, w1)
  begin_call id_time (replays id) w = checked h.wh.store id w

  -- A request, behind `requireScope`.
  unfoldable pub begin : Store → ℕ → Request → World → List Thread × World
  unfolding begin_call
  begin store id_time req w =
      if not (allowed store (extract_bearer req.authorization) (scope_of req.call))
      then ([], w)
      else begin_call id_time req.call w
