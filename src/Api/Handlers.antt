-- ===== src/Api/Handlers.antt =====
-- internal/api/handlers.go: the handlers that change state. Times, UUIDs, the parsed form of an upload and the headers are
-- arguments.
pub mod Refusals
pub mod Answers
pub mod Uploads
pub mod Rollbacks
pub mod Replays
use artifact_registry_servic.Base.{ℕ, String, ◌<>◌, ◌==◌, List, [], ◌∷◌, if◌then◌else◌}
use artifact_registry_servic.Domain.{Artifact, ChannelPointer}
use artifact_registry_servic.Domain.Errors.{
  error_text, is, not_found, already_exists, invalid_version, invalid_input, no_channel_history,
  delivery_not_found, not_dead_letter,
}
use artifact_registry_servic.Delivery.{
  EventType, artifact_uploaded, channel_promoted, channel_rollback,
}
use artifact_registry_servic.Exec.{Result, ok, err}
use artifact_registry_servic.World.{World, Engine}
use artifact_registry_servic.Platform.{Platform}
use artifact_registry_servic.Storage.{Reader, Backend}
use artifact_registry_servic.Registry.Service.{upload, promote, rollback}
use artifact_registry_servic.Webhooks.Event.{Codec, EventData, uploaded, moved}
use artifact_registry_servic.Webhooks.Dispatcher.{Dispatcher, Task}
use artifact_registry_servic.Webhooks.Emit.{emit}
use artifact_registry_servic.Webhooks.Replay.{replay}
use artifact_registry_servic.Api.Reply.{
  Reply, Served, write_error, artifact_body, channel_body, replaying,
}

-- The parsed multipart form; `metadata` is the result of `json.Unmarshal` on a field that is not
-- empty, and the empty map otherwise.
pub record Form : Type 0 where
  pub version : String
  pub file : Result (Reader × String)
  pub metadata : Result (List (String × String))

-- The UUIDs and the readings of the clock of one `Emit`.
pub record Fresh : Type 0 where
  pub event_id : String
  pub timestamp : String
  pub ids : ℕ → String
  pub now : ℕ → ℕ

-- What the handlers hold; `base_url` is of the configuration.
pub record Handler : Type 0 where
  pub go : Platform
  pub codec : Codec
  pub engine : Engine
  pub stor : Backend
  pub base_url : String
  pub wh : Dispatcher

-- `Emit`, and the answer behind it.
abbrev pub emitting : Handler → Fresh → EventType → String → EventData → Reply → World → Served
emitting h fresh event_type key content reply w =
    let (tasks, w1) =
      emit h.go h.codec h.wh event_type key content fresh.event_id fresh.timestamp fresh.ids
        fresh.now w in
    (reply, tasks, w1)

unfoldable pub upload_reply : Handler → Fresh → Result Artifact → World → Served
upload_reply h fresh (err e) w =
    if is e already_exists
    then write_error 409 (error_text e) w
    else if is e invalid_version
    then write_error 400 (error_text e) w
    else if is e invalid_input
    then write_error 400 (error_text e) w
    else write_error 500 "upload failed" w
upload_reply h fresh (ok a) w =
    emitting h fresh artifact_uploaded a.id (uploaded a.id a.version a.sha256 a.size_bytes)
      (record { status = 201; body = artifact_body a }) w

-- Behind the file: the metadata, and the service.
upload_meta :
    Handler
    → Fresh
    → ℕ
    → ℕ
    → String
    → String
    → String
    → Reader × String
    → Result (List (String × String))
    → World
    → Served
unfolding upload_reply
upload_meta h fresh id_time now type name version file (err e) w =
    write_error 400 "metadata must be a JSON object of string values" w
upload_meta h fresh id_time now type name version (file, content_type) (ok meta) w =
    let (r, w1) =
      upload h.go h.engine h.stor id_time now
        (record {
          type = type;
          name = name;
          version = version;
          content_type = if content_type == "" then "application/octet-stream" else content_type;
          metadata = meta;
          file = file;
        })
        w in
    upload_reply h fresh r w1

upload_file :
    Handler
    → Fresh
    → ℕ
    → ℕ
    → String
    → String
    → String
    → Result (Reader × String)
    → Result (List (String × String))
    → World
    → Served
unfolding upload_meta
upload_file h fresh id_time now type name version (err e) meta w =
    write_error 400 "file is required" w
upload_file h fresh id_time now type name version (ok file) meta w =
    upload_meta h fresh id_time now type name version file meta w

-- `form` is what `ParseMultipartForm` gives under the limit on the size of the body.
unfoldable pub handle_upload :
    Handler → Fresh → ℕ → ℕ → String → String → Result Form → World → Served
unfolding upload_file
handle_upload h fresh id_time now type name (err e) w =
    write_error 400 ("invalid multipart form: " <> error_text e) w
handle_upload h fresh id_time now type name (ok form) w =
    if form.version == ""
    then write_error 400 "version is required" w
    else upload_file h fresh id_time now type name form.version form.file form.metadata w

abbrev pub moved_by : ChannelPointer → EventData
moved_by ch = moved ch.channel ch.previous_version ch.version

unfoldable pub promote_reply : Handler → Fresh → Result ChannelPointer → World → Served
promote_reply h fresh (err e) w =
    if is e not_found
    then write_error 404 (error_text e) w
    else if is e invalid_version
    then write_error 400 (error_text e) w
    else write_error 500 (error_text e) w
promote_reply h fresh (ok ch) w =
    emitting h fresh channel_promoted ch.channel (moved_by ch)
      (record { status = 200; body = channel_body ch }) w

unfoldable pub handle_promote :
    Handler → Fresh → ℕ → String → String → String → String → String → World → Served
unfolding promote_reply
handle_promote h fresh now channel type name version by w =
    let (r, w1) = promote now channel type name version by w in promote_reply h fresh r w1

unfoldable pub rollback_reply : Handler → Fresh → Result ChannelPointer → World → Served
rollback_reply h fresh (err e) w =
    if is e no_channel_history
    then write_error 409 (error_text e) w
    else if is e not_found
    then write_error 404 (error_text e) w
    else write_error 500 (error_text e) w
rollback_reply h fresh (ok ch) w =
    emitting h fresh channel_rollback ch.channel (moved_by ch)
      (record { status = 200; body = channel_body ch }) w

unfoldable pub handle_rollback :
    Handler → Fresh → ℕ → String → String → String → String → World → Served
unfolding rollback_reply
handle_rollback h fresh now channel type name by w =
    let (r, w1) = rollback h.engine now channel type name by w in rollback_reply h fresh r w1

replay_reply : String → Result Task → World → Served
replay_reply id (err e) w =
    if is e delivery_not_found
    then write_error 404 "webhook delivery not found" w
    else if is e not_dead_letter
    then write_error 409 (error_text e) w
    else write_error 500 "replay failed" w
replay_reply id (ok task) w = (record { status = 202; body = replaying id }, task ∷ [], w)

unfoldable pub handle_replay : Handler → ℕ → String → World → Served
unfolding replay_reply
handle_replay h now id w = let (r, w1) = replay h.wh now id w in replay_reply id r w1
