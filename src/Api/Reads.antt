-- ===== src/Api/Reads.antt =====
-- internal/api/handlers.go: the handlers that only read.
pub mod Downloads
use artifact_registry_servic.Base.{String, ◌<>◌, ◌==◌, List, [], if◌then◌else◌}
use artifact_registry_servic.Domain.{Artifact, ChannelPointer}
use artifact_registry_servic.Domain.Errors.{Error, error_text, is, not_found}
use artifact_registry_servic.Exec.{Result, ok, err}
use artifact_registry_servic.World.{World, Bytes}
use artifact_registry_servic.Sqlite.Channels.{get_channel}
use artifact_registry_servic.Registry.Service.{
  resolve_latest, get_version, list_versions, get_channel_history,
}
use artifact_registry_servic.Api.Reply.{
  Reply, Served, write_json, write_error, artifact_with_url, artifacts_body, channel_body,
  channels_body, health_body, redirect, stream,
}
use artifact_registry_servic.Api.Handlers.{Handler}

abbrev list_versions_reply : Result (List Artifact) → World → Served
list_versions_reply (err e) w = write_error 500 (error_text e) w
list_versions_reply (ok versions) w = write_json 200 (artifacts_body versions) w

unfoldable pub handle_list_versions : Handler → String → String → World → Served
handle_list_versions h type name w =
    let (r, w1) = list_versions h.engine type name w in list_versions_reply r w1

abbrev pub with_url : String → Artifact → Reply
with_url base_url a = record {
  status = 200;
  body =
      artifact_with_url a (
        base_url <> "/v1/artifacts/" <> a.type <> "/" <> a.name <> "/" <> a.version <> "/download");
}

resolve_reply : Handler → String → Result Artifact → World → Served
resolve_reply h channel (err e) w =
    if is e not_found
    then write_error 404 ("no version promoted to channel " <> h.go.quote channel) w
    else write_error 500 (error_text e) w
resolve_reply h channel (ok a) w = (with_url h.base_url a, [], w)

unfoldable pub handle_resolve_latest : Handler → String → String → String → World → Served
unfolding resolve_reply
handle_resolve_latest h query type name w =
    let channel = if query == "" then "stable" else query in
    let (r, w1) = resolve_latest h.go channel type name w in resolve_reply h channel r w1

-- The error of `GetVersion` as `GetVersion` and `Download` answer it.
abbrev version_error : Error → World → Served
version_error e w =
    if is e not_found
    then write_error 404 "version not found" w
    else write_error 500 (error_text e) w

abbrev version_reply : Handler → Result Artifact → World → Served
version_reply h (err e) w = version_error e w
version_reply h (ok a) w = (with_url h.base_url a, [], w)

unfoldable pub handle_get_version : Handler → String → String → String → World → Served
handle_get_version h type name version w =
    let (r, w1) = get_version type name version w in version_reply h r w1

-- The local fallback of `Download`; a read that breaks off behind `Open` is not modelled.
abbrev stream_reply : Artifact → Result Bytes → World → Served
stream_reply a (err e) w = write_error 404 "artifact file not found" w
stream_reply a (ok content) w =
    (record { status = 200; body = stream a.content_type a.sha256 a.version content }, [], w)

signed_reply : Handler → Artifact → Result String → World → Served
signed_reply h a (ok url) w = (record { status = 307; body = redirect url }, [], w)
signed_reply h a (err e) w = let (r, w1) = h.stor.open_key a.storage_key w in stream_reply a r w1

download_reply : Handler → Result Artifact → World → Served
unfolding signed_reply
download_reply h (err e) w = version_error e w
download_reply h (ok a) w =
    let (r, w1) = h.stor.get_signed_url a.storage_key 900 w in signed_reply h a r w1

unfoldable pub handle_download : Handler → String → String → String → World → Served
unfolding download_reply
handle_download h type name version w =
    let (r, w1) = get_version type name version w in download_reply h r w1

channel_reply : Result ChannelPointer → World → Served
channel_reply (err e) w =
    if is e not_found
    then write_error 404 "channel not found" w
    else write_error 500 (error_text e) w
channel_reply (ok ch) w = write_json 200 (channel_body ch) w

unfoldable pub handle_channel_state : Handler → String → String → String → World → Served
unfolding channel_reply
handle_channel_state h channel type name w =
    let (r, w1) = get_channel channel type name w in channel_reply r w1

abbrev history_reply : Result (List ChannelPointer) → World → Served
history_reply (err e) w = write_error 500 (error_text e) w
history_reply (ok history) w = write_json 200 (channels_body history) w

unfoldable pub handle_channel_history : Handler → String → String → String → World → Served
handle_channel_history h channel type name w =
    let (r, w1) = get_channel_history h.engine channel type name w in history_reply r w1

abbrev pub handle_health : World → Served
handle_health = write_json 200 (health_body "artifact-registry-service" "v0.1.0")
