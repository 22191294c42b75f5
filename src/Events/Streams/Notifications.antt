-- ===== src/Events/Streams/Notifications.antt =====
-- The payload of backend/infrastructure/adapters/redis_notification_service.cpp, and the route of
-- backend/src/controllers/sse_controller.cpp. What Redis publishes on a channel reaches the
-- subscriber of the streams.
use nexustal.Events.Streams.{Connections, streams_of, add_connection, on_message, channel_for}
use nexustal.Events.Streams.Laws.{add_remove-streams_of, addressed, on_message-channel_for}
use nexustal.Http.{Request, get_header}
use nexustal.Http.Filter.{JwtAuthFilter, do_filter, passed}
use nexustal.Http.Filter.Laws.{do_filter-passed, Identified}
use nexustal.Domain.Identity.{Notification, Timestamp}
use nexustal.Domain.Json.{Json, JsonLib, object, object_of, string, boolean}
use nexustal.Common.{
  ℕ, ◌≡◌, refl, ap, ◌∙◌, Bool, true, false, Option, none, some, List, [], ◌∷◌, ◌++◌, if◌then◌else◌,
  Text, lit, is_empty, eq_iff, Dict,
}

-- `format` is `formatTimestamp`.
unfoldable pub notification_payload : JsonLib → (format : Timestamp → Text) → Notification → Json
notification_payload lib format notification = object (
    object_of lib (
      (lit "id", string notification.id)
      ∷ (lit "user_id", string notification.user_id)
      ∷ (lit "title", string notification.title)
      ∷ (lit "message", string notification.message)
      ∷ (lit "type", string notification.kind)
      ∷ (lit "is_read", boolean notification.is_read)
      ∷ (lit "created_at", string (format notification.created_at))
      ∷ []))

-- `sendNotification`: the channel and the message that are published, or nothing without Redis.
unfoldable pub send_notification :
    JsonLib → (format : Timestamp → Text) → (redis : Bool) → Notification → Option (Text × Text)
send_notification lib format false notification = none
send_notification lib format true notification =
    some (channel_for notification.user_id, lib.dump (notification_payload lib format notification))

-- What reaches the subscriber.
abbrev pub to_subscriber : Option (Text × Text) → Connections → Connections
to_subscriber none c = c
to_subscriber (some (channel, message)) c = on_message channel message c

-- `SseController::stream`: the response with a stream, or the status 401.
pub data StreamResponse : Type 0 where
  refused_stream : StreamResponse
  streaming : (headers : Dict Text) → StreamResponse

unfoldable pub stream_response : Request → StreamResponse
stream_response request =
    if is_empty (get_header (lit "x-user-id") request)
    then refused_stream
    else streaming (
        (lit "content-type", lit "text/event-stream")
        ∷ (lit "cache-control", lit "no-cache")
        ∷ (lit "connection", lit "keep-alive")
        ∷ (lit "x-accel-buffering", lit "no")
        ∷ [])

abbrev pub warning_event : Text
warning_event = lit "event: warning\ndata: {\"message\":\"redis client not configured\"}\n\n"

-- When the stream is there: what is sent on it by the controller itself, and the registry.
unfoldable pub open_stream :
    Option Connections → Request → (stream : ℕ) → List (ℕ × Text) × Option Connections
open_stream none request stream = ((stream, warning_event) ∷ [], none)
open_stream (some c) request stream =
    ([], some (add_connection (get_header (lit "x-user-id") request) stream c))

-- A client that the filter lets through, on a route that keeps its stream, gets the notifications
-- of the user of its token: the stream joins that user's, and a notification to the user that is
-- sent while Redis is configured goes to each of them once, and to no other stream.
pub send_notification-delivered :
    {S : Type 0} (lib : JsonLib) (filter : JwtAuthFilter S) (format : Timestamp → Text)
    (request admitted : Request) (s : S) (stream : ℕ) (c : Connections)
    (notification : Notification)
    → (do_filter lib filter request s).0 ≡ passed admitted
    → get_header (lit "x-user-id") admitted ≡ notification.user_id
    → Identified lib filter request s admitted
      × ((after : Connections) × (open_stream (some c) admitted stream ≡ ([], some after))
          × (to_subscriber (send_notification lib format true notification) after ≡ record after {
            sent =
                after.sent
                ++ addressed
                    (lit "data: "
                      ++ (lib.dump (notification_payload lib format notification) ++ lit "\n\n"))
                    (streams_of notification.user_id c ++ stream ∷ []);
          }))
unfolding open_stream send_notification
send_notification-delivered lib filter format request admitted s stream c notification let_in same =
    let after = add_connection (get_header (lit "x-user-id") admitted) stream c in
    let text = lib.dump (notification_payload lib format notification) in
    let joined : streams_of notification.user_id after
        ≡ streams_of notification.user_id c ++ stream ∷ [] =
      (add_remove-streams_of (get_header (lit "x-user-id") admitted) notification.user_id stream
        c).0
      ∙ ap
          (λ hit.
            if hit
            then streams_of notification.user_id c ++ stream ∷ []
            else streams_of notification.user_id c)
          ((eq_iff _ _).1 same) in
    (
      do_filter-passed lib filter request admitted s let_in,
      (
        after,
        refl,
        on_message-channel_for notification.user_id text after
            ∙ ap
                (λ ids. record after {
                  sent = after.sent ++ addressed (lit "data: " ++ (text ++ lit "\n\n")) ids;
                })
                joined,
      ),
    )
