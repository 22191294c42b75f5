-- ===== src/Events/Streams.antt =====
-- backend/infrastructure/adapters/sse_connection_manager.cpp, and the channel of
-- redis_notification_service.cpp. A stream is a number. What is sent is kept in order; a send that
-- throws is logged by the code and counts as sent here.
pub mod Laws
pub mod Channels
pub mod Privacy
pub mod Notifications
use nexustal.Execution.Replace.{starts_with}
use nexustal.Domain.Identity.{Uuid}
use nexustal.Common.{
  ℕ, zero, suc, ◌+◌, ◌-◌, ◌*◌, ◌/◌, ◌%◌, ◌^◌, ◌≤◌, ◌<◌, String, ◌≡◌, refl, sym, ap, ◌∙◌, subst, ◌≢◌,
  ◌↔◌, ◌⊎◌, inl, inr, Bool, true, false, not, ◌&&◌, ◌||◌, Option, none, some, List, [], ◌∷◌, ◌++◌,
  append_assoc, append-nil, arith, ltb, leb, eqb, if◌then◌else◌, Bool-cases, Option-cases, is_some,
  Text, lit, ◌==◌, is_empty, eq_iff, eq_refl, ==-false, length, length-append, find_if, get_elem?,
  modify, take-length, drop-length, take, drop, drop-zero, take-append, drop-append, update_where,
  count_if, count_if-pos, find_if-any, find_if-holds, insert_desc, order_desc, any-insert_desc,
  any-order_desc, All-insert_desc, All-order_desc, find_if-All, any-select, any-false, any_mono,
  any-append, All-append, All-select_self, find_if_unique, any, select, All, All-select, Dict,
  lookup, put, without, lookup-put, lookup-without, Action, ◌>>=◌, ◌>>◌, pure,
}

pub record Connections : Type 0 where
  pub streams : Dict (List ℕ)
  pub sent : List (ℕ × Text)

-- The entry of a user, empty where there is none.
abbrev pub entry_of : Option (List ℕ) → List ℕ
entry_of none = []
entry_of (some ids) = ids

abbrev pub streams_of : Uuid → Connections → List ℕ
streams_of user_id c = entry_of (lookup user_id c.streams)

abbrev pub ready_event : Text
ready_event = lit "event: ready\ndata: {\"status\":\"connected\"}\n\n"

unfoldable pub add_connection : Uuid → ℕ → Connections → Connections
add_connection user_id stream c = record {
  streams = put user_id (streams_of user_id c ++ stream ∷ []) c.streams;
  sent = c.sent ++ (stream, ready_event) ∷ [];
}

-- An entry that becomes empty is erased.
abbrev pub store_rest : Uuid → List ℕ → Dict (List ℕ) → Dict (List ℕ)
store_rest user_id [] streams = without user_id streams
store_rest user_id (s ∷ rest) streams = put user_id (s ∷ rest) streams

unfoldable pub remove_connection : Uuid → ℕ → Connections → Connections
remove_connection user_id stream c = elim (lookup user_id c.streams) [
  | none ↦ c
  | some ids ↦ record c {
    streams = store_rest user_id (select (λ s. not (eqb s stream)) ids) c.streams;
  }
]

-- The loop over the streams of an entry.
unfoldable pub send_all : Text → List ℕ → List (ℕ × Text) → List (ℕ × Text)
send_all sse_data [] sent = sent
send_all sse_data (s ∷ ids) sent = send_all sse_data ids (sent ++ (s, sse_data) ∷ [])

unfoldable pub send_to_user : Uuid → Text → Connections → Connections
unfolding send_all
send_to_user user_id sse_data c = record c {
  sent = send_all sse_data (streams_of user_id c) c.sent;
}

-- The channel that a notification is published on.
unfoldable pub channel_for : Uuid → Text
channel_for user_id = lit "user:" ++ (user_id ++ lit ":notifications")

unfoldable pub ends_with : Text → Text → Bool
unfolding starts_with
ends_with suffix text =
    leb (length suffix) (length text)
    && starts_with suffix (drop text (length text - length suffix))

-- The number of characters that the callback of the subscriber copies. Where prefix and suffix
-- overlap, as in `user:notifications`, the subtraction of the code wraps around to a number beyond
-- every length, and all that is left is copied.
abbrev pub copied : ℕ → ℕ
copied size = if ltb size 19 then size else size - 5 - 14

unfoldable pub user_of_channel : Text → Option Uuid
unfolding starts_with ends_with
user_of_channel channel =
    if starts_with (lit "user:") channel && ends_with (lit ":notifications") channel
    then some (take (drop channel 5) (copied (length channel)))
    else none

abbrev pub deliver : Option Uuid → Text → Connections → Connections
deliver none message c = c
deliver (some user_id) message c = send_to_user user_id (lit "data: " ++ (message ++ lit "\n\n")) c

unfoldable pub on_message : Text → Text → Connections → Connections
unfolding user_of_channel
on_message channel message c = deliver (user_of_channel channel) message c

abbrev pub heartbeat_text : Text
heartbeat_text = lit ": heartbeat\n\n"

unfoldable pub beat_all : Dict (List ℕ) → List (ℕ × Text) → List (ℕ × Text)
unfolding send_all
beat_all [] sent = sent
beat_all ((_, ids) ∷ entries) sent = beat_all entries (send_all heartbeat_text ids sent)

-- What the timer does every 15 seconds.
unfoldable pub heartbeat : Connections → Connections
unfolding beat_all
heartbeat c = record c { sent = beat_all c.streams c.sent }

-- What happens to the registry, one at a time; a close handler removes its stream.
pub data StreamEvent : Type 0 where
  opened : Uuid → ℕ → StreamEvent
  closed : Uuid → ℕ → StreamEvent
  published : (channel message : Text) → StreamEvent
  beats : StreamEvent

abbrev pub stream_step : StreamEvent → Connections → Connections
stream_step (opened user_id stream) c = add_connection user_id stream c
stream_step (closed user_id stream) c = remove_connection user_id stream c
stream_step (published channel message) c = on_message channel message c
stream_step beats c = heartbeat c

unfoldable pub run_events : List StreamEvent → Connections → Connections
run_events [] c = c
run_events (event ∷ events) c = run_events events (stream_step event c)
