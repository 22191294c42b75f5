-- ===== src/Events/Streams/Privacy.antt =====
-- What a stream gets is its user's.
use nexustal.Events.Streams.{
  Connections, StreamEvent, opened, closed, published, beats, stream_step, run_events, streams_of,
  add_connection, remove_connection, on_message, deliver, send_to_user, send_all, heartbeat,
  beat_all, heartbeat_text, ready_event, user_of_channel,
}
use nexustal.Events.Streams.Laws.{add_remove-streams_of, addressed, send_all-addressed}
use nexustal.Events.Streams.Channels.{belongs_to, user_of_channel-belongs_to}
use nexustal.Domain.Identity.{Uuid}
use nexustal.Common.{
  ℕ, ◌≡◌, refl, sym, ap, ◌∙◌, subst, inl, inr, Bool, true, false, not, ◌&&◌, ◌||◌, Option, none,
  some, List, [], ◌∷◌, ◌++◌, arith, eqb, if◌then◌else◌, Bool-cases, Option-cases, Text, lit, ◌==◌,
  eq_iff, eq_refl, All-append, any, select, All, All-select, Dict, lookup,
}

abbrev pub data_text : Text → Text
data_text message = lit "data: " ++ (message ++ lit "\n\n")

abbrev is_user : Option Uuid → Uuid → Bool
is_user none user_id = false
is_user (some other) user_id = other == user_id

is_user-belongs_to :
    (channel : Text) (user_id : Uuid)
    → is_user (user_of_channel channel) user_id ≡ true
    → belongs_to channel user_id ≡ true
is_user-belongs_to channel user_id h = elim (Option-cases (user_of_channel channel)) [
  | inl missing ↦ absurd (ground (arith, missing, h))
  | inr (other, found) ↦
      ground (arith, found, h, eq_iff other user_id, user_of_channel-belongs_to channel other found)
]

-- Whether an event may send a text to a user.
abbrev pub delivers : StreamEvent → Uuid → Text → Bool
delivers (opened _ _) user_id text = false
delivers (closed _ _) user_id text = false
delivers (published channel message) user_id text =
    belongs_to channel user_id && text == data_text message
delivers beats user_id text = false

module _ (owner : ℕ → Uuid) where
  -- The stream was opened for its owner.
  abbrev pub opened_by_owner : StreamEvent → Bool
  opened_by_owner (opened user_id stream) = owner stream == user_id
  opened_by_owner (closed _ _) = true
  opened_by_owner (published _ _) = true
  opened_by_owner beats = true

  abbrev pub is_allowed : List StreamEvent → ℕ × Text → Bool
  is_allowed events (stream, text) =
      text == ready_event
      || text == heartbeat_text
      || any (λ event. delivers event (owner stream) text) events

  abbrev Owned : Connections → Type 0
  Owned c = (user_id : Uuid) → All (λ s. (owner s == user_id) ≡ true) (streams_of user_id c)

  abbrev AllAllowed : List StreamEvent → List (ℕ × Text) → Type 0
  AllAllowed events sent = All (λ entry. is_allowed events entry ≡ true) sent

  -- Texts that are allowed on every stream of a list.
  addressed-AllAllowed :
      (events : List StreamEvent) (text : Text) (ids : List ℕ)
      → All (λ s. is_allowed events (s, text) ≡ true) ids
      → AllAllowed events (addressed text ids)
  addressed-AllAllowed events text [] h = tt
  addressed-AllAllowed events text (s ∷ ids) (first, rest) =
      (first, addressed-AllAllowed events text ids rest)

  send_all-AllAllowed :
      (events : List StreamEvent) (text : Text) (ids : List ℕ) (sent : List (ℕ × Text))
      → All (λ s. is_allowed events (s, text) ≡ true) ids
      → AllAllowed events sent
      → AllAllowed events (send_all text ids sent)
  send_all-AllAllowed events text ids sent h k =
      subst (AllAllowed events) (sym (send_all-addressed text ids sent)) (
        All-append (λ entry. is_allowed events entry ≡ true) sent (addressed text ids) k
          (addressed-AllAllowed events text ids h))

  heartbeat-allowed :
      (events : List StreamEvent) (ids : List ℕ)
      → All (λ s. is_allowed events (s, heartbeat_text) ≡ true) ids
  heartbeat-allowed events [] = tt
  heartbeat-allowed events (s ∷ ids) =
      (ground (arith, eq_refl heartbeat_text), heartbeat-allowed events ids)

  beat_all-AllAllowed :
      (events : List StreamEvent) (entries : Dict (List ℕ)) (sent : List (ℕ × Text))
      → AllAllowed events sent
      → AllAllowed events (beat_all entries sent)
  unfolding beat_all
  beat_all-AllAllowed events [] sent k = k
  beat_all-AllAllowed events ((_, ids) ∷ entries) sent k =
      beat_all-AllAllowed events entries (send_all heartbeat_text ids sent)
        (send_all-AllAllowed events heartbeat_text ids sent (heartbeat-allowed events ids) k)

  deliver-streams_of :
      (o : Option Uuid) (message : Text) (c : Connections) (user_id : Uuid)
      → streams_of user_id (deliver o message c) ≡ streams_of user_id c
  unfolding send_to_user
  deliver-streams_of none message c user_id = refl
  deliver-streams_of (some other) message c user_id = refl

  kept-Owned :
      (hit : Bool) (user_id : Uuid) (stream : ℕ) (ids : List ℕ)
      → All (λ t. (owner t == user_id) ≡ true) ids
      → All
          (λ t. (owner t == user_id) ≡ true)
          (if hit then select (λ s. not (eqb s stream)) ids else ids)
  kept-Owned true user_id stream ids h =
      All-select (λ t. (owner t == user_id) ≡ true) (λ s. not (eqb s stream)) ids h
  kept-Owned false user_id stream ids h = h

  stream_step-Owned :
      (event : StreamEvent) (c : Connections)
      → opened_by_owner event ≡ true
      → Owned c
      → Owned (stream_step event c)
  unfolding on_message heartbeat
  stream_step-Owned (opened u s) c h o user_id = elim (Bool-cases (u == user_id)) [
    | inl same ↦
        let added = (add_remove-streams_of u user_id s c).0 in
        subst (λ ids. All (λ t. (owner t == user_id) ≡ true) ids)
          (sym (
            added
            ∙ ap (λ b. if b then streams_of user_id c ++ s ∷ [] else streams_of user_id c) same))
          (All-append (λ t. (owner t == user_id) ≡ true) (streams_of user_id c) (s ∷ []) (o user_id)
            (subst (λ v. (owner s == v) ≡ true) ((eq_iff u user_id).0 same) h, tt))
    | inr other ↦
        let added = (add_remove-streams_of u user_id s c).0 in
        subst (λ ids. All (λ t. (owner t == user_id) ≡ true) ids)
          (sym (
            added
            ∙ ap (λ b. if b then streams_of user_id c ++ s ∷ [] else streams_of user_id c) other))
          (o user_id)
  ]
  stream_step-Owned (closed u s) c h o user_id =
      let removed = (add_remove-streams_of u user_id s c).1 in
      subst (λ ids. All (λ t. (owner t == user_id) ≡ true) ids) (sym removed)
        (kept-Owned (u == user_id) user_id s (streams_of user_id c) (o user_id))
  stream_step-Owned (published channel message) c h o user_id =
      subst (λ ids. All (λ t. (owner t == user_id) ≡ true) ids)
        (sym (deliver-streams_of (user_of_channel channel) message c user_id)) (o user_id)
  stream_step-Owned beats c h o user_id = o user_id

  remove_connection-sent :
      (user_id : Uuid) (stream : ℕ) (c : Connections)
      → (remove_connection user_id stream c).sent ≡ c.sent
  unfolding remove_connection
  remove_connection-sent user_id stream c = elim (Option-cases (lookup user_id c.streams)) [
    | inl missing ↦ rw (remove_connection, missing) refl
    | inr (ids, e) ↦ rw (remove_connection, e) refl
  ]

  own_streams-allowed :
      (events : List StreamEvent) (user_id : Uuid) (text : Text) (ids : List ℕ)
      → ((s : ℕ) → (owner s == user_id) ≡ true → is_allowed events (s, text) ≡ true)
      → All (λ s. (owner s == user_id) ≡ true) ids
      → All (λ s. is_allowed events (s, text) ≡ true) ids
  own_streams-allowed events user_id text [] h k = tt
  own_streams-allowed events user_id text (s ∷ ids) h (first, rest) =
      (h s first, own_streams-allowed events user_id text ids h rest)

  deliver-AllAllowed :
      (events : List StreamEvent) (o : Option Uuid) (message : Text) (c : Connections)
      → ((s : ℕ) → is_user o (owner s) ≡ true → is_allowed events (s, data_text message) ≡ true)
      → Owned c
      → AllAllowed events c.sent
      → AllAllowed events (deliver o message c).sent
  unfolding send_to_user
  deliver-AllAllowed events none message c h o k = k
  deliver-AllAllowed events (some user_id) message c h o k =
      send_all-AllAllowed events (data_text message) (streams_of user_id c) c.sent
        (own_streams-allowed events user_id (data_text message) (streams_of user_id c)
          (λ s e. h s ((eq_iff _ _).1 (sym ((eq_iff _ _).0 e)))) (o user_id))
        k

  stream_step-AllAllowed :
      (events : List StreamEvent) (event : StreamEvent) (c : Connections)
      → ((s : ℕ) (text : Text)
          → delivers event (owner s) text ≡ true
          → any (λ e. delivers e (owner s) text) events ≡ true)
      → Owned c
      → AllAllowed events c.sent
      → AllAllowed events (stream_step event c).sent
  unfolding add_connection on_message heartbeat
  stream_step-AllAllowed events (opened u s) c h o k =
      All-append (λ entry. is_allowed events entry ≡ true) c.sent ((s, ready_event) ∷ []) k
        (ground (arith, eq_refl ready_event), tt)
  stream_step-AllAllowed events (closed u s) c h o k =
      subst (AllAllowed events) (sym (remove_connection-sent u s c)) k
  stream_step-AllAllowed events (published channel message) c h o k =
      deliver-AllAllowed events (user_of_channel channel) message c
        (λ s e. ground (
          arith,
          is_user-belongs_to channel (owner s) e,
          eq_refl (data_text message),
          h s (data_text message),
        ))
        o k
  stream_step-AllAllowed events beats c h o k = beat_all-AllAllowed events c.streams c.sent k

  run_events-AllAllowed :
      (events later : List StreamEvent) (c : Connections)
      → All (λ event. opened_by_owner event ≡ true) later
      → ((s : ℕ) (text : Text)
          → any (λ e. delivers e (owner s) text) later ≡ true
          → any (λ e. delivers e (owner s) text) events ≡ true)
      → Owned c
      → AllAllowed events c.sent
      → AllAllowed events (run_events later c).sent
  unfolding run_events
  run_events-AllAllowed events [] c a h o k = k
  run_events-AllAllowed events (event ∷ later) c (first, rest) h o k =
      run_events-AllAllowed events later (stream_step event c) rest
        (λ s text e. h s text (ground (arith, e))) (stream_step-Owned event c first o)
        (stream_step-AllAllowed events event c (λ s text e. h s text (ground (arith, e))) o k)

abbrev pub no_connections : Connections
no_connections = record { streams = []; sent = [] }

nobody-Owned : (owner : ℕ → Uuid) → Owned owner no_connections
unfolding lookup
nobody-Owned owner user_id = tt

-- Whatever streams are opened and closed, each for its owner, and whatever is published, all that
-- a stream is ever sent is the ready event, heartbeats, and messages that were published on the
-- channel "user:<id>:notifications" of its owner's identifier; a channel of fewer than 19
-- characters counts as the owner's if the identifier stands behind its first five.
pub run_events-private :
    (owner : ℕ → Uuid) (events : List StreamEvent)
    → All (λ event. opened_by_owner owner event ≡ true) events
    → All (λ entry. is_allowed owner events entry ≡ true) (run_events events no_connections).sent
run_events-private owner events h =
    run_events-AllAllowed owner events events no_connections h (λ s text e. e) (nobody-Owned owner)
      tt
