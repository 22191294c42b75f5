-- ===== src/Tests/Streams.antt =====
-- A registry with two users.
use nexustal.Tests.Http.{filter, forged, alice_admitted, alice_passes}
use nexustal.Tests.Variables.{library}
use nexustal.Events.Streams.Notifications.{
  send_notification, notification_payload, open_stream, to_subscriber, send_notification-delivered,
}
use nexustal.Events.Streams.Laws.{add_remove-streams_of, addressed}
use nexustal.Domain.Identity.{Notification}
use nexustal.Http.Filter.Laws.{Identified}
use nexustal.Http.{get_header, add_header}
use nexustal.Events.Streams.Privacy.{
  run_events-private, is_allowed, opened_by_owner, no_connections,
}
use nexustal.Events.Streams.{
  remove_connection, add_connection, StreamEvent, opened, closed, published, beats, run_events,
  Connections, streams_of,
}
use nexustal.Domain.Identity.{Uuid}
use nexustal.Tests.Data.{bob, alice}
use nexustal.Events.Streams.{channel_for}
use nexustal.Common.{
  eqb, not, select, if◌then◌else◌, ◌++◌, some, false, put, lookup, refl, ◌==◌, ℕ, zero, suc, List,
  All, true, ◌≡◌, [], ◌∷◌, lit,
}

-- Two streams, which have each an owner.
abbrev owner : ℕ → Uuid
owner zero = alice
owner (suc n) = bob

abbrev events : List StreamEvent
events =
    opened alice 0
    ∷ opened bob 1
    ∷ published (channel_for alice) (lit "hello")
    ∷ beats
    ∷ closed bob 1
    ∷ []

each_owned : All (λ event. opened_by_owner owner event ≡ true) events
unfolding ◌==◌
each_owned = (refl, (refl, (refl, (refl, (refl, tt)))))

run_events-private_example :
    All (λ entry. is_allowed owner events entry ≡ true) (run_events events no_connections).sent
run_events-private_example = run_events-private owner events each_owned

abbrev hello : Notification
hello = record {
  id = lit "n";
  user_id = alice;
  title = lit "Hello";
  message = lit "You are invited";
  kind = lit "invitation";
  is_read = false;
  created_at = 0;
}

abbrev quiet : Connections
quiet = record { streams = []; sent = [] }

alice_asks : get_header (lit "x-user-id") alice_admitted ≡ alice
unfolding get_header add_header lookup put lit ◌==◌
alice_asks = refl

send_notification-delivered_example :
    Identified library filter forged 0 alice_admitted
    × ((after : Connections) × (open_stream (some quiet) alice_admitted 4 ≡ ([], some after))
        × (to_subscriber (send_notification library (λ t. lit "now") true hello) after
            ≡ record after {
              sent =
                  after.sent
                  ++ addressed
                      (lit "data: "
                        ++ (library.dump (notification_payload library (λ t. lit "now") hello)
                            ++ lit "\n\n"))
                      (streams_of alice quiet ++ 4 ∷ []);
            }))
send_notification-delivered_example =
    send_notification-delivered library filter (λ t. lit "now") forged alice_admitted 0 4 quiet
      hello alice_passes alice_asks

add_remove-streams_of_example :
    (streams_of bob (add_connection alice 3 quiet)
      ≡ (if alice == bob then streams_of bob quiet ++ 3 ∷ [] else streams_of bob quiet))
    × (streams_of bob (remove_connection alice 3 quiet) ≡ (
        if alice == bob
        then select (λ s. not (eqb s 3)) (streams_of bob quiet)
        else streams_of bob quiet))
add_remove-streams_of_example = add_remove-streams_of alice bob 3 quiet
