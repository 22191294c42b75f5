-- ===== src/Events/Streams/Laws.antt =====
-- Who gets what.
use nexustal.Domain.Identity.{Uuid}
use nexustal.Execution.Replace.{starts_with}
use nexustal.Events.Streams.{
  send_to_user, on_message, copied, streams_of, Connections, ends_with, remove_connection,
  channel_for, send_all, user_of_channel, add_connection,
}
use nexustal.Common.{
  ℕ, ◌+◌, ◌-◌, ◌≡◌, refl, sym, ap, ◌∙◌, subst, inl, inr, true, not, some, List, [], ◌∷◌, ◌++◌,
  append_assoc, append-nil, arith, eqb, if◌then◌else◌, Option-cases, Text, lit, ◌==◌, eq_iff,
  length, length-append, take-length, drop-length, take, drop, select, lookup, lookup-put,
  lookup-without,
}

-- Adding a stream puts it last among the user's streams; removing one takes it from the user's
-- streams; neither touches another user's.
pub add_remove-streams_of :
    (user_id other : Uuid) (stream : ℕ) (c : Connections)
    → (streams_of other (add_connection user_id stream c)
        ≡ (if user_id == other then streams_of other c ++ stream ∷ [] else streams_of other c))
      × (streams_of other (remove_connection user_id stream c) ≡ (
          if user_id == other
          then select (λ s. not (eqb s stream)) (streams_of other c)
          else streams_of other c))
unfolding add_connection remove_connection
add_remove-streams_of user_id other stream c = (
  ground (
    arith,
    lookup-put user_id other (streams_of user_id c ++ stream ∷ []) c.streams,
    eq_iff user_id other,
  ),
  elim (Option-cases (lookup user_id c.streams)) [
    | inl missing ↦ ground (arith, missing, eq_iff user_id other)
    | inr (ids, e) ↦ ground (
      arith,
      e,
      lookup-put user_id other (select (λ s. not (eqb s stream)) ids) c.streams,
      lookup-without user_id other c.streams,
      eq_iff user_id other,
    )
  ],
)

abbrev pub addressed : Text → List ℕ → List (ℕ × Text)
addressed text [] = []
addressed text (s ∷ ids) = (s, text) ∷ addressed text ids

pub send_all-addressed :
    (text : Text) (ids : List ℕ) (sent : List (ℕ × Text))
    → send_all text ids sent ≡ sent ++ addressed text ids
unfolding send_all
send_all-addressed text [] sent = sym (append-nil sent)
send_all-addressed text (s ∷ ids) sent =
    send_all-addressed text ids (sent ++ (s, text) ∷ []) ∙ append_assoc sent ((s, text) ∷ []) _

starts_with_own : (xs ys : Text) → starts_with xs (xs ++ ys) ≡ true
unfolding starts_with
starts_with_own [] ys = refl
starts_with_own (x ∷ xs) ys = ground (arith, starts_with_own xs ys)

behind :
    (prefix user_id suffix : Text) (n : ℕ)
    → n ≡ length prefix + length user_id
    → drop (prefix ++ (user_id ++ suffix)) n ≡ suffix
behind prefix user_id suffix n e =
    rw (e, sym (length-append prefix user_id), sym (append_assoc prefix user_id suffix))
      (drop-length (prefix ++ user_id) suffix)

starts_with_self : (xs : Text) → starts_with xs xs ≡ true
starts_with_self xs =
    subst (λ (t : Text). starts_with xs t ≡ true) (append-nil xs) (starts_with_own xs [])

prefix_size : length (lit "user:") ≡ 5
unfolding lit
prefix_size = refl

suffix_size : length (lit ":notifications") ≡ 14
unfolding lit
suffix_size = refl

length-channel_for : (user_id : Uuid) → length (channel_for user_id) ≡ 19 + length user_id
unfolding channel_for
length-channel_for user_id = omega (
  arith,
  prefix_size,
  suffix_size,
  length-append (lit "user:") (user_id ++ lit ":notifications"),
  length-append user_id (lit ":notifications"),
)

ends_with-channel_for :
    (user_id : Uuid) → ends_with (lit ":notifications") (channel_for user_id) ≡ true
unfolding ends_with channel_for
ends_with-channel_for user_id =
    let size = length-channel_for user_id in
    let n = length (channel_for user_id) - length (lit ":notifications") in
    let tail : drop (channel_for user_id) n ≡ lit ":notifications" =
      behind (lit "user:") user_id (lit ":notifications") n
        (omega (arith, size, prefix_size, suffix_size)) in
    ground (arith, size, suffix_size, tail, starts_with_self (lit ":notifications"))

middle-channel_for :
    (user_id : Uuid)
    → take (drop (channel_for user_id) 5) (copied (length (channel_for user_id))) ≡ user_id
unfolding channel_for
middle-channel_for user_id =
    let size = length-channel_for user_id in
    let count : copied (length (channel_for user_id)) ≡ length user_id = ground (arith, size) in
    let rest : drop (channel_for user_id) 5 ≡ user_id ++ lit ":notifications" =
      subst (λ n. drop (channel_for user_id) n ≡ user_id ++ lit ":notifications") prefix_size
        (drop-length (lit "user:") (user_id ++ lit ":notifications")) in
    subst (λ (n : ℕ). take (drop (channel_for user_id) 5) n ≡ user_id) (sym count)
      (ap (λ (t : Text). take t (length user_id)) rest ∙ take-length user_id (lit ":notifications"))

user_of_channel-channel_for :
    (user_id : Uuid) → user_of_channel (channel_for user_id) ≡ some user_id
unfolding user_of_channel channel_for
user_of_channel-channel_for user_id = ground (
  arith,
  starts_with_own (lit "user:") (user_id ++ lit ":notifications"),
  ends_with-channel_for user_id,
  middle-channel_for user_id,
)

-- A message that is published on a user's channel goes to each stream of that user once, in the
-- order of their opening, behind all that was sent before, and to no other stream; the streams
-- stay.
pub on_message-channel_for :
    (user_id : Uuid) (message : Text) (c : Connections)
    → on_message (channel_for user_id) message c ≡ record c {
      sent = c.sent ++ addressed (lit "data: " ++ (message ++ lit "\n\n")) (streams_of user_id c);
    }
unfolding on_message send_to_user
on_message-channel_for user_id message c =
    rw (user_of_channel-channel_for user_id, on_message)
      (ap (λ sent. record c { sent = sent }) (send_all-addressed _ (streams_of user_id c) c.sent))
