-- ===== src/Hermes/Session/Running.antt =====
-- hermes/activews.go: the subscriptions of a session from its first message on.
use godev.Prelude.{
  true, List, [], ◌∷◌, Option, none, some, Bytes, get, All, ◌≡◌, inl, inr, refl, Bool-cases,
  Option-cases,
}
use godev.Hermes.Message.{SendMessageRequest}
use godev.Hermes.Session.{
  Broker, Subscription, change_data_capture, mailbox, nefario, unsubscribe, no_subscription,
  FirstMessage, FromClient, first_message, send_message_request, subscribe_request, ping, pong,
  notification_from, other_message, SubscribeResponse, ClientSubscription, Queue, queue_of, Session,
  new_session, register_client_sub, register_subjects, wal_subscription, un_register_sub,
  all_subjects,
}
use godev.Hermes.Session.Reader.{
  found_mailbox, register_mailbox_sub, register_subscription, register_subscriptions,
  first_subscription, first_subscriptions, publish_request, handle_from_client, run_client_reader,
  with_mailbox, start_protocol, start_by,
}
use godev.Hermes.Session.Stopping.{
  NoneEnded, register_client_sub-NoneEnded, un_register_sub-NoneEnded, Unstoppable, Started,
}

register_subjects-NoneEnded :
    (id start_seq : Bytes) (js : List Bytes) (s : Session)
    → NoneEnded s
    → NoneEnded (register_subjects id start_seq js s)
unfolding register_subjects
register_subjects-NoneEnded id start_seq [] s w = w
register_subjects-NoneEnded id start_seq (j ∷ js) s w =
    register_subjects-NoneEnded id start_seq js
      (register_client_sub (wal_subscription id start_seq j) s)
      (register_client_sub-NoneEnded (wal_subscription id start_seq j) s refl w)

-- The subscriptions of an identifier, if it has any, had their queues started.
abbrev pub AllStarted : List Queue → Option (List ClientSubscription) → Type 0
AllStarted qs none = Unit
AllStarted qs (some subs) = All (λ c. Started (queue_of c) qs) subs

queues-Started :
    (qs : List Queue) (subs : List ClientSubscription)
    → All (Unstoppable qs) subs
    → All (λ c. Started (queue_of c) qs) subs
queues-Started qs [] h = tt
queues-Started qs (c ∷ cs) ((n, r), h) = (r, queues-Started qs cs h)

NoneEnded-AllStarted :
    (s : Session) (id : Bytes) → NoneEnded s → AllStarted s.queues (get id s.subscriptions_by_id)
NoneEnded-AllStarted s id w = elim (Option-cases (get id s.subscriptions_by_id)) [
  | inl e ↦ rw e tt
  | inr (subs, e) ↦ rw e (queues-Started s.queues subs (w.all_started id subs e))
]

module _ {M B : Type 0} (e : Broker M B) where
  found_mailbox-NoneEnded :
      (id start_seq channel : Bytes) (r : Option M × B) (s : Session)
      → NoneEnded s
      → NoneEnded (found_mailbox e id start_seq channel r s).1.0
  found_mailbox-NoneEnded id start_seq channel (none, b) s w = w
  found_mailbox-NoneEnded id start_seq channel (some m, b) s w =
      register_client_sub-NoneEnded _ s refl w

  register_mailbox_sub-NoneEnded :
      (id start_seq key channel : Bytes) (s : Session) (b : B)
      → NoneEnded s
      → NoneEnded (register_mailbox_sub e id start_seq key channel s b).1.0
  unfolding register_mailbox_sub
  register_mailbox_sub-NoneEnded id start_seq key channel s b w =
      found_mailbox-NoneEnded id start_seq channel (e.fetch_by_reader_key key b) s w

  register_subscription-NoneEnded :
      (sub : Subscription) (s : Session) (b : B) (r : SubscribeResponse)
      → NoneEnded s
      → NoneEnded (register_subscription e sub s b r).1.0
  register_subscription-NoneEnded (change_data_capture id start_seq state rms) s b r w =
      register_subjects-NoneEnded id start_seq (all_subjects rms) s w
  register_subscription-NoneEnded (mailbox id start_seq state key channel) s b r w =
      register_mailbox_sub-NoneEnded id start_seq key channel s b w
  register_subscription-NoneEnded (nefario id start_seq state uid channel) s b r w =
      register_client_sub-NoneEnded _ s refl w
  register_subscription-NoneEnded (unsubscribe id) s b r w = w
  register_subscription-NoneEnded no_subscription s b r w = w

  register_subscriptions-NoneEnded :
      (subs : List Subscription) (s : Session) (b : B) (r : SubscribeResponse)
      → NoneEnded s
      → NoneEnded (register_subscriptions e subs s b r).1.0
  unfolding register_subscriptions
  register_subscriptions-NoneEnded [] s b r w = w
  register_subscriptions-NoneEnded (sub ∷ subs) s b r w =
      let out = register_subscription e sub s b r in
      register_subscriptions-NoneEnded subs out.1.0 out.1.1 out.0
        (register_subscription-NoneEnded sub s b r w)

  first_subscription-NoneEnded :
      (sub : Subscription) (s : Session) (b : B)
      → NoneEnded s
      → NoneEnded (first_subscription e sub s b).0
  first_subscription-NoneEnded (change_data_capture id start_seq state rms) s b w = w
  first_subscription-NoneEnded (mailbox id start_seq state key channel) s b w =
      register_mailbox_sub-NoneEnded id start_seq key channel s b w
  first_subscription-NoneEnded (nefario id start_seq state uid channel) s b w =
      register_client_sub-NoneEnded _ s refl w
  first_subscription-NoneEnded (unsubscribe id) s b w = (un_register_sub-NoneEnded id s w).0
  first_subscription-NoneEnded no_subscription s b w = w

  first_subscriptions-NoneEnded :
      (subs : List Subscription) (s : Session) (b : B)
      → NoneEnded s
      → NoneEnded (first_subscriptions e subs s b).0
  unfolding first_subscriptions
  first_subscriptions-NoneEnded [] s b w = w
  first_subscriptions-NoneEnded (sub ∷ subs) s b w =
      let out = first_subscription e sub s b in
      first_subscriptions-NoneEnded subs out.0 out.1 (first_subscription-NoneEnded sub s b w)

  send_request-NoneEnded :
      (m : M) (r : SendMessageRequest) (s : Session) (b : B)
      → NoneEnded s
      → NoneEnded (publish_request e m r s b).0
  send_request-NoneEnded m r s b w = elim (Bool-cases s.address_verified) [
    | inl h ↦ rw h (record { none_ended = w.none_ended; all_started = w.all_started })
    | inr h ↦ rw h (record { none_ended = w.none_ended; all_started = w.all_started })
  ]

  handle_from_client-NoneEnded :
      (m : M) (msg : FromClient) (s : Session) (b : B)
      → NoneEnded s
      → NoneEnded (handle_from_client e m msg s b).0
  handle_from_client-NoneEnded m (send_message_request r) s b w = send_request-NoneEnded m r s b w
  handle_from_client-NoneEnded m (ping payload) s b w = record {
    none_ended = w.none_ended;
    all_started = w.all_started;
  }
  handle_from_client-NoneEnded m (subscribe_request subs) s b w =
      let v =
        register_subscriptions-NoneEnded subs s b (record { errors = []; succeeded = [] }) w in
      record { none_ended = v.none_ended; all_started = v.all_started }
  handle_from_client-NoneEnded m pong s b w = w
  handle_from_client-NoneEnded m notification_from s b w = w
  handle_from_client-NoneEnded m other_message s b w = w
  handle_from_client-NoneEnded m (first_message f) s b w = w

  run_client_reader-NoneEnded :
      (m : M) (reads : List (Option FromClient)) (s : Session) (b : B)
      → NoneEnded s
      → NoneEnded (run_client_reader e m reads s b).1.0
  unfolding run_client_reader
  run_client_reader-NoneEnded m [] s b w = w
  run_client_reader-NoneEnded m (none ∷ reads) s b w = w
  run_client_reader-NoneEnded m (some msg ∷ reads) s b w =
      let out = handle_from_client e m msg s (e.touch m (e.touch m b)) in
      run_client_reader-NoneEnded m reads out.0 out.1
        (handle_from_client-NoneEnded m msg s (e.touch m (e.touch m b)) w)

  with_mailbox-NoneEnded :
      (f : FirstMessage) (reads : List (Option FromClient)) (s : Session) (r : Option M × B)
      → NoneEnded s
      → NoneEnded (with_mailbox e f reads s r).1.0
  with_mailbox-NoneEnded f reads s (none, b) w = record {
    none_ended = w.none_ended;
    all_started = w.all_started;
  }
  with_mailbox-NoneEnded f reads s (some m, b) w =
      let same = e.same_address m f.address b in
      let started = record s { address_verified = same.0; registered = true } in
      let start = first_subscriptions e f.subscriptions started (e.touch m same.1) in
      run_client_reader-NoneEnded m reads start.0 start.1 (
        first_subscriptions-NoneEnded f.subscriptions started (e.touch m same.1)
          (record { none_ended = w.none_ended; all_started = w.all_started }))

  start_by-NoneEnded :
      (reads : List (Option FromClient)) (s : Session) (b : B) (first : Option FromClient)
      → NoneEnded s
      → NoneEnded (start_by e reads s b first).1.0
  start_by-NoneEnded reads s b none w = w
  start_by-NoneEnded reads s b (some (first_message f)) w =
      with_mailbox-NoneEnded f reads s (e.fetch_by_reader_key f.reader_key b) w
  start_by-NoneEnded reads s b (some (send_message_request r)) w = w
  start_by-NoneEnded reads s b (some (subscribe_request subs)) w = w
  start_by-NoneEnded reads s b (some (ping p)) w = w
  start_by-NoneEnded reads s b (some pong) w = w
  start_by-NoneEnded reads s b (some notification_from) w = w
  start_by-NoneEnded reads s b (some other_message) w = w

  new_session-NoneEnded : NoneEnded new_session
  unfolding get
  new_session-NoneEnded = record { none_ended = refl; all_started = λ k subs e. absurd (cc) }

  -- A session, whatever the broker answers and the client sends, first and later: for every
  -- subscription under an identifier a queue was started. Unregistering the identifier takes its
  -- subscriptions from the map and changes nothing else of the session: no NATS subscription is ended,
  -- then or before, and the session is not shut down, so that it tells none of the queues to end.
  pub start_protocol-un_register_sub :
      (first : Option FromClient) (reads : List (Option FromClient)) (b : B) (id : Bytes)
      → (let s = (start_protocol e first reads new_session b).1.0 in
          let s' = (un_register_sub id s).1 in
          AllStarted s.queues (get id s.subscriptions_by_id)
          × (get id s'.subscriptions_by_id ≡ none)
          × (s' ≡ record s { subscriptions_by_id = s'.subscriptions_by_id })
          × (s'.unsubscribed ≡ []))
  unfolding start_protocol
  start_protocol-un_register_sub first reads b id =
      let s = (start_protocol e first reads new_session b).1.0 in
      let w = start_by-NoneEnded reads new_session b first new_session-NoneEnded in
      let (v, gone, same) = un_register_sub-NoneEnded id s w in
      (NoneEnded-AllStarted s id w, gone, same, v.none_ended)
