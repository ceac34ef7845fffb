-- ===== src/Hermes/Session/Reader.antt =====
-- hermes/activews.go: what a session does with the client's messages, over the mailboxes of a broker.
use godev.Prelude.{
  Bool, true, false, List, [], ◌∷◌, ◌++◌, Option, none, some, Bytes, codes, if◌then◌else◌,
}
use godev.Hermes.Message.{SendMessageRequest}
use godev.Hermes.Session.{
  Broker, Subscription, change_data_capture, mailbox, nefario, unsubscribe, no_subscription,
  FirstMessage, FromClient, first_message, send_message_request, subscribe_request, ping, pong,
  notification_from, other_message, SubscribeResponse, ToClient, notification,
  send_message_response, subscribe_response, pong_to, ClientSubscription, Session,
  register_client_sub, register_change_data_capture_sub, register_nefario_sub,
  two_part_subscription, un_register_sub, end_nats,
}

abbrev pub send : ToClient → Session → Session
send m s = record s { sent = m ∷ s.sent }

-- How a session ends, or that its reader waits for the next message.
pub data SessionEnd : Type 0 where
  read_failed mailbox_not_found unexpected_message waiting : SessionEnd

abbrev pub not_found_text : Bytes → Bytes
not_found_text key = codes "error mbox " ++ (key ++ codes " not found")

abbrev pub refused_text : Bytes
refused_text = codes "cannot process SendMessageRequest no address has been sent in the FirstMessge"

-- The errors of the registrations, as the client is told them.
abbrev pub no_mailbox_text : Bytes → Bytes
no_mailbox_text key = codes "error mbox reader key " ++ (key ++ codes " not found ")

abbrev pub unknown_text : Bytes
unknown_text = codes "unknown subscription type"

module _ {M B : Type 0} (e : Broker M B) where
  abbrev pub found_mailbox : Bytes → Bytes → Bytes → Option M × B → Session → Bool × (Session × B)
  found_mailbox id start_seq channel (none, b) s = (false, (s, b))
  found_mailbox id start_seq channel (some m, b) s = (
    true,
    (
      register_client_sub
          (two_part_subscription (codes "hermes") id start_seq (e.admin_key m b) channel) s,
      b,
    ),
  )

  -- `RegisterMailboxSub`: whether the mailbox was found.
  unfoldable pub register_mailbox_sub :
      Bytes → Bytes → Bytes → Bytes → Session → B → Bool × (Session × B)
  register_mailbox_sub id start_seq reader_key channel s b =
      found_mailbox id start_seq channel (e.fetch_by_reader_key reader_key b) s

  abbrev pub add_result : Bytes → Bytes → Bool → SubscribeResponse → SubscribeResponse
  add_result state text true r = record r { succeeded = r.succeeded ++ state ∷ [] }
  add_result state text false r = record r { errors = r.errors ++ (state, text) ∷ [] }

  -- One subscription of a request; an unsubscription is of an unknown type here, and has no state.
  abbrev pub register_subscription :
      Subscription → Session → B → SubscribeResponse → SubscribeResponse × (Session × B)
  register_subscription (change_data_capture id start_seq state rms) s b r =
      (add_result state [] true r, (register_change_data_capture_sub id start_seq rms s, b))
  register_subscription (mailbox id start_seq state key channel) s b r =
      let out = register_mailbox_sub id start_seq key channel s b in
      (add_result state (no_mailbox_text key) out.0 r, out.1)
  register_subscription (nefario id start_seq state uid channel) s b r =
      (add_result state [] true r, (register_nefario_sub id start_seq uid channel s, b))
  register_subscription (unsubscribe id) s b r = (add_result [] unknown_text false r, (s, b))
  register_subscription no_subscription s b r = (add_result [] unknown_text false r, (s, b))

  -- `RegisterSubscriptions`, with the response so far.
  unfoldable pub register_subscriptions :
      List Subscription → Session → B → SubscribeResponse → SubscribeResponse × (Session × B)
  register_subscriptions [] s b r = (r, (s, b))
  register_subscriptions (sub ∷ subs) s b r =
      let out = register_subscription sub s b r in register_subscriptions subs out.1.0 out.1.1 out.0

  -- A subscription of the first message; one to change data capture is passed over, and errors are logged.
  abbrev pub first_subscription : Subscription → Session → B → Session × B
  first_subscription (change_data_capture id start_seq state rms) s b = (s, b)
  first_subscription (mailbox id start_seq state key channel) s b =
      (register_mailbox_sub id start_seq key channel s b).1
  first_subscription (nefario id start_seq state uid channel) s b =
      (register_nefario_sub id start_seq uid channel s, b)
  first_subscription (unsubscribe id) s b = ((un_register_sub id s).1, b)
  first_subscription no_subscription s b = (s, b)

  unfoldable pub first_subscriptions : List Subscription → Session → B → Session × B
  first_subscriptions [] s b = (s, b)
  first_subscriptions (sub ∷ subs) s b =
      let out = first_subscription sub s b in first_subscriptions subs out.0 out.1

  abbrev pub publish_request : M → SendMessageRequest → Session → B → Session × B
  publish_request m r s b =
      if s.address_verified
      then (let out = e.publish m r b in (send (send_message_response out.0) s, out.1))
      else (send (notification refused_text) s, b)

  -- The switch of `runClientReader`.
  abbrev pub handle_from_client : M → FromClient → Session → B → Session × B
  handle_from_client m (send_message_request r) s b = publish_request m r s b
  handle_from_client m (ping payload) s b = (send (pong_to payload) s, b)
  handle_from_client m (subscribe_request subs) s b =
      let out = register_subscriptions subs s b (record { errors = []; succeeded = [] }) in
      (send (subscribe_response out.0) out.1.0, out.1.1)
  handle_from_client m pong s b = (s, b)
  handle_from_client m notification_from s b = (s, b)
  handle_from_client m other_message s b = (s, b)
  handle_from_client m (first_message f) s b = (s, b)

  -- `runClientReader`, for what ReadMessage gives; none is an error. The activity of the mailbox is
  -- marked twice.
  unfoldable pub run_client_reader :
      M → List (Option FromClient) → Session → B → SessionEnd × (Session × B)
  run_client_reader m [] s b = (waiting, (s, b))
  run_client_reader m (none ∷ reads) s b = (read_failed, (s, b))
  run_client_reader m (some msg ∷ reads) s b =
      let out = handle_from_client m msg s (e.touch m (e.touch m b)) in
      run_client_reader m reads out.0 out.1

  abbrev pub with_mailbox :
      FirstMessage → List (Option FromClient) → Session → Option M × B → SessionEnd × (Session × B)
  with_mailbox f reads s (none, b) =
      (mailbox_not_found, (send (notification (not_found_text f.reader_key)) s, b))
  with_mailbox f reads s (some m, b) =
      let same = e.same_address m f.address b in
      let start =
        first_subscriptions f.subscriptions
          (record s { address_verified = same.0; registered = true }) (e.touch m same.1) in
      run_client_reader m reads start.0 start.1

  abbrev pub start_by :
      List (Option FromClient) → Session → B → Option FromClient → SessionEnd × (Session × B)
  start_by reads s b none = (read_failed, (s, b))
  start_by reads s b (some (first_message f)) =
      with_mailbox f reads s (e.fetch_by_reader_key f.reader_key b)
  start_by reads s b (some (send_message_request r)) = (unexpected_message, (s, b))
  start_by reads s b (some (subscribe_request subs)) = (unexpected_message, (s, b))
  start_by reads s b (some (ping p)) = (unexpected_message, (s, b))
  start_by reads s b (some pong) = (unexpected_message, (s, b))
  start_by reads s b (some notification_from) = (unexpected_message, (s, b))
  start_by reads s b (some other_message) = (unexpected_message, (s, b))

  -- `StartProtocol`, for the first message and what is read after it.
  unfoldable pub start_protocol :
      Option FromClient → List (Option FromClient) → Session → B → SessionEnd × (Session × B)
  start_protocol first reads s b = start_by reads s b first

abbrev pub end_all : List (Bytes × List ClientSubscription) → Session → Session
end_all [] s = s
end_all ((id, subs) ∷ rest) s = end_all rest (end_nats subs s)

-- `Shutdown`: a nil subscription is not valid, and is passed over.
unfoldable pub shutdown : Session → Session
shutdown s =
    if s.is_shutdown then s else end_all s.subscriptions_by_id (record s { is_shutdown = true })
