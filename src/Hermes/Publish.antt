-- ===== src/Hermes/Publish.antt =====
-- hermes/mailbox-store.go: `PublishMessage`, `PublishSendReceipt` and
-- `DirectPublishSendMessageRequestX`, with `JetStreamPublish` of a8nats/a8nats.go.
use godev.Prelude.{
  ◌==◌, ℕ, suc, Bool, true, false, ◌&&◌, List, [], ◌∷◌, ◌++◌, reverse, Option, none, some, Bytes,
  codes, ℤ, if◌then◌else◌, length, get_elem?, ltb, without,
}
use godev.Hermes.Name.{Name, new_name, rpc_sent}
use godev.Hermes.Mailbox.{Mailbox, nats_subject, has_sent}
use godev.Hermes.Message.{
  unspecified_content, request, RpcHeader, Message, rpc_header_of, SendMessageRequest,
  SendMessageError, SendMessageResponse, SendReceipt, error_response, unspecified, success_response,
}
use godev.Hermes.Store.{Services, Store, Publication, PublishError, not_marshalled, not_published}
use godev.Hermes.Lookup.{fetch_by_address}

-- What a publication gives: the flag `Duplicate` of the acknowledgement, or an error.
pub data Published : Type 0 where
  acked : Bool → Published
  refused : PublishError → Published

-- The option that `JetStreamPublish` gives to NATS.
unfoldable pub message_id_of : Bytes → Option Bytes
message_id_of [] = some []
message_id_of (c ∷ id) = none

abbrev pub published_of : Option Bool → Published
published_of none = refused not_published
published_of (some duplicate) = acked duplicate

-- The answers for the recipients, the latest first.
pub record Report : Type 0 where
  pub errors : List SendMessageError
  pub duplicates : List Bytes

abbrev pub not_found : Bytes → SendMessageError
not_found to = record { to = to; message = codes "mailbox address " ++ (to ++ codes " not found") }

abbrev pub is_request : Option RpcHeader → Bool
is_request none = false
is_request (some h) = elim h.frame_type [
  | unspecified ↦ false
  | request ↦ true
  | error_response ↦ false
  | success_response ↦ false
]

-- The loop that joins the texts of the errors.
unfoldable pub join_errors : Bytes → List SendMessageError → Bytes
join_errors text [] = text
join_errors [] (x ∷ xs) = join_errors x.message xs
join_errors (c ∷ text) (x ∷ xs) = join_errors ((c ∷ text) ++ (codes ", " ++ x.message)) xs

-- `request.Message.Header.Sender = …`; `none` where a pointer on the way is nil.
abbrev pub set_sender : Bytes → SendMessageRequest → Option SendMessageRequest
set_sender sender r = elim r.message [
  | none ↦ none
  | some m ↦ elim m.header [
    | none ↦ none
    | some h ↦
        some
          (record r { message = some (record m { header = some (record h { sender = sender }) }) })
  ]
]

-- The RPC header of the request's message.
abbrev pub rpc_header : SendMessageRequest → Option RpcHeader
rpc_header r = elim r.message [ none ↦ none | some m ↦ rpc_header_of m.header ]

abbrev pub correlation_id_of : Option RpcHeader → Bytes
correlation_id_of none = []
correlation_id_of (some h) = h.correlation_id

abbrev pub end_point_of : Option RpcHeader → Bytes
end_point_of none = []
end_point_of (some h) = h.end_point

abbrev pub error_message : ℤ → Bytes → Option RpcHeader → Bytes → Message
error_message now sender h text = record {
  header = some (record {
    sender = sender;
    content_type = unspecified_content;
    rpc_header = some (record {
      correlation_id = correlation_id_of h;
      end_point = end_point_of h;
      frame_type = error_response;
      error_info = some text;
    });
  });
  created = some now;
  data_bytes = [];
}

-- The end of a direct publication: the response, the receipt that a goroutine is to publish, the
-- sending mailbox.
pub record Sent : Type 0 where
  pub response : SendMessageResponse
  pub receipt : Option SendReceipt
  pub sender : Mailbox

module _ (e : Services) where
  -- `JetStreamPublish`
  unfoldable pub jet_stream_publish : Bytes → Bytes → Bytes → Store → Published × Store
  jet_stream_publish subject bytes id s =
      let p : Publication = record {
        subject = subject;
        bytes = bytes;
        message_id = message_id_of id;
      } in
      (published_of (e.publish_answer s.published p), record s { published = p ∷ s.published })

  abbrev pub publish_bytes : Bytes → Bytes → Option Bytes → Store → Published × Store
  publish_bytes subject id none s = (refused not_marshalled, s)
  publish_bytes subject id (some bytes) s = jet_stream_publish subject bytes id s

  -- `PublishMessage`
  unfoldable pub publish_message : Mailbox → Name → Message → Bytes → Store → Published × Store
  publish_message to channel msg id s =
      publish_bytes (nats_subject to channel) id (e.marshal_message msg) s

  -- `PublishSendReceipt`
  unfoldable pub publish_send_receipt : Mailbox → SendReceipt → Store → Published × Store
  publish_send_receipt m receipt s =
      publish_bytes (nats_subject m rpc_sent) [] (e.marshal_receipt receipt) s

  abbrev pub report : Bytes → Published → Report → Report
  report to (refused x) r = record r {
    errors = record { to = to; message = e.publish_error x } ∷ r.errors;
  }
  report to (acked true) r = record r { duplicates = to ∷ r.duplicates }
  report to (acked false) r = r

  -- One recipient: the channel and the identifier are allocated for each.
  abbrev pub send_found :
      Bytes → SendMessageRequest → Message → Option Mailbox → Report → Store → Report × Store
  send_found to r msg none report_so_far s =
      (record report_so_far { errors = not_found to ∷ report_so_far.errors }, s)
  send_found to r msg (some m) report_so_far s =
      let (channel, free) = new_name r.channel s.free in
      let (p, s') = publish_message m channel msg r.idempotent_id (record s { free = suc free }) in
      (report to p report_so_far, s')

  abbrev pub mailbox_at : Option ℕ → Store → Option Mailbox
  mailbox_at none s = none
  mailbox_at (some p) s = get_elem? s.mailboxes p

  unfoldable pub send_one : Bytes → SendMessageRequest → Message → Report → Store → Report × Store
  send_one to r msg report_so_far s =
      let (address, free) = new_name to s.free in
      let (p, s') = fetch_by_address e address (record s { free = free }) in
      send_found to r msg (mailbox_at p s') report_so_far s'

  unfoldable pub send_all :
      List Bytes → SendMessageRequest → Message → Report → Store → Report × Store
  send_all [] r msg report_so_far s = (report_so_far, s)
  send_all (to ∷ tos) r msg report_so_far s =
      let (report', s') = send_one to r msg report_so_far s in send_all tos r msg report' s'

  -- Whether all recipients of an RPC request failed.
  abbrev pub all_failed : SendMessageRequest → List SendMessageError → Bool
  all_failed r errors =
      ltb 0 (length errors) && (length errors == length r.to && is_request (rpc_header r))

  -- The synthesized error response; what its publication gives is logged and dropped.
  abbrev pub respond_error :
      ℤ → SendMessageRequest → List SendMessageError → Mailbox → Store → Store
  respond_error now r errors from s =
      let (channel, free) = new_name r.channel s.free in
      (publish_message from channel
        (error_message now from.mailbox_address.text (rpc_header r) (join_errors [] errors))
        (without b'-' (e.new_uuid s.uuids)) (record s { uuids = suc s.uuids; free = suc free })).1

  abbrev pub receipt_of : SendMessageRequest → SendMessageResponse → Bool × Mailbox → Sent
  receipt_of r response (has, from) = record {
    response = response;
    receipt = if has then some (record { request = r; response = response }) else none;
    sender = from;
  }

  abbrev pub finish_send : ℤ → SendMessageRequest → Mailbox → Report × Store → Sent × Store
  finish_send now r from (rep, s) =
      let errors = reverse rep.errors in
      (
        receipt_of r
            (record {
              idempotent_id = r.idempotent_id;
              errors = errors;
              duplicates = reverse rep.duplicates;
              correlation_id = correlation_id_of (rpc_header r);
            })
            (has_sent from),
        (if all_failed r errors then respond_error now r errors from s else s),
      )

  abbrev pub send_message :
      ℤ → SendMessageRequest → Mailbox → Option Message → Store → Option Sent × Store
  send_message now r from none s = (none, s)
  send_message now r from (some msg) s =
      let (sent, s') =
        finish_send now r from (send_all r.to r msg (record { errors = []; duplicates = [] }) s) in
      (some sent, s')

  abbrev pub send_request : ℤ → Mailbox → Option SendMessageRequest → Store → Option Sent × Store
  send_request now from none s = (none, s)
  send_request now from (some r) s = send_message now r from r.message s

  -- `DirectPublishSendMessageRequestX`; no result is a run-time panic.
  unfoldable pub direct_publish : ℤ → SendMessageRequest → Mailbox → Store → Option Sent × Store
  direct_publish now r from s = send_request now from (set_sender from.mailbox_address.text r) s
