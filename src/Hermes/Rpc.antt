-- ===== src/Hermes/Rpc.antt =====
-- hermes/api/hermes-api.go: `RawRpcCall`, with direct publication.
use godev.Prelude.{
  ℕ, suc, Bool, List, [], ◌∷◌, Option, none, some, Bytes, ℤ, ◌==◌, bytes_eq, if◌then◌else◌, without,
}
use godev.Hermes.Name.{Name, new_name, rpc_inbox}
use godev.Hermes.Message.{
  ContentType, unspecified_content, protobuf, request, Message, rpc_header_of, SendMessageRequest,
}
use godev.Hermes.Mailbox.{
  Mailbox, Handled, handle_inbox, delivers, ignores, no_correlation, requests, no_handler,
  nil_dereference, register_correlation, remove_correlation,
}
use godev.Hermes.Store.{Services, Store}
use godev.Hermes.Publish.{Sent, direct_publish}

-- The headers go into the message unread.
pub record RpcRequest : Type 0 where
  pub to : Name
  pub end_point : Bytes
  pub channel : Name
  pub content_type : ContentType

-- What the wait for the callback ends in: the response, the end of the context, a reader that
-- panicked before, or a panic of the publication.
pub data Awaited : Type 0 where
  responds : Message → Awaited
  times_out reader_panics call_panics : Awaited

abbrev pub await_handled : ℕ → Message → Awaited → Handled → Awaited
await_handled ch msg rest (delivers ch') = if ch' == ch then responds msg else rest
await_handled ch msg rest ignores = rest
await_handled ch msg rest no_correlation = rest
await_handled ch msg rest requests = rest
await_handled ch msg rest no_handler = rest
await_handled ch msg rest nil_dereference = reader_panics

-- The messages of the inbox that the reader handles before the context ends.
unfoldable pub await : ℕ → Bool → List Message → ℕ → Mailbox → Awaited
await ch has_handler [] free m = times_out
await ch has_handler (msg ∷ inbox) free m =
    let (h, free') = handle_inbox (rpc_header_of msg.header) has_handler free m in
    await_handled ch msg (await ch has_handler inbox free' m) h

abbrev pub sent_content_type : ContentType → ContentType
sent_content_type unspecified_content = protobuf
sent_content_type t = t

abbrev pub call_message : ℤ → Bytes → Bytes → RpcRequest → Bytes → Message
call_message now sender id r body = record {
  header = some (record {
    sender = sender;
    content_type = sent_content_type r.content_type;
    rpc_header = some (record {
      correlation_id = id;
      end_point = r.end_point;
      frame_type = request;
      error_info = none;
    });
  });
  created = some now;
  data_bytes = body;
}

abbrev pub channel_of : RpcRequest → Bytes
channel_of r = if bytes_eq r.channel.text [] then rpc_inbox.text else r.channel.text

module _ (e : Services) where
  abbrev pub call_request : ℤ → Mailbox → RpcRequest → Bytes → Store → SendMessageRequest
  call_request now from r body s = record {
    to = r.to.text ∷ [];
    message =
        some
          (call_message now from.mailbox_address.text (without b'-' (e.new_uuid s.uuids)) r body);
    channel = channel_of r;
    idempotent_id = without b'-' (e.new_uuid (suc s.uuids));
  }

  abbrev pub registered : Mailbox → Name → ℕ → Mailbox
  registered from id ch = record from {
    correlations = register_correlation id ch from.correlations;
  }

  abbrev pub wait_for :
      Name → ℕ → Bool → List Message → Mailbox → Option Sent × Store → Awaited × (Mailbox × Store)
  wait_for id ch has_handler inbox from (none, s) =
      (call_panics, (record from { correlations = remove_correlation id from.correlations }, s))
  wait_for id ch has_handler inbox from (some sent, s) = (
    await ch has_handler inbox s.free sent.sender,
    (record sent.sender { correlations = remove_correlation id sent.sender.correlations }, s),
  )

  -- `RawRpcCall`; `ch` is the channel that it makes.
  unfoldable pub raw_rpc_call :
      ℤ
      → RpcRequest
      → Bytes
      → ℕ
      → Bool
      → List Message
      → Mailbox
      → Store
      → Awaited × (Mailbox × Store)
  raw_rpc_call now r body ch has_handler inbox from s =
      let (id, free) = new_name (without b'-' (e.new_uuid s.uuids)) s.free in
      let from' = registered from id ch in
      wait_for id ch has_handler inbox from' (
        direct_publish e now (call_request now from r body s) from'
          (record s { uuids = suc (suc s.uuids); free = suc free }))
