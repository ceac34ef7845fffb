-- ===== src/Hermes/Fixtures.antt =====
-- Concrete stores, mailboxes and messages of the broker, for its tests.
use godev.Prelude.{
  ℕ, suc, true, false, List, [], ◌∷◌, map, Option, none, some, Bytes, codes, pos, replicate,
}
use godev.Hermes.Name.{Name, rpc_sent, rpc_inbox}
use godev.Hermes.Message.{protobuf, request, RpcHeader, MessageHeader, Message, SendMessageRequest}
use godev.Hermes.Mailbox.{Mailbox}
use godev.Hermes.Store.{MailboxFields, Services, Bucket, Store}
use godev.Hermes.Lookup.{CreateMailboxRequest}

-- The n-th identifier is the letter a, n + 1 times. JSON is the administration key alone.
abbrev pub fields : Bytes → MailboxFields
fields key = record {
  mailbox_address = codes "aa";
  reader_key = codes "rr";
  admin_key = key;
  last_activity = pos 1;
  channels = [];
  public_metadata = [];
  private_metadata = [];
  purge_timeout_in_millis = pos 0;
  close_timeout_in_millis = pos 0;
  is_named = false;
}

abbrev pub list_all : Bucket → Option (List Bytes)
list_all [] = none
list_all (x ∷ kv) = some (map (λ (y : Bytes × Bytes). y.0) (x ∷ kv))

abbrev pub server : Services
server = record {
  new_uuid = λ n. replicate (suc n) b'a';
  to_json = λ f. some f.admin_key;
  from_json = λ json. some (fields json);
  get_ok = λ k. true;
  put_ok = λ k. true;
  info_ok = λ n. true;
  add_stream_ok = λ n. true;
  delete_stream_ok = λ n. true;
  delete_ok = λ k. true;
  list_keys = list_all;
  nil_metadata = some (codes "{}");
  marshal_message = λ m. some m.data_bytes;
  marshal_receipt = λ r. some [];
  publish_answer = λ before p. some false;
  publish_error = λ x. codes "error";
}

-- Two addresses are those of `rpc_sent` and `rpc_inbox`.
abbrev pub empty_store : Store
empty_store = record {
  admin_kv = [];
  rw_kv = [];
  in_memory = [];
  mailboxes = [];
  streams = [];
  published = [];
  uuids = 0;
  free = 2;
}

abbrev pub one_key : Store
one_key = record empty_store { admin_kv = (codes "zzq", codes "zzq") ∷ []; free = 9 }

abbrev pub key_name : ℕ → Bytes → Name
key_name n s = record { address = n; text = s }

abbrev pub alice : Mailbox
alice = record {
  keys = record {
    mailbox_address = key_name 2 (codes "alice");
    reader_key = key_name 3 (codes "rra");
    admin_key = key_name 4 (codes "zza");
  };
  last_activity = pos 5;
  channels = rpc_sent ∷ rpc_inbox ∷ [];
  public_metadata = [];
  private_metadata = [];
  purge_timeout_in_millis = pos 0;
  close_timeout_in_millis = pos 0;
  sent = none;
  correlations = (key_name 7 (codes "id"), 1) ∷ [];
  is_named = true;
  needs_update = true;
}

abbrev pub two_channels : CreateMailboxRequest
two_channels = record {
  public_metadata = some (codes "{}");
  private_metadata = some (codes "{}");
  purge_timeout_in_millis = pos 0;
  close_timeout_in_millis = pos 0;
  channels = codes "news" ∷ codes "news" ∷ [];
}

abbrev pub call_header : RpcHeader
call_header = record {
  correlation_id = codes "id";
  end_point = codes "time";
  frame_type = request;
  error_info = none;
}

abbrev pub header : MessageHeader
header = record { sender = []; content_type = protobuf; rpc_header = some call_header }

abbrev pub call : Message
call = record { header = some header; created = none; data_bytes = codes "now" }

abbrev pub call_bob : SendMessageRequest
call_bob = record {
  to = codes "bob" ∷ [];
  message = some call;
  channel = codes "rpc-inbox";
  idempotent_id = [];
}
