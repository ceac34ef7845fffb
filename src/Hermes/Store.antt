-- ===== src/Hermes/Store.antt =====
-- hermes/mailbox-store.go: the two key-value buckets of NATS, the cache in memory, and the operations
-- on them. The store's mutex makes each operation one step; an operation gives its result and the
-- store that it leaves behind.
use godev.Prelude.{
  ℕ, Bool, true, false, ◌&&◌, ◌||◌, List, [], ◌∷◌, ◌++◌, map, Option, none, some, Bytes, ℤ,
  bytes_eq, if◌then◌else◌, put, without,
}
use godev.Hermes.Message.{Message, SendReceipt}
use godev.Hermes.Name.{Name, same, new_name, new_names, rpc_sent}
use godev.Hermes.Mailbox.{Mailbox, is_valid_channel, nats_stream_name}

pub data StoreError : Type 0 where
  channel_exists channel_empty stream_not_added : StoreError
  bad_public_metadata bad_private_metadata bad_mailbox : StoreError
  duplicate_address duplicate_reader_key duplicate_admin_key : StoreError

pub data Result (A : Type 0) : Type 0 where
  ok : A → Result A
  err : StoreError → Result A

-- What a mailbox has in JSON: the exported fields, names as texts.
pub record MailboxFields : Type 0 where
  pub mailbox_address : Bytes
  pub reader_key : Bytes
  pub admin_key : Bytes
  pub last_activity : ℤ
  pub channels : List Bytes
  pub public_metadata : Bytes
  pub private_metadata : Bytes
  pub purge_timeout_in_millis : ℤ
  pub close_timeout_in_millis : ℤ
  pub is_named : Bool

abbrev pub fields_of : Mailbox → MailboxFields
fields_of m = record {
  mailbox_address = m.mailbox_address.text;
  reader_key = m.reader_key.text;
  admin_key = m.admin_key.text;
  last_activity = m.last_activity;
  channels = map (λ (n : Name). n.text) m.channels;
  public_metadata = m.public_metadata;
  private_metadata = m.private_metadata;
  purge_timeout_in_millis = m.purge_timeout_in_millis;
  close_timeout_in_millis = m.close_timeout_in_millis;
  is_named = m.is_named;
}

-- `json.Unmarshal` into a new mailbox allocates every name.
unfoldable pub mailbox_of : MailboxFields → ℕ → Mailbox × ℕ
mailbox_of f free =
    let (a, free1) = new_name f.mailbox_address free in
    let (r, free2) = new_name f.reader_key free1 in
    let (z, free3) = new_name f.admin_key free2 in
    let (cs, free4) = new_names f.channels free3 in
    (
      record {
        keys = record { mailbox_address = a; reader_key = r; admin_key = z };
        last_activity = f.last_activity;
        channels = cs;
        public_metadata = f.public_metadata;
        private_metadata = f.private_metadata;
        purge_timeout_in_millis = f.purge_timeout_in_millis;
        close_timeout_in_millis = f.close_timeout_in_millis;
        sent = none;
        correlations = [];
        is_named = f.is_named;
        needs_update = false;
      },
      free4,
    )

-- What is given to JetStream: `message_id` is the option `nats.MsgId`.
pub record Publication : Type 0 where
  pub subject : Bytes
  pub bytes : Bytes
  pub message_id : Option Bytes

pub data PublishError : Type 0 where
  not_marshalled not_published : PublishError

-- Code of other packages: the texts of `uuid.NewString` by the number of calls, encoding/json on a
-- mailbox, and the answers of the NATS server: whether a bucket answers for a key, whether it takes a value, whether
-- it deletes a key, the keys that it lists, whether `StreamInfo` answers, whether `AddStream` and
-- `DeleteStream` succeed, and the answer to a publication after those before. `nil_metadata` is
-- `MarshalJSON` of a nil struct; the two `marshal` fields are `proto.Marshal`.
pub record Services : Type 0 where
  pub new_uuid : ℕ → Bytes
  pub to_json : MailboxFields → Option Bytes
  pub from_json : Bytes → Option MailboxFields
  pub get_ok : Bytes → Bool
  pub put_ok : Bytes → Bool
  pub info_ok : Bytes → Bool
  pub add_stream_ok : Bytes → Bool
  pub delete_stream_ok : Bytes → Bool
  pub delete_ok : Bytes → Bool
  pub list_keys : List (Bytes × Bytes) → Option (List Bytes)
  pub nil_metadata : Option Bytes
  pub marshal_message : Message → Option Bytes
  pub marshal_receipt : SendReceipt → Option Bytes
  pub publish_answer : List Publication → Publication → Option Bool
  pub publish_error : PublishError → Bytes

abbrev pub Bucket : Type 0
Bucket = List (Bytes × Bytes)

-- A mailbox is a place in the list `mailboxes`, so that the cache may hold it under three keys.
-- `published` has the latest
-- publication first, refused ones included. `free` is the next free address for a name.
pub record Store : Type 0 where
  pub admin_kv : Bucket
  pub rw_kv : Bucket
  pub in_memory : List (Bytes × ℕ)
  pub mailboxes : List Mailbox
  pub streams : List Bytes
  pub published : List Publication
  pub uuids : ℕ
  pub free : ℕ

unfoldable pub is_stream : Bytes → List Bytes → Bool
is_stream n [] = false
is_stream n (s ∷ ss) = bytes_eq s n || is_stream n ss

-- `prefix + prefix + strings.Replace(uuid, "-", "", -1)`
abbrev pub random_key : Bytes → Bytes → Bytes
random_key prefix uuid = prefix ++ (prefix ++ without b'-' uuid)

module _ (e : Services) where
  -- `kv.Put`, whose error is logged and dropped.
  abbrev pub put_kv : Bytes → Bytes → Bucket → Bucket
  put_kv k v kv = if e.put_ok k then put k v kv else kv

  abbrev pub write_json : Mailbox → Option Bytes → Store → Store
  write_json m none s = s
  write_json m (some json) s = record s { admin_kv = put_kv m.admin_key.text json s.admin_kv }

  -- `UpdateMailbox`
  unfoldable pub update_mailbox : Mailbox → Store → Store
  update_mailbox m s = write_json m (e.to_json (fields_of m)) s

  -- The stream of a channel, made if there is none.
  unfoldable pub make_stream : Bytes → Store → Option Store
  make_stream name s =
      if e.info_ok name && is_stream name s.streams
      then some s
      else if e.add_stream_ok name
      then some (record s { streams = name ∷ s.streams })
      else none

  abbrev pub append_channel : Mailbox → Name → Bool → Option Store → Store → Result Mailbox × Store
  append_channel m channel update none s = (err stream_not_added, s)
  append_channel m channel update (some s') s =
      let m' : Mailbox = record m {
        sent = if same channel rpc_sent then some true else m.sent;
        channels = m.channels ++ channel ∷ [];
      } in
      (ok m', if update then update_mailbox m' s' else s')

  -- `AddChannel`
  unfoldable pub add_channel : Mailbox → Name → Bool → Store → Result Mailbox × Store
  add_channel m channel update s =
      if is_valid_channel m channel
      then (err channel_exists, s)
      else if bytes_eq channel.text []
      then (err channel_empty, s)
      else append_channel m channel update (make_stream (nats_stream_name m channel) s) s

  abbrev pub or_refuse :
      (Mailbox → Store → Result Mailbox × Store) → Result Mailbox × Store → Result Mailbox × Store
  or_refuse next (ok m, s) = next m s
  or_refuse next (err x, s) = (err x, s)

  -- The loop over the channels of a request.
  unfoldable pub add_channels : Mailbox → List Name → Store → Result Mailbox × Store
  add_channels m [] s = (ok m, s)
  add_channels m (c ∷ cs) s = or_refuse (λ m' s'. add_channels m' cs s') (add_channel m c false s)
