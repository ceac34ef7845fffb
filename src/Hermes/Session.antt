-- ===== src/Hermes/Session.antt =====
-- hermes/activews.go: the session of a client, from its first message to the end of its reader, and the
-- subscriptions that it registers. Sending to the client is recorded, the latest message first; errors of
-- sending are only logged. Pings are answered by goroutines of their own, here in the order of reading.

pub mod Stopping
pub mod Running
pub mod Reader
pub mod Brokered
mod Tests
use godev.Prelude.{
  ℕ, Bool, true, false, List, [], ◌∷◌, ◌++◌, map, replicate, length, Option, none, some, Bytes,
  codes, get, put, delete, if◌then◌else◌,
}
use godev.Hermes.Message.{SendMessageRequest, SendMessageResponse}

-- The mailboxes as a session uses them; M is a mailbox, B the state behind it.
pub record Broker (M B : Type 0) : Type 0 where
  pub fetch_by_reader_key : Bytes → B → Option M × B
  pub same_address : M → Bytes → B → Bool × B
  pub admin_key : M → B → Bytes
  pub touch : M → B → B
  pub publish : M → SendMessageRequest → B → Option SendMessageResponse × B

-- `RecordMatcher`; a key is its text in the format "%s", or none for a nil pointer.
pub record RecordMatcher : Type 0 where
  pub database : Bytes
  pub table : Bytes
  pub primary_keys : List (Option Bytes)

-- `Subscription`, by its oneof.
pub data Subscription : Type 0 where
  change_data_capture : (id start_seq state : Bytes) → List RecordMatcher → Subscription
  mailbox : (id start_seq state reader_key channel : Bytes) → Subscription
  nefario : (id start_seq state process_uid channel : Bytes) → Subscription
  unsubscribe : (id : Bytes) → Subscription
  no_subscription : Subscription

pub record FirstMessage : Type 0 where
  pub reader_key : Bytes
  pub address : Bytes
  pub subscriptions : List Subscription

pub data FromClient : Type 0 where
  first_message : FirstMessage → FromClient
  send_message_request : SendMessageRequest → FromClient
  subscribe_request : List Subscription → FromClient
  ping : Bytes → FromClient
  pong notification_from other_message : FromClient

-- `SubscribeResponse`: the errors with the state and the text, and the states that succeeded.
pub record SubscribeResponse : Type 0 where
  pub errors : List (Bytes × Bytes)
  pub succeeded : List Bytes

pub data ToClient : Type 0 where
  notification : Bytes → ToClient
  send_message_response : Option SendMessageResponse → ToClient
  subscribe_response : SubscribeResponse → ToClient
  pong_to : Bytes → ToClient

-- `nats_subscription` is none for nil.
pub record ClientSubscription : Type 0 where
  pub id : Bytes
  pub subject : Bytes
  pub stream_name : Bytes
  pub start_seq : Bytes
  pub nats_subscription : Option ℕ

-- A goroutine in RunWorkQueue, which ends with the client's context, or by itself where the stream is
-- missing, the subscription is refused or a fetch gives an error.
pub record Queue : Type 0 where
  pub queue_id : Bytes
  pub queue_subject : Bytes
  pub queue_stream : Bytes
  pub queue_start : Bytes

abbrev pub queue_of : ClientSubscription → Queue
queue_of c = record {
  queue_id = c.id;
  queue_subject = c.subject;
  queue_stream = c.stream_name;
  queue_start = c.start_seq;
}

-- `ClientInfo`, the queues that were started for the session, the NATS subscriptions that it ended,
-- what it sent, and whether it is registered with the services.
pub record Session : Type 0 where
  pub subscriptions_by_id : List (Bytes × List ClientSubscription)
  pub queues : List Queue
  pub unsubscribed : List ℕ
  pub address_verified : Bool
  pub registered : Bool
  pub is_shutdown : Bool
  pub sent : List ToClient

abbrev pub new_session : Session
new_session = record {
  subscriptions_by_id = [];
  queues = [];
  unsubscribed = [];
  address_verified = false;
  registered = false;
  is_shutdown = false;
  sent = [];
}

abbrev pub subs_or_nil : Option (List ClientSubscription) → List ClientSubscription
subs_or_nil none = []
subs_or_nil (some subs) = subs

-- `AddSubscription`
unfoldable pub add_subscription : ClientSubscription → Session → Session
add_subscription c s = record s {
  subscriptions_by_id =
      put c.id (subs_or_nil (get c.id s.subscriptions_by_id) ++ c ∷ []) s.subscriptions_by_id;
}

-- `RegisterClientSub`
unfoldable pub register_client_sub : ClientSubscription → Session → Session
register_client_sub c s = add_subscription c (record s { queues = queue_of c ∷ s.queues })

abbrev pub pk_suffix : Option Bytes → Bytes
pk_suffix none = codes ".>"
pk_suffix (some pk) = codes "." ++ pk

abbrev pub subject_impl : RecordMatcher → Bytes → Option Bytes → Bytes
subject_impl rm root pk =
    root ++ (codes "." ++ (rm.database ++ (codes "." ++ (rm.table ++ pk_suffix pk))))

-- `make` with the length of the keys, then `append` of each subject.
abbrev pub subjects_of : RecordMatcher → Bytes → List (Option Bytes) → List Bytes
subjects_of rm root [] = subject_impl rm root none ∷ []
subjects_of rm root (k ∷ ks) = replicate (length (k ∷ ks)) [] ++ map (subject_impl rm root) (k ∷ ks)

-- `Subjects`
unfoldable pub subjects : RecordMatcher → Bytes → List Bytes
subjects rm root = subjects_of rm root rm.primary_keys

unfoldable pub all_subjects : List RecordMatcher → List Bytes
all_subjects [] = []
all_subjects (rm ∷ rms) = subjects rm (codes "wal_listener") ++ all_subjects rms

abbrev pub wal_subscription : Bytes → Bytes → Bytes → ClientSubscription
wal_subscription id start_seq subject = record {
  id = id;
  subject = subject;
  stream_name = codes "wal_listener";
  start_seq = start_seq;
  nats_subscription = none;
}

unfoldable pub register_subjects : Bytes → Bytes → List Bytes → Session → Session
register_subjects id start_seq [] s = s
register_subjects id start_seq (j ∷ js) s =
    register_subjects id start_seq js (register_client_sub (wal_subscription id start_seq j) s)

-- `RegisterChangeDataCaptureSub`
abbrev pub register_change_data_capture_sub : Bytes → Bytes → List RecordMatcher → Session → Session
register_change_data_capture_sub id start_seq rms s =
    register_subjects id start_seq (all_subjects rms) s

-- The names of subjects and streams; a mailbox of hermes/mailbox.go and a process of nefario have two parts.
abbrev pub dotted : Bytes → Bytes → Bytes → Bytes
dotted root a b = root ++ (codes "." ++ (a ++ (codes "." ++ b)))

abbrev pub dashed : Bytes → Bytes → Bytes → Bytes
dashed root a b = root ++ (codes "-" ++ (a ++ (codes "-" ++ b)))

abbrev pub two_part_subscription : Bytes → Bytes → Bytes → Bytes → Bytes → ClientSubscription
two_part_subscription root id start_seq a b = record {
  id = id;
  subject = dotted root a b;
  stream_name = dashed root a b;
  start_seq = start_seq;
  nats_subscription = none;
}

-- `RegisterNefarioSub`
abbrev pub register_nefario_sub : Bytes → Bytes → Bytes → Bytes → Session → Session
register_nefario_sub id start_seq process_uid channel s =
    register_client_sub (two_part_subscription (codes "launchy") id start_seq process_uid channel) s

abbrev pub end_one : Option ℕ → Session → Session
end_one none s = s
end_one (some n) s = record s { unsubscribed = n ∷ s.unsubscribed }

abbrev pub end_nats : List ClientSubscription → Session → Session
end_nats [] s = s
end_nats (c ∷ cs) s = end_nats cs (end_one c.nats_subscription s)

abbrev pub found_subs : Bytes → Option (List ClientSubscription) → Session → Bool × Session
found_subs id none s = (false, s)
found_subs id (some subs) s =
    let s' = end_nats subs s in
    (true, record s' { subscriptions_by_id = delete id s'.subscriptions_by_id })

-- `UnRegisterSub`: whether the identifier was found. Unsubscribe of a nil subscription gives an error,
-- which is logged.
unfoldable pub un_register_sub : Bytes → Session → Bool × Session
un_register_sub id s = found_subs id (get id s.subscriptions_by_id) s
