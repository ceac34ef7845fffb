-- ===== src/WorkQueue.antt =====
-- a8nats/a8nats.go: RunWorkQueue and RunProtoWorkQueue, which read a NATS stream in batches and settle
-- each message by what the task makes of it.
pub mod Settles
mod Tests
use godev.Prelude.{
  ℕ, Bool, true, false, ◌||◌, List, [], ◌∷◌, ◌++◌, Option, none, some, Bytes, codes, bytes_eq,
  to_lower, ◌==◌, if◌then◌else◌,
}

-- The fields of `WorkQueueConfig` that steer the code.
pub record WorkQueueConfig : Type 0 where
  pub subject : Bytes
  pub stream_name : Bytes
  pub consumer_name : Bytes
  pub create_stream : Bool
  pub start_seq : Bytes
  pub batch_size : ℕ
  pub assume_proto : Bool

-- `nats.Msg`; `content_type` is none where it has no header, and empty where the header lacks the field.
pub record Msg : Type 0 where
  pub content_type : Option Bytes
  pub data_bytes : Bytes

-- Where a subscription starts.
pub data Start : Type 0 where
  deliver_last deliver_new deliver_all : Start
  start_sequence : ℕ → Start

-- The error of a `Fetch`: nats.ErrTimeout, or another.
pub data FetchError : Type 0 where
  timeout other_error : FetchError

-- A turn of the loop: the context is done; or what `Fetch` gives, and whether the context ended by then.
pub data QueueRound : Type 0 where
  context_done : QueueRound
  fetched : Option FetchError → Bool → List Msg → QueueRound

pub data QueueError : Type 0 where
  no_connection stream_not_created no_stream not_subscribed fetch_failed : QueueError

-- What the NATS server answers: `ResolveConn`, whether the stream exists, `AddStream` (none is an
-- error, false a nil answer), `PullSubscribe` on a subject from a start; and the text-to-number
-- function `strconv.ParseUint`.
pub record Server : Type 0 where
  pub connects : Bool
  pub stream_exists : Bytes → Bool
  pub add_stream : Bytes → Bytes → Option Bool
  pub pull_subscribe : Bytes → Bytes → Bytes → Option Start → Bool
  pub parse_uint : Bytes → Option ℕ

pub data Settlement : Type 0 where
  ack nak : Settlement

-- How the loop ends: the function returns with or without an error, or runs on.
pub data QueueEnded : Type 0 where
  returns : Option QueueError → QueueEnded
  running : QueueEnded

module _ (v : Server) where
  abbrev pub parsed_start : Option ℕ → Start
  parsed_start none = deliver_all
  parsed_start (some n) = start_sequence n

  -- The second result of `StartSeqToSubscriptionOptions`.
  unfoldable pub start_seq_to_options : Bytes → Start
  start_seq_to_options s =
      if bytes_eq (to_lower s) (codes "last")
      then deliver_last
      else if bytes_eq (to_lower s) (codes "tail") || bytes_eq (to_lower s) (codes "new")
      then deliver_new
      else if bytes_eq (to_lower s) (codes "first")
          || bytes_eq (to_lower s) (codes "all")
          || bytes_eq (to_lower s) []
      then deliver_all
      else parsed_start (v.parse_uint s)

  abbrev pub start_option : WorkQueueConfig → Option Start
  start_option c = if bytes_eq c.start_seq [] then none else some (start_seq_to_options c.start_seq)

  abbrev pub stream_created : WorkQueueConfig → Option Bool → Option QueueError
  stream_created c none = some stream_not_created
  stream_created c (some false) = some no_stream
  stream_created c (some true) = none

  -- The stream is looked up, and made if it is to be.
  abbrev pub find_stream : WorkQueueConfig → Option QueueError
  find_stream c =
      if v.stream_exists c.stream_name
      then none
      else if c.create_stream
      then stream_created c (v.add_stream c.stream_name c.subject)
      else some no_stream

  abbrev pub subscribe : WorkQueueConfig → Option QueueError
  subscribe c =
      if v.pull_subscribe c.subject c.consumer_name c.stream_name (start_option c)
      then none
      else some not_subscribed

  abbrev pub and_then : Option QueueError → Option QueueError → Option QueueError
  and_then none next = next
  and_then (some e) next = some e

  -- What comes before the loop.
  abbrev pub prepare : WorkQueueConfig → Option QueueError
  prepare c =
      and_then (if v.connects then none else some no_connection)
        (and_then (find_stream c) (subscribe c))

abbrev pub batch_size_of : WorkQueueConfig → ℕ
batch_size_of c = if c.batch_size == 0 then 1 else c.batch_size

abbrev pub settlement : Bool → Settlement
settlement true = ack
settlement false = nak

-- The task, which may change a state of the program, tells whether it gave no error. The settlements
-- are in the order in which they are sent; an error of `Nak` is logged, one of `Ack` is dropped.
module _ {S : Type 0} (task_fn : Msg → S → Bool × S) where
  abbrev pub add_settlement : Msg → Bool → List (Msg × Settlement) × S → List (Msg × Settlement) × S
  add_settlement msg done (rest, s) = ((msg, settlement done) ∷ rest, s)

  unfoldable pub process_messages : List Msg → S → List (Msg × Settlement) × S
  process_messages [] s = ([], s)
  process_messages (msg ∷ msgs) s =
      add_settlement msg (task_fn msg s).0 (process_messages msgs (task_fn msg s).1)

  abbrev pub after_round :
      (S → List (Msg × Settlement) × (QueueEnded × S))
      → List (Msg × Settlement) × S
      → List (Msg × Settlement) × (QueueEnded × S)
  after_round next (settled, s) = (settled ++ (next s).0, (next s).1)

  -- The branches on the error of `Fetch`.
  abbrev pub run_round :
      (S → List (Msg × Settlement) × (QueueEnded × S))
      → QueueRound
      → S
      → List (Msg × Settlement) × (QueueEnded × S)
  run_round next context_done s = ([], (returns none, s))
  run_round next (fetched none ended msgs) s = after_round next (process_messages msgs s)
  run_round next (fetched (some timeout) ended msgs) s = next s
  run_round next (fetched (some other_error) true msgs) s =
      after_round next (process_messages msgs s)
  run_round next (fetched (some other_error) false msgs) s = ([], (returns (some fetch_failed), s))

  unfoldable pub queue_loop : List QueueRound → S → List (Msg × Settlement) × (QueueEnded × S)
  queue_loop [] s = ([], (running, s))
  queue_loop (r ∷ rounds) s = run_round (λ t. queue_loop rounds t) r s

  abbrev pub prepared :
      Option QueueError → List QueueRound → S → List (Msg × Settlement) × (QueueEnded × S)
  prepared (some e) rounds s = ([], (returns (some e), s))
  prepared none rounds s = queue_loop rounds s

  -- `RunWorkQueue`, for the turns of its loop.
  unfoldable pub run_work_queue :
      Server → WorkQueueConfig → List QueueRound → S → List (Msg × Settlement) × (QueueEnded × S)
  run_work_queue v c rounds s = prepared (prepare v c) rounds s

-- `Unmarshal`: whether the bytes are protobuf.
abbrev pub proto_by : Bool → Option Bytes → Bool
proto_by assume none = assume
proto_by assume (some t) =
    let low = to_lower t in
    if bytes_eq low (codes "proto")
      || bytes_eq low (codes "protobuf")
      || bytes_eq low (codes "application/protobuf")
    then true
    else if bytes_eq low (codes "json") || bytes_eq low (codes "application/json")
    then false
    else assume

module _ {S A : Type 0} (unmarshal_bytes : Bytes → Bool → Option A)
    (task_fn : A → S → Bool × S) where
  abbrev pub decoded_task : S → Option A → Bool × S
  decoded_task s none = (false, s)
  decoded_task s (some a) = task_fn a s

  -- The task of `RunProtoWorkQueue`.
  unfoldable pub proto_task_fn : Bool → Msg → S → Bool × S
  proto_task_fn assume msg s =
      decoded_task s (unmarshal_bytes msg.data_bytes (proto_by assume msg.content_type))

  -- `RunProtoWorkQueue`
  abbrev pub run_proto_work_queue :
      Server → WorkQueueConfig → List QueueRound → S → List (Msg × Settlement) × (QueueEnded × S)
  run_proto_work_queue v c rounds s = run_work_queue (proto_task_fn c.assume_proto) v c rounds s
