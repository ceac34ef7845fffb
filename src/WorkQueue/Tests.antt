-- ===== src/WorkQueue/Tests.antt =====
-- Tests of the work queue of a8nats/a8nats.go: a task that fails at its second call.
use godev.Prelude.{
  ℕ, suc, Bool, true, false, List, [], ◌∷◌, Option, none, some, Bytes, codes, bytes_eq, ◌==◌,
  if◌then◌else◌, not, ◌≡◌, refl, to_lower,
}
use godev.WorkQueue.{
  WorkQueueConfig, Msg, QueueRound, context_done, fetched, timeout, Server, ack, nak, returns,
  run_proto_work_queue, start_sequence, deliver_new, start_seq_to_options, process_messages,
  queue_loop, run_work_queue, proto_task_fn,
}
use godev.WorkQueue.Settles.{due, Settles, run_proto_work_queue-Settles}

abbrev server : Server
server = record {
  connects = true;
  stream_exists = λ s. false;
  add_stream = λ s subject. some true;
  pull_subscribe = λ subject consumer stream start. true;
  parse_uint = λ s. if bytes_eq s (codes "42") then some 42 else none;
}

abbrev config : WorkQueueConfig
config = record {
  subject = codes "work";
  stream_name = codes "jobs";
  consumer_name = codes "worker";
  create_stream = true;
  start_seq = codes "42";
  batch_size = 0;
  assume_proto = true;
}

abbrev text : Bytes → Msg
text b = record { content_type = some (codes "JSON"); data_bytes = b }

-- Only JSON is decoded here, and no empty text.
abbrev decode : Bytes → Bool → Option Bytes
decode b proto = if proto then none else if bytes_eq b [] then none else some b

abbrev task : Bytes → ℕ → Bool × ℕ
task b n = (not (n == 1), suc n)

abbrev rounds : List QueueRound
rounds =
    fetched none false (text (codes "a") ∷ text [] ∷ text (codes "b") ∷ [])
    ∷ fetched (some timeout) false []
    ∷ fetched none false (text (codes "c") ∷ [])
    ∷ context_done
    ∷ []

settled_runs : run_proto_work_queue decode task server config rounds 0 ≡ (
  (text (codes "a"), ack) ∷ (text [], nak) ∷ (text (codes "b"), nak) ∷ (text (codes "c"), ack) ∷ [],
  (returns none, 3),
)
unfolding run_work_queue queue_loop process_messages proto_task_fn bytes_eq to_lower
settled_runs = refl

starts_at : start_seq_to_options server (codes "42") ≡ start_sequence 42
unfolding start_seq_to_options bytes_eq to_lower
starts_at = refl

starts_new : start_seq_to_options server (codes "Tail") ≡ deliver_new
unfolding start_seq_to_options bytes_eq to_lower
starts_new = refl

run_proto_work_queue-Settles_example :
    Settles decode task true
      (due rounds)
      0
      (run_proto_work_queue decode task server config rounds 0)
run_proto_work_queue-Settles_example =
    run_proto_work_queue-Settles decode task server config rounds 0 refl
