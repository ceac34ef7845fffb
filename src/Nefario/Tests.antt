-- ===== src/Nefario/Tests.antt =====
-- Tests of the cycle of nefario/nefario.go: of three servers one has the same row, one another, one is
-- new; a fourth is gone.
use godev.Prelude.{
  Bool, ℕ, suc, false, map, Option, if◌then◌else◌, All, true, List, [], ◌∷◌, ◌++◌, some, none,
  Bytes, codes, bytes_eq, get, put, delete, ◌≡◌, ◌⊎◌, refl,
}
use godev.Nefario.Consumers.{
  DbServer, Consumer, Consumers, has_server, adds_of, changed_of, gone_of, stop_all, start_all,
  run_update_cycle,
}
use godev.Nefario.Messages.{
  NefarioService, MessageFromLaunchy, ping_request, run_nefario_consumer, IsAcknowledged,
  handed_all, run_nefario_consumer-IsAcknowledged,
}
use godev.WorkQueue.{
  Msg, Settlement, QueueRound, fetched, Server, ack, nak, process_messages, queue_loop,
  run_work_queue, proto_task_fn,
}
use godev.WorkQueue.Settles.{due}
use godev.Nefario.Changes.{IsOwn}
use godev.Nefario.Cancels.{Among, all_of}
use godev.Nefario.Cycle.{Runs, Ends, run_update_cycle-Runs}

abbrev server_row : Bytes → Bytes → DbServer
server_row uid columns = record { server_uid = uid; columns = columns }

abbrev running : Consumers
running = record {
  by_uid =
      (codes "a", record { row = server_row (codes "a") (codes "1"); context = 0 })
      ∷ (codes "b", record { row = server_row (codes "b") (codes "1"); context = 1 })
      ∷ (codes "d", record { row = server_row (codes "d") (codes "1"); context = 2 })
      ∷ [];
  contexts = 3;
  cancelled = [];
}

abbrev same_servers : List DbServer
same_servers = server_row (codes "a") (codes "1") ∷ []

abbrev new_servers : List DbServer
new_servers = server_row (codes "c") (codes "1") ∷ []

abbrev changed_server : DbServer
changed_server = server_row (codes "b") (codes "2")

cycle_runs : run_update_cycle (some (same_servers ++ (changed_server ∷ new_servers))) running ≡ (
  true,
  record {
    by_uid =
        (codes "a", record { row = server_row (codes "a") (codes "1"); context = 0 })
        ∷ (codes "b", record { row = changed_server; context = 3 })
        ∷ (codes "c", record { row = server_row (codes "c") (codes "1"); context = 4 })
        ∷ [];
    contexts = 5;
    cancelled = 1 ∷ 2 ∷ [];
  },
)
unfolding adds_of changed_of gone_of stop_all start_all has_server get put delete bytes_eq
cycle_runs = refl

run_update_cycle-Runs_example :
    (let (ok, s') =
        run_update_cycle (some (same_servers ++ (changed_server ∷ new_servers))) running in
      (ok ≡ true)
      × All IsOwn s'.by_uid
      × (stopped : List Consumer) × (s'.cancelled
          ≡ running.cancelled ++ map (λ (c : Consumer). c.context) stopped)
      × All (λ c. Among c (all_of running.by_uid)) stopped
      × Runs running s' stopped changed_server
      × ((has_server (codes "d") (same_servers ++ (changed_server ∷ new_servers)) ≡ true)
          ⊎ Ends (codes "d") running s' stopped))
unfolding has_server bytes_eq
run_update_cycle-Runs_example =
    run_update_cycle-Runs same_servers changed_server new_servers running (codes "d")
      (refl, (refl, (refl, tt))) refl refl

-- Every operation fails, and counts.
abbrev failing : NefarioService ℕ
failing = record {
  start_process = λ r n. (false, suc n);
  ping_process = λ r n. (false, suc n);
  change_mailbox = λ r n. (false, suc n);
  complete_process = λ r n. (false, suc n);
  write_stream = λ r n. (false, suc n);
  answer_ping = λ r n. (false, suc n);
}

abbrev nats_server : Server
nats_server = record {
  connects = true;
  stream_exists = λ s. true;
  add_stream = λ s subject. some true;
  pull_subscribe = λ subject consumer stream start. true;
  parse_uint = λ s. none;
}

abbrev message_of : Bytes → Msg
message_of b = record { content_type = none; data_bytes = b }

abbrev message_rounds : List QueueRound
message_rounds = fetched none false (message_of (codes "a") ∷ message_of [] ∷ []) ∷ []

abbrev decode_message : Bytes → Bool → Option MessageFromLaunchy
decode_message b proto = if bytes_eq b [] then none else some (ping_request b)

messages_lost :
    (run_nefario_consumer failing decode_message nats_server message_rounds 0).0
    ≡ (message_of (codes "a"), ack) ∷ (message_of [], nak) ∷ []
unfolding run_work_queue queue_loop process_messages proto_task_fn bytes_eq
messages_lost = refl

run_nefario_consumer-IsAcknowledged_example :
    (let out = run_nefario_consumer failing decode_message nats_server message_rounds 0 in
      (map (λ (p : Msg × Settlement). p.0) out.0 ≡ due message_rounds)
      × All (IsAcknowledged failing decode_message) out.0
      × (out.1.1 ≡ handed_all failing decode_message (due message_rounds) 0))
run_nefario_consumer-IsAcknowledged_example =
    run_nefario_consumer-IsAcknowledged failing decode_message nats_server message_rounds 0 refl
