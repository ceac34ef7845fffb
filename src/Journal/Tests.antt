-- ===== src/Journal/Tests.antt =====
-- Tests of the reader and the publisher of launchy/journalctl-utils.go: a service whose unit is started,
-- writes, and is logged by systemd with no message.
use godev.Prelude.{
  has_prefix, true, false, List, [], ◌∷◌, ◌++◌, map, replicate, none, some, Bytes, codes, bytes_eq,
  get, put, ◌≡◌, ◌↔◌, ◌⊎◌, refl, arith, inl, inr, Bool-cases, ◌==◌, if◌then◌else◌,
}
use godev.Journal.Batches.{
  RpcBuffer, CaptureWindow, new_publisher, Batch, context_done, from_chan, time_over, publish_loop,
}
use godev.Journal.Delivery.{flow, arrivals, Sound}
use godev.Journal.Flow.{publish_loop-Delivers}
use godev.Journal.Lines.{
  JournalCtlMessage, Host, SystemdService, asked_start, asked_completion, has_suffix, contains,
}
use godev.Journal.Reading.{
  goes_on, nil_dereference, AgentEvent, line, publisher_ends, read_line, run_events, new_reader,
  phase, has_name,
}
use godev.Journal.Processes.{current_of, Orderly}
use godev.Journal.Events.{run_events-Orderly}
use godev.Journal.Crashes.{Crashes, read_line-Crashes}

abbrev buffer : Bytes → RpcBuffer
buffer t = record { written_at = 7; text = t }

abbrev window : CaptureWindow
window = record { max_bytes = 4; max_time = 3000 }

-- Two buffers fill the window; a third waits until the time is over; a fourth is lost, as the context
-- is done.
abbrev batches : List Batch
batches =
    record {
      arrived = buffer (codes "ab") ∷ buffer (codes "cd") ∷ [];
      now = 10;
      chosen = from_chan;
      later = 11;
    }
    ∷ record { arrived = []; now = 20; chosen = from_chan; later = 21 }
    ∷ record { arrived = buffer (codes "e") ∷ []; now = 30; chosen = from_chan; later = 31 }
    ∷ record { arrived = buffer (codes "f") ∷ []; now = 3021; chosen = time_over; later = 3022 }
    ∷ record { arrived = []; now = 3030; chosen = context_done; later = 3031 }
    ∷ []

batches_run :
    (publish_loop window batches (new_publisher 0)).sent_records
    ≡ record {
      sequence = 0;
      buffers =
          none ∷ none ∷ none ∷ none ∷ some (buffer (codes "ab")) ∷ some (buffer (codes "cd")) ∷ [];
    }
      ∷ record { sequence = 0; buffers = some (buffer (codes "e")) ∷ [] }
      ∷ []
unfolding publish_loop
batches_run = refl

batches_lost : (publish_loop window batches (new_publisher 0)).chan ≡ buffer (codes "f") ∷ []
unfolding publish_loop
batches_lost = refl

publish_loop-Delivers_example :
    (let p = publish_loop window batches (new_publisher 0) in
      (flow p ≡ replicate 4 none ++ map some (arrivals batches))
      × Sound window p
      × ((p.ended ≡ false) ⊎ (p.current_buffers ≡ [])))
publish_loop-Delivers_example = publish_loop-Delivers window batches 0 (omega arith)

abbrev systemd_message : Bytes → Bytes → JournalCtlMessage
systemd_message job func = record {
  code_func = func;
  syslog_id = codes "systemd";
  message = [];
  systemd_user_unit = [];
  user_unit = codes "a";
  job_type = job;
}

abbrev app_message_of : Bytes → JournalCtlMessage
app_message_of t = record {
  code_func = [];
  syslog_id = codes "a";
  message = t;
  systemd_user_unit = codes "a";
  user_unit = [];
  job_type = [];
}

-- The second start is not published.
abbrev host : Host
host = record {
  unmarshal_message = λ l.
      if bytes_eq l (codes "start")
      then some (systemd_message (codes "start") [])
      else if bytes_eq l (codes "stop")
      then some (systemd_message (codes "stop") [])
      else if bytes_eq l (codes "resources")
      then some (systemd_message [] (codes "unit_log_resources"))
      else some (app_message_of l);
  unmarshal_bytes = λ b. none;
  unmarshal_string = λ b. some b;
  current_pid = λ n name. some 42;
  start_is_published = λ n. n == 0;
}

abbrev services : List (Bytes × SystemdService)
services =
    (codes "a", record { service_uid = codes "u"; minion_enabled = true; current_slurp = none })
    ∷ []

abbrev quoted : Bytes
quoted = b'"' ∷ codes "hi" ++ (b'"' ∷ [])

abbrev events : List AgentEvent
events = line (codes "start") ∷ line quoted ∷ line (codes "stop") ∷ publisher_ends 0 ∷ []

events_run : run_events (codes "m") host events (new_reader services) ≡ (
  goes_on,
  record {
    services_by_name = services;
    not_found_service_names = [];
    uids = 1;
    requests = asked_completion 0 (codes "stopped") ∷ asked_start 0 (codes "a") 42 ∷ [];
    channel_texts = (0, quoted ++ codes "\n") ∷ [];
  },
)
unfolding run_events phase has_name bytes_eq get put has_prefix has_suffix contains
events_run = refl

-- The service's process ended, and the start of the next one is lost: the text ends the agent.
lost_start :
    (run_events (codes "m") host (events ++ line quoted ∷ []) (new_reader services)).0
    ≡ nil_dereference
unfolding run_events phase has_name bytes_eq get put has_prefix has_suffix contains
lost_start = refl

resources_panic : (read_line host (codes "resources") (new_reader services)).0 ≡ nil_dereference
unfolding phase has_name bytes_eq get put has_prefix has_suffix contains
resources_panic = refl

none_runs : (n : Bytes) → current_of (get n services) ≡ none
unfolding get
none_runs n = elim (Bool-cases (bytes_eq (codes "a") n)) [ inl l ↦ rw l refl | inr l ↦ rw l refl ]

run_events-Orderly_example :
    (let s = (run_events (codes "m") host events (new_reader services)).1 in
      Orderly s.services_by_name s.uids s.requests)
run_events-Orderly_example = run_events-Orderly (codes "m") host events services none_runs

read_line-Crashes_example :
    ((read_line host (codes "resources") (new_reader services)).0 ≡ nil_dereference)
    ↔ Crashes host (codes "resources") (new_reader services)
read_line-Crashes_example = read_line-Crashes host (codes "resources") (new_reader services)
