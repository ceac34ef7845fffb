-- ===== src/Journal/Reading.antt =====
-- launchy/journalctl-utils.go: SubmitJournalCtlStdoutReader, which starts and completes the processes of
-- the services that the agent knows, with StartProcessRunSlurp and Shutdown.
use godev.Prelude.{
  not, ◌&&◌, or_else, ℕ, suc, ◌%◌, ◌^◌, Bool, true, false, ◌||◌, List, [], ◌∷◌, ◌++◌, Option, none,
  some, Bytes, codes, bytes_eq, get, put, if◌then◌else◌, ◌==◌,
}
use godev.Journal.Lines.{
  message_kind, empty_line, null_line, unknown_format, stopping, journal_unknown, JournalCtlMessage,
  MessageKind, app_message, start, failed, stopped, Line, text_line, SystemdService, Request,
  asked_start, asked_completion, Host, Reader, message_line,
}

-- Whether the reader goes on after a line, or panics.
pub data Fate : Type 0 where
  goes_on nil_dereference : Fate

-- Where a process stands by the requests, the last of which is the first here.
pub data Phase : Type 0 where
  absent closed : Phase
  opened : Bytes → Phase

unfoldable pub phase : ℕ → List Request → Phase
phase u [] = absent
phase u (asked_completion v t ∷ rs) = if u == v then closed else phase u rs
phase u (asked_start v n pid ∷ rs) = if u == v then opened n else phase u rs

-- `Shutdown`; an error of ProcessCompleted is logged. Its `ShutdownOnce` has run exactly when the last
-- request about the process is its completion. Only a process that was started has a `Shutdown`.
abbrev pub shutdown_in : Phase → ℕ → Bytes → Reader → Reader
shutdown_in absent u t s = s
shutdown_in closed u t s = s
shutdown_in (opened n) u t s = record s { requests = asked_completion u t ∷ s.requests }

abbrev pub shutdown_process : ℕ → Bytes → Reader → Reader
shutdown_process u t s = shutdown_in (phase u s.requests) u t s

-- A change of the service through its pointer.
abbrev pub set_slurp : Bytes → SystemdService → Option ℕ → Reader → Reader
set_slurp n v o s = record s {
  services_by_name = put n (record v { current_slurp = o }) s.services_by_name;
}

-- `stopCurrentSlurp`
abbrev pub stop_slurp : Bytes → Bytes → SystemdService → Option ℕ → Reader → Reader
stop_slurp t n v none s = s
stop_slurp t n v (some u) s = set_slurp n v none (shutdown_process u t s)

abbrev pub pid_or_zero : Option ℕ → ℕ
pid_or_zero none = 0
pid_or_zero (some p) = p % 2 ^ 32

abbrev pub is_nil : Option ℕ → Bool
is_nil none = true
is_nil (some u) = false

-- `initService`
abbrev pub with_name : Bytes → Option SystemdService → Option (Bytes × SystemdService)
with_name n none = none
with_name n (some v) = some (n, v)

abbrev pub load_service : Bytes → Reader → Option (Bytes × SystemdService)
load_service n s = if bytes_eq n [] then none else with_name n (get n s.services_by_name)

abbrev pub find_service : JournalCtlMessage → Reader → Option (Bytes × SystemdService)
find_service m s = or_else (load_service m.systemd_user_unit s) (load_service m.user_unit s)

unfoldable pub has_name : Bytes → List Bytes → Bool
has_name n [] = false
has_name n (m ∷ ms) = bytes_eq m n || has_name n ms

-- A name that is not found is logged once.
abbrev pub note_name : Bytes → Reader → Reader
note_name n s =
    if bytes_eq n [] || has_name n s.not_found_service_names
    then s
    else record s { not_found_service_names = n ∷ s.not_found_service_names }

module _ (h : Host) where
  -- `StartProcessRunSlurp`, which gives nil when the start is not published.
  abbrev pub start_slurp : Bytes → SystemdService → Reader → Reader
  start_slurp n v s =
      if h.start_is_published s.uids
      then set_slurp n v (some s.uids) (record s {
        uids = suc s.uids;
        requests = asked_start s.uids n (pid_or_zero (h.current_pid s.uids n)) ∷ s.requests;
      })
      else set_slurp n v none (record s { uids = suc s.uids })

  -- `newSlurp`
  abbrev pub new_slurp : Bytes → SystemdService → Reader → Reader
  new_slurp n v s = start_slurp n v (stop_slurp (codes "disappeared") n v v.current_slurp s)

  -- The send on the channel of the current slurp, which may be nil.
  abbrev pub send_text : Bytes → Option ℕ → Reader → Fate × Reader
  send_text t none s = (nil_dereference, s)
  send_text t (some u) s =
      (goes_on, record s { channel_texts = s.channel_texts ++ (u, t ++ codes "\n") ∷ [] })

  abbrev pub started : ℕ → Option ℕ
  started u = if h.start_is_published u then some u else none

  -- An application's text: a slurp is started where there is none.
  abbrev pub app_text : Bytes → Bytes → SystemdService → Option ℕ → Reader → Fate × Reader
  app_text t n v none s = send_text t (started s.uids) (new_slurp n v s)
  app_text t n v (some u) s = send_text t (some u) s

  abbrev pub app_line : Bytes → SystemdService → Line → Reader → Fate × Reader
  app_line n v (text_line t) s = app_text t n v v.current_slurp s
  app_line n v empty_line s = (goes_on, s)
  app_line n v null_line s = (goes_on, s)
  app_line n v unknown_format s = (goes_on, s)

  -- The switch on the kind; none is the panic of `MessageKind`.
  abbrev pub handle_kind :
      JournalCtlMessage → Bytes → SystemdService → Option MessageKind → Reader → Fate × Reader
  handle_kind m n v none s = (nil_dereference, s)
  handle_kind m n v (some app_message) s = app_line n v (message_line h m.message) s
  handle_kind m n v (some start) s = (goes_on, new_slurp n v s)
  handle_kind m n v (some failed) s = (goes_on, stop_slurp (codes "failed") n v v.current_slurp s)
  handle_kind m n v (some stopped) s = (goes_on, stop_slurp (codes "stopped") n v v.current_slurp s)
  handle_kind m n v (some stopping) s = (goes_on, s)
  handle_kind m n v (some journal_unknown) s = (goes_on, s)

  -- What is done for a service that was found, or for none.
  abbrev pub with_service :
      JournalCtlMessage → Option (Bytes × SystemdService) → Reader → Fate × Reader
  with_service m none s = (goes_on, note_name m.user_unit (note_name m.systemd_user_unit s))
  with_service m (some (n, v)) s =
      if not v.minion_enabled && is_nil v.current_slurp
      then (goes_on, s)
      else handle_kind m n v (message_kind h m) s

  abbrev pub with_message : Option JournalCtlMessage → Reader → Fate × Reader
  with_message none s = (goes_on, s)
  with_message (some m) s =
      if bytes_eq m.systemd_user_unit (codes "minion.service")
      then (goes_on, s)
      else with_service m (find_service m s) s

  abbrev pub read_line : Bytes → Reader → Fate × Reader
  read_line line s = with_message (h.unmarshal_message line) s

abbrev pub new_reader : List (Bytes × SystemdService) → Reader
new_reader services = record {
  services_by_name = services;
  not_found_service_names = [];
  uids = 0;
  requests = [];
  channel_texts = [];
}

-- What happens to the agent: a line is read; the publisher of a process ends, whose deferred Shutdown
-- runs; a record of the service table comes by change data capture.
pub data AgentEvent : Type 0 where
  line : Bytes → AgentEvent
  publisher_ends : ℕ → AgentEvent
  record_comes : Bytes → Bytes → Bytes → Bool → AgentEvent

abbrev pub unless_panic : Fate × Reader → Fate × Reader → Fate × Reader
unless_panic (nil_dereference, t) r = (nil_dereference, t)
unless_panic (goes_on, t) r = r

-- `processRecord` of RunJournalCtlManager
abbrev pub process_record : Bytes → Bytes → Bool → Option SystemdService → Reader → Reader
process_record n uid enabled none s = record s {
  services_by_name =
      put n (record { service_uid = uid; minion_enabled = enabled; current_slurp = none })
        s.services_by_name;
}
process_record n uid enabled (some v) s = record s {
  services_by_name = put n (record v { minion_enabled = enabled }) s.services_by_name;
}

module _ (minion : Bytes) (h : Host) where
  abbrev pub take_event : AgentEvent → Reader → Fate × Reader
  take_event (line l) s = read_line h l s
  take_event (publisher_ends u) s = (goes_on, shutdown_process u (codes "failed") s)
  take_event (record_comes n uid owner enabled) s = (
    goes_on,
    (if bytes_eq owner minion
        then process_record n uid enabled (get n s.services_by_name) s
        else s),
  )

  -- A panic ends the program: the goroutine does not recover, though SubmitGoRoutine means it to.
  unfoldable pub run_events : List AgentEvent → Reader → Fate × Reader
  run_events [] s = (goes_on, s)
  run_events (e ∷ es) s =
      let rest = run_events es (take_event e s).1 in unless_panic (take_event e s) rest
