-- ===== src/Journal/Events.antt =====
-- SubmitJournalCtlStdoutReader of launchy/journalctl-utils.go with the other changes of the services:
-- any events that come to the agent.
use godev.Prelude.{
  Bool, not, ◌&&◌, ◌||◌, List, [], ◌∷◌, Option, none, some, Bytes, codes, bytes_eq, get, ◌≡◌, refl,
  sym, ◌∙◌, ap, inl, inr, Bool-cases, or_else,
}
use godev.Journal.Lines.{JournalCtlMessage, SystemdService, Host, Reader, message_kind}
use godev.Journal.Reading.{
  Fate, goes_on, nil_dereference, phase, is_nil, find_service, with_service, with_message,
  load_service, with_name, note_name, has_name, AgentEvent, line, publisher_ends, record_comes,
  process_record, take_event, run_events, unless_panic, new_reader,
}
use godev.Journal.Processes.{current_of, Orderly, OrderlyIn, kept-Orderly, none-some, absent_opened}
use godev.Journal.Histories.{shutdown_process-Orderly, handle-Orderly}

Found : Reader → Option (Bytes × SystemdService) → Type 0
Found s none = Unit
Found s (some (n, v)) = get n s.services_by_name ≡ some v

named-Found :
    (n : Bytes) (s : Reader) (o : Option SystemdService)
    → get n s.services_by_name ≡ o
    → Found s (with_name n o)
unfolding Found
named-Found n s none e = tt
named-Found n s (some v) e = e

load-Found : (n : Bytes) (s : Reader) → Found s (load_service n s)
unfolding Found
load-Found n s = elim (Bool-cases (bytes_eq n [])) [
  | inl l ↦ rw l tt
  | inr l ↦ rw l (named-Found n s (get n s.services_by_name) refl)
]

find-Found : (m : JournalCtlMessage) (s : Reader) → Found s (find_service m s)
find-Found m s =
    either (load_service m.systemd_user_unit s) (load_service m.user_unit s)
      (load-Found m.systemd_user_unit s) (load-Found m.user_unit s)
  where
    either : (a b : Option (Bytes × SystemdService)) → Found s a → Found s b → Found s (or_else a b)
    either none b p q = q
    either (some a) b p q = p

note-Orderly : (n : Bytes) (s : Reader) → OrderlyIn s → OrderlyIn (note_name n s)
note-Orderly n s i = elim (Bool-cases (bytes_eq n [] || has_name n s.not_found_service_names)) [
  | inl l ↦ rw l i
  | inr l ↦ rw l i
]

module _ (minion : Bytes) (h : Host) where
  service-Orderly :
      (m : JournalCtlMessage) (o : Option (Bytes × SystemdService)) (s : Reader)
      → Found s o
      → OrderlyIn s
      → OrderlyIn (with_service h m o s).1
  unfolding Found
  service-Orderly m none s f i =
      note-Orderly m.user_unit (note_name m.systemd_user_unit s)
        (note-Orderly m.systemd_user_unit s i)
  service-Orderly m (some (n, v)) s f i =
      elim (Bool-cases (not v.minion_enabled && is_nil v.current_slurp)) [
        | inl l ↦ rw l i
        | inr l ↦ rw l (handle-Orderly h m n v (message_kind h m) s f i)
      ]

  message-Orderly :
      (o : Option JournalCtlMessage) (s : Reader) → OrderlyIn s → OrderlyIn (with_message h o s).1
  message-Orderly none s i = i
  message-Orderly (some m) s i =
      elim (Bool-cases (bytes_eq m.systemd_user_unit (codes "minion.service"))) [
        | inl l ↦ rw l i
        | inr l ↦ rw l (service-Orderly m (find_service m s) s (find-Found m s) i)
      ]

  record-Orderly :
      (n uid : Bytes) (enabled : Bool) (o : Option SystemdService) (s : Reader)
      → get n s.services_by_name ≡ o
      → OrderlyIn s
      → OrderlyIn (process_record n uid enabled o s)
  record-Orderly n uid enabled none s e i = kept-Orderly n _ (sym (ap current_of e)) i
  record-Orderly n uid enabled (some v) s e i = kept-Orderly n _ (sym (ap current_of e)) i

  event-Orderly :
      (e : AgentEvent) (s : Reader) → OrderlyIn s → OrderlyIn (take_event minion h e s).1
  event-Orderly (line l) s i = message-Orderly (h.unmarshal_message l) s i
  event-Orderly (publisher_ends u) s i = shutdown_process-Orderly u (codes "failed") s i
  event-Orderly (record_comes n uid owner enabled) s i = elim (Bool-cases (bytes_eq owner minion)) [
    | inl l ↦ rw l (record-Orderly n uid enabled (get n s.services_by_name) s refl i)
    | inr l ↦ rw l i
  ]

  run_events-OrderlyIn :
      (es : List AgentEvent) (s : Reader) → OrderlyIn s → OrderlyIn (run_events minion h es s).1
  unfolding run_events
  run_events-OrderlyIn [] s i = i
  run_events-OrderlyIn (e ∷ es) s i =
      by_fate (take_event minion h e s) _ (event-Orderly e s i)
        (run_events-OrderlyIn es _ (event-Orderly e s i))
    where
      by_fate :
          (o : Fate × Reader) (r : Fate × Reader)
          → OrderlyIn o.1
          → OrderlyIn r.1
          → OrderlyIn (unless_panic o r).1
      by_fate (goes_on, t) r p q = q
      by_fate (nil_dereference, t) r p q = p

  -- An agent whose services have no process when the reader begins, whatever comes: lines of
  -- journalctl, the end of publishers, records of services, and whatever starts fail to be published.
  -- Every start is of a process that the server has not heard of, every completion is of one that is
  -- open, and an open process is the current one of its service, so that no service has two.
  pub run_events-Orderly :
      (es : List AgentEvent) (services : List (Bytes × SystemdService))
      → ((n : Bytes) → current_of (get n services) ≡ none)
      → (let s = (run_events minion h es (new_reader services)).1 in
          Orderly s.services_by_name s.uids s.requests)
  unfolding phase
  run_events-Orderly es services none_runs = run_events-OrderlyIn es (new_reader services) start
    where
      start : OrderlyIn (new_reader services)
      start = record {
        held = λ u n p. absurd (absent_opened p);
        known = λ u n p. absurd (none-some (sym (none_runs n) ∙ p));
        fresh = λ u p. refl;
        formed = tt;
      }
