-- ===== src/Journal/Histories.antt =====
-- SubmitJournalCtlStdoutReader of launchy/journalctl-utils.go: whatever happens, the processes that the
-- server holds open are those of the services.
use godev.Prelude.{
  ==_iff, ℕ, suc, Option, none, some, Bytes, codes, bytes_eq_iff, get, ◌≡◌, refl, sym, ap, inl, inr,
  Bool-cases, arith,
}
use godev.Journal.Lines.{
  JournalCtlMessage, MessageKind, app_message, start, stopping, failed, stopped, journal_unknown,
  Line, text_line, empty_line, null_line, unknown_format, SystemdService, Host, Reader,
  message_line,
}
use godev.Journal.Reading.{
  Phase, absent, opened, closed, phase, shutdown_in, shutdown_process, set_slurp, stop_slurp,
  start_slurp, new_slurp, send_text, started, app_text, app_line, handle_kind, pid_or_zero,
}
use godev.Journal.Processes.{
  current_of, Orderly, OrderlyIn, completed-Orderly, forgotten-Orderly, kept-Orderly,
  started-Orderly, put_self,
}

pub shutdown_process-Orderly :
    (u : ℕ) (t : Bytes) (s : Reader) → OrderlyIn s → OrderlyIn (shutdown_process u t s)
shutdown_process-Orderly u t s i = by_phase (phase u s.requests) refl
  where
    by_phase : (q : Phase) → phase u s.requests ≡ q → OrderlyIn (shutdown_in q u t s)
    by_phase absent e = i
    by_phase closed e = i
    by_phase (opened n) e = completed-Orderly u t n e i

abbrev Stopped : Bytes → Reader → Type 0
Stopped n s = OrderlyIn s × (current_of (get n s.services_by_name) ≡ none)

stop-Orderly :
    (t n : Bytes) (v : SystemdService) (s : Reader)
    → get n s.services_by_name ≡ some v
    → OrderlyIn s
    → Stopped n (stop_slurp t n v v.current_slurp s)
unfolding phase
stop-Orderly t n v s e i = by_slurp v.current_slurp (ap current_of e)
  where
    by_phase :
        (u : ℕ) (q : Phase)
        → current_of (get n s.services_by_name) ≡ some u
        → phase u s.requests ≡ q
        → Stopped n (set_slurp n v none (shutdown_in q u t s))
    by_phase u absent c p = absurd (i.known u n c p)
    by_phase u closed c p =
        (forgotten-Orderly n v u c p i, put_self _ n n _ ((bytes_eq_iff n n).1 refl))
    by_phase u (opened k) c p = (
      forgotten-Orderly n v u c (rw ((==_iff u u).1 refl) refl) (completed-Orderly u t k p i),
      put_self _ n n _ ((bytes_eq_iff n n).1 refl),
    )

    by_slurp :
        (o : Option ℕ)
        → current_of (get n s.services_by_name) ≡ o
        → Stopped n (stop_slurp t n v o s)
    by_slurp none c = (i, c)
    by_slurp (some u) c = by_phase u (phase u s.requests) c refl

module _ (h : Host) where
  start-Orderly :
      (n : Bytes) (v : SystemdService) (s : Reader) → Stopped n s → OrderlyIn (start_slurp h n v s)
  start-Orderly n v s (i, c) = elim (Bool-cases (h.start_is_published s.uids)) [
    | inl l ↦ rw l (started-Orderly n v (pid_or_zero (h.current_pid s.uids n)) c i)
    | inr l ↦ rw l (kept-Orderly n (record v { current_slurp = none }) (sym c) later)
  ]
    where
      later : Orderly s.services_by_name (suc s.uids) s.requests
      later = record {
        held = i.held;
        known = i.known;
        fresh = λ u p. i.fresh u (omega arith);
        formed = i.formed;
      }

  new-Orderly :
      (n : Bytes) (v : SystemdService) (s : Reader)
      → get n s.services_by_name ≡ some v
      → OrderlyIn s
      → OrderlyIn (new_slurp h n v s)
  new-Orderly n v s e i =
      start-Orderly n v (stop_slurp (codes "disappeared") n v v.current_slurp s)
        (stop-Orderly (codes "disappeared") n v s e i)

  send-Orderly :
      (t : Bytes) (o : Option ℕ) (s : Reader) → OrderlyIn s → OrderlyIn (send_text h t o s).1
  send-Orderly t none s i = i
  send-Orderly t (some u) s i = i

  app-Orderly :
      (n : Bytes) (v : SystemdService) (l : Line) (s : Reader)
      → get n s.services_by_name ≡ some v
      → OrderlyIn s
      → OrderlyIn (app_line h n v l s).1
  app-Orderly n v empty_line s e i = i
  app-Orderly n v null_line s e i = i
  app-Orderly n v unknown_format s e i = i
  app-Orderly n v (text_line t) s e i = by_slurp v.current_slurp
    where
      by_slurp : (o : Option ℕ) → OrderlyIn (app_text h t n v o s).1
      by_slurp none = send-Orderly t (started h s.uids) (new_slurp h n v s) (new-Orderly n v s e i)
      by_slurp (some u) = i

  pub handle-Orderly :
      (m : JournalCtlMessage) (n : Bytes) (v : SystemdService) (k : Option MessageKind) (s : Reader)
      → get n s.services_by_name ≡ some v
      → OrderlyIn s
      → OrderlyIn (handle_kind h m n v k s).1
  handle-Orderly m n v none s e i = i
  handle-Orderly m n v (some app_message) s e i = app-Orderly n v (message_line h m.message) s e i
  handle-Orderly m n v (some start) s e i = new-Orderly n v s e i
  handle-Orderly m n v (some stopping) s e i = i
  handle-Orderly m n v (some failed) s e i = (stop-Orderly (codes "failed") n v s e i).0
  handle-Orderly m n v (some stopped) s e i = (stop-Orderly (codes "stopped") n v s e i).0
  handle-Orderly m n v (some journal_unknown) s e i = i
