-- ===== src/Journal/Crashes.antt =====
-- SubmitJournalCtlStdoutReader of launchy/journalctl-utils.go: the lines that end the agent.
use godev.Prelude.{
  ℕ, false, not, ◌&&◌, Option, none, some, Bytes, codes, bytes_eq, ◌≡◌, ◌≢◌, ◌↔◌, refl, inl, inr,
  Bool-cases,
}
use godev.Journal.Lines.{
  JournalCtlMessage, SystemdService, Host, Reader, MessageKind, Line, text_line, empty_line,
  null_line, unknown_format, message_line, message_kind, app_message, start, stopping, failed,
  stopped, journal_unknown,
}
use godev.Journal.Reading.{
  goes_on, nil_dereference, is_nil, find_service, with_service, with_message, read_line,
  handle_kind, app_line, app_text,
}
use godev.Journal.Kinds.{Cause, not_published, no_kind, app_kind, kind_no}

goes_on_panics : goes_on ≢ nil_dereference
goes_on_panics e = cc

module _ (h : Host) where
  pub data Crashes (l : Bytes) (s : Reader) : Type 0 where
    crashes :
        (m : JournalCtlMessage) (n : Bytes) (v : SystemdService)
        → h.unmarshal_message l ≡ some m
        → bytes_eq m.systemd_user_unit (codes "minion.service") ≡ false
        → find_service m s ≡ some (n, v)
        → (not v.minion_enabled && is_nil v.current_slurp) ≡ false
        → Cause h m v s
        → Crashes l s

  app_panics :
      (n : Bytes) (v : SystemdService) (l : Line) (s : Reader)
      → (app_line h n v l s).0 ≡ nil_dereference
      → (t : Bytes) × (l ≡ text_line t)
        × (v.current_slurp ≡ none)
        × (h.start_is_published s.uids ≡ false)
  app_panics n v empty_line s e = absurd (goes_on_panics e)
  app_panics n v null_line s e = absurd (goes_on_panics e)
  app_panics n v unknown_format s e = absurd (goes_on_panics e)
  app_panics n v (text_line t) s e = by_slurp v.current_slurp refl e
    where
      by_slurp :
          (o : Option ℕ)
          → v.current_slurp ≡ o
          → (app_text h t n v o s).0 ≡ nil_dereference
          → (x : Bytes) × (text_line t ≡ text_line x)
            × (v.current_slurp ≡ none)
            × (h.start_is_published s.uids ≡ false)
      by_slurp (some u) c e = absurd (goes_on_panics e)
      by_slurp none c e = elim (Bool-cases (h.start_is_published s.uids)) [
        | inl l ↦ absurd (goes_on_panics (rw l at e))
        | inr l ↦ (t, refl, c, l)
      ]

  panics_app :
      (n t : Bytes) (v : SystemdService) (s : Reader)
      → v.current_slurp ≡ none
      → h.start_is_published s.uids ≡ false
      → (app_line h n v (text_line t) s).0 ≡ nil_dereference
  panics_app n t v s c f = rw (c, f) refl

  handle_panics :
      (m : JournalCtlMessage) (n : Bytes) (v : SystemdService) (k : Option MessageKind) (s : Reader)
      → message_kind h m ≡ k
      → (handle_kind h m n v k s).0 ≡ nil_dereference
      → Cause h m v s
  handle_panics m n v none s q e = no_kind h m v s q
  handle_panics m n v (some start) s q e = absurd (goes_on_panics e)
  handle_panics m n v (some stopping) s q e = absurd (goes_on_panics e)
  handle_panics m n v (some failed) s q e = absurd (goes_on_panics e)
  handle_panics m n v (some stopped) s q e = absurd (goes_on_panics e)
  handle_panics m n v (some journal_unknown) s q e = absurd (goes_on_panics e)
  handle_panics m n v (some app_message) s q e =
      let (t, l, c, f) = app_panics n v (message_line h m.message) s e in
      not_published t (app_kind h m q) l c f

  panics_handle :
      (m : JournalCtlMessage) (n : Bytes) (v : SystemdService) (s : Reader)
      → Cause h m v s
      → (handle_kind h m n v (message_kind h m) s).0 ≡ nil_dereference
  panics_handle m n v s w = elim (kind_no h m v s w) [
    | inl e ↦ rw e refl
    | inr (t, k, l, c, f) ↦ rw (k, l) (panics_app n t v s c f)
  ]

  service_panics :
      (l : Bytes) (m : JournalCtlMessage) (s : Reader) (o : Option (Bytes × SystemdService))
      → h.unmarshal_message l ≡ some m
      → bytes_eq m.systemd_user_unit (codes "minion.service") ≡ false
      → find_service m s ≡ o
      → (with_service h m o s).0 ≡ nil_dereference
      → Crashes l s
  service_panics l m s none a b q e = absurd (goes_on_panics e)
  service_panics l m s (some (n, v)) a b q e =
      elim (Bool-cases (not v.minion_enabled && is_nil v.current_slurp)) [
        | inl c ↦ absurd (goes_on_panics (rw c at e))
        | inr c ↦ crashes m n v a b q c (handle_panics m n v (message_kind h m) s refl (rw c at e))
      ]

  line_panics :
      (l : Bytes) (s : Reader) (o : Option JournalCtlMessage)
      → h.unmarshal_message l ≡ o
      → (with_message h o s).0 ≡ nil_dereference
      → Crashes l s
  line_panics l s none q e = absurd (goes_on_panics e)
  line_panics l s (some m) q e =
      elim (Bool-cases (bytes_eq m.systemd_user_unit (codes "minion.service"))) [
        | inl b ↦ absurd (goes_on_panics (rw b at e))
        | inr b ↦ service_panics l m s (find_service m s) q b refl (rw b at e)
      ]

  -- A line of journalctl makes the agent panic exactly when it is a message of a service that the
  -- agent knows, not its own, which is enabled or has a process, and one of two things is wrong:
  -- systemd logs the unit, with no text to read; or an application's text comes where no process is
  -- current, and the start of one is not published.
  pub read_line-Crashes :
      (l : Bytes) (s : Reader) → ((read_line h l s).0 ≡ nil_dereference) ↔ Crashes l s
  read_line-Crashes l s = (line_panics l s (h.unmarshal_message l) refl, panics)
    where
      panics : Crashes l s → (read_line h l s).0 ≡ nil_dereference
      panics (crashes m n v a b q c w) = rw (a, b, q, c) (panics_handle m n v s w)
