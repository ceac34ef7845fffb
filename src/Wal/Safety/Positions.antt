-- ===== src/Wal/Safety/Positions.antt =====
-- wal-listener/listener/listener.go: the write-ahead-log positions that the listener reports.
use godev.Prelude.{
  ℕ, ◌≤◌, List, [], ◌∷◌, Option, none, some, Bytes, arith, ltb, Bool-cases, Option-cases, inl, inr,
  tests, ◌==◌,
}
use godev.Wal.Outcome.{Outcome, ok, err, panic}
use godev.Wal.Protocol.{Time}
use godev.Wal.Event.{Event, subject_name}
use godev.Wal.Parser.{parse_wal_message}
use godev.Wal.Listener.{
  with_tx, Action, publish, send_status, beat_status, inc_published, inc_skipped, inc_problematic,
  Problem, parse_problem, ack_problem, clear_tx, set_lsn, Setup, State, Op, emit, after, on_error,
  ReplicationMessage, report_position, send_standby_status, ack_wal_message, publish_events,
  count_skipped, publish_created, publish_commit, ack_if_newer, parse_into, process_wal_message,
  process_message, process_heart_beat,
}
use godev.Wal.Service.{
  Wait, cancelled, failed, empty, message, stream_round, heart_beat_after, Shared, Step, streams,
  reads, reports, Reach, here, moves,
}

-- The reports towards the past, the latest first. Those of the stream fall and none lies above `n`;
-- those of the heartbeats fall and none lies above `b`; and none of a heartbeat lies above the stream's
-- next report after it, or `n` where there is none.
abbrev pub Falling : {J : Type 0} → ℕ → ℕ → List (Action J) → Type 0
Falling n b [] = Unit {0}
Falling n b (send_status l answer ∷ t) = (l ≤ n) × Falling l b t
Falling n b (beat_status l answer ∷ t) = (l ≤ n) × (l ≤ b) × Falling n l t
Falling n b (publish _ _ _ ∷ t) = Falling n b t
Falling n b (inc_published _ _ ∷ t) = Falling n b t
Falling n b (inc_skipped _ ∷ t) = Falling n b t
Falling n b (inc_problematic _ ∷ t) = Falling n b t

Falling-mono :
    {J : Type 0} (m n a b : ℕ) (t : List (Action J)) → m ≤ n → a ≤ b → Falling m a t → Falling n b t
Falling-mono m n a b [] h k f = tt
Falling-mono m n a b (send_status l answer ∷ t) h k f =
    (omega arith, Falling-mono l l a b t (omega arith) k f.1)
Falling-mono m n a b (beat_status l answer ∷ t) h k f =
    (omega arith, omega arith, Falling-mono m n l l t h (omega arith) f.2)
Falling-mono m n a b (publish _ _ _ ∷ t) h k f = Falling-mono m n a b t h k f
Falling-mono m n a b (inc_published _ _ ∷ t) h k f = Falling-mono m n a b t h k f
Falling-mono m n a b (inc_skipped _ ∷ t) h k f = Falling-mono m n a b t h k f
Falling-mono m n a b (inc_problematic _ ∷ t) h k f = Falling-mono m n a b t h k f

-- The position does not fall, and the reports stay in order.
record Advances {J : Type 0} (s t : State J) : Type 0 where
  grows : s.lsn ≤ t.lsn
  ordered : (b : ℕ) → Falling s.lsn b s.trace → Falling t.lsn b t.trace

module _ {J : Type 0} where
  Advances-refl : (s : State J) → Advances s s
  Advances-refl s = record { grows = omega arith; ordered = λ b f. f }

  Advances-trans : {s t u : State J} → Advances s t → Advances t u → Advances s u
  Advances-trans a b = record { grows = omega arith; ordered = λ n f. b.ordered n (a.ordered n f) }

  after-Advances :
      {s : State J} (r : Outcome (Unit {0}) × State J) (k : Op J)
      → Advances s r.1
      → ((t : State J) → Advances t (k t).1)
      → Advances s (after r k).1
  after-Advances (ok u, t) k a h = Advances-trans a (h t)
  after-Advances (err e, t) k a h = a
  after-Advances (panic p, t) k a h = a

  on_error-Advances :
      {s : State J} (r : Outcome (Unit {0}) × State J) (p : Problem)
      → Advances s r.1
      → Advances s (on_error r (emit (inc_problematic p))).1
  on_error-Advances (ok u, t) p a = a
  on_error-Advances (err e, t) p a = record { grows = a.grows; ordered = a.ordered }
  on_error-Advances (panic q, t) p a = a

  count_skipped-Falling :
      (n b : ℕ) (ts : List Bytes) (t : List (Action J))
      → Falling n b t
      → Falling n b (count_skipped ts t)
  count_skipped-Falling n b [] t f = f
  count_skipped-Falling n b (x ∷ ts) t f = count_skipped-Falling n b ts (inc_skipped x ∷ t) f

module _ {J : Type 0} (e : Setup J) where
  send_standby_status-Advances : (s : State J) → Advances s (send_standby_status e s).1
  unfolding send_standby_status
  send_standby_status-Advances s = elim (Bool-cases (e.status_built s.trace s.lsn)) [
    | inl built ↦ elim (Bool-cases (e.status_ok s.trace s.lsn)) [
      | inl sent ↦
          rw (built, sent) (record { grows = omega arith; ordered = λ b f. (omega arith, f) })
      | inr lost ↦
          rw (built, lost) (record { grows = omega arith; ordered = λ b f. (omega arith, f) })
    ]
    | inr refused ↦ rw refused (Advances-refl s)
  ]

  publish_events-Advances :
      (es : List (Event J)) (s : State J) → Advances s (publish_events e es s).1
  unfolding publish_events
  publish_events-Advances [] s = Advances-refl s
  publish_events-Advances (x ∷ es) s =
      elim (Bool-cases (e.publish_ok s.trace (subject_name e.lower_format e.topic x) x)) [
        | inl sent ↦ rw sent (
            Advances-trans (record { grows = omega arith; ordered = λ b f. f })
              (publish_events-Advances es _))
        | inr refused ↦ rw refused (record { grows = omega arith; ordered = λ b f. f })
      ]

  publish_created-Advances :
      (r : Outcome (List (Event J) × List Bytes)) (s : State J)
      → Advances s (publish_created e r s).1
  publish_created-Advances (ok (es, skipped)) s =
      Advances-trans
        (record {
          grows = omega arith;
          ordered = λ b. count_skipped-Falling s.lsn b skipped s.trace;
        })
        (publish_events-Advances es _)
  publish_created-Advances (err x) s = Advances-refl s
  publish_created-Advances (panic p) s = Advances-refl s

  publish_commit-Advances : (t : Option Time) (s : State J) → Advances s (publish_commit e t s).1
  unfolding publish_commit
  publish_commit-Advances none s = Advances-refl s
  publish_commit-Advances (some t) s =
      after-Advances _ clear_tx (publish_created-Advances _ s)
        (λ u. record { grows = omega arith; ordered = λ b f. f })

  ack_if_newer-Advances : (n : ℕ) (s : State J) → Advances s (ack_if_newer e n s).1
  unfolding ack_if_newer ack_wal_message
  ack_if_newer-Advances n s = elim (Bool-cases (ltb s.lsn n)) [
    | inl newer ↦
        let raised : Advances s (set_lsn n s) = record {
          grows = omega tests;
          ordered = λ b. Falling-mono s.lsn n b b s.trace (omega tests) (omega arith);
        } in
        rw newer (
          on_error-Advances _ ack_problem
            (Advances-trans raised (send_standby_status-Advances (set_lsn n s))))
    | inr known ↦ rw known (Advances-refl s)
  ]

  parse_into-Advances : (bytes : Bytes) (s : State J) → Advances s (parse_into e bytes s).1
  unfolding parse_into
  parse_into-Advances bytes s =
      on_error-Advances (with_tx (parse_wal_message e.decoders e.order bytes s.tx) s) parse_problem
        (record { grows = omega arith; ordered = λ b f. f })

  process_message-Advances :
      (msg : ReplicationMessage) (s : State J) → Advances s (process_message e msg s).1
  unfolding process_message process_wal_message
  process_message-Advances msg s = elim (Option-cases msg.wal_message) [
    | inl absent ↦ rw absent (Advances-refl s)
    | inr (m, present) ↦ rw present (
        after-Advances _ (ack_if_newer e m.wal_start)
          (after-Advances _ _ (parse_into-Advances m.wal_data s)
            (λ t. publish_commit-Advances t.tx.commit_time t))
          (ack_if_newer-Advances m.wal_start))
  ]

  process_heart_beat-Advances :
      (msg : ReplicationMessage) (s : State J) → Advances s (process_heart_beat e msg s)
  unfolding process_heart_beat
  process_heart_beat-Advances msg s = elim (Option-cases msg.server_heartbeat) [
    | inl absent ↦ rw absent (Advances-refl s)
    | inr (h, present) ↦ rw present (elim (Bool-cases (h.reply_requested == 1)) [
      | inl asked ↦ rw asked (send_standby_status-Advances s)
      | inr silent ↦ rw silent (Advances-refl s)
    ])
  ]

  heart_beat_after-Advances :
      {s : State J} (msg : ReplicationMessage) (r : Outcome (Unit {0}) × State J)
      → Advances s r.1
      → Advances s (heart_beat_after e msg r).1
  heart_beat_after-Advances msg (ok u, t) a = Advances-trans a (process_heart_beat-Advances msg t)
  heart_beat_after-Advances msg (err x, t) a = Advances-trans a (process_heart_beat-Advances msg t)
  heart_beat_after-Advances msg (panic p, t) a = a

  stream_round-Advances : (w : Wait) (s : State J) → Advances s (stream_round e w s).1
  unfolding stream_round
  stream_round-Advances cancelled s = Advances-refl s
  stream_round-Advances failed s = Advances-refl s
  stream_round-Advances empty s = Advances-refl s
  stream_round-Advances (message msg) s =
      heart_beat_after-Advances msg _ (process_message-Advances msg s)

  -- The bound of the heartbeats' reports: the position that one has read, or the listener's.
  abbrev beat_bound : Shared J → ℕ
  beat_bound (s, none) = s.lsn
  beat_bound (s, some l) = l

  -- The reports are in order, and a position that a heartbeat has read is not above the listener's.
  abbrev pub IsOrdered : Shared J → Type 0
  IsOrdered (s, p) = (beat_bound (s, p) ≤ s.lsn) × Falling s.lsn (beat_bound (s, p)) s.trace

  report_position-IsOrdered :
      (s : State J) (l : ℕ)
      → IsOrdered (s, some l)
      → (s.lsn ≤ (report_position e beat_status l s).1.lsn)
        × IsOrdered ((report_position e beat_status l s).1, none)
  report_position-IsOrdered s l (h, f) = elim (Bool-cases (e.status_built s.trace l)) [
    | inl built ↦ elim (Bool-cases (e.status_ok s.trace l)) [
      | inl sent ↦ rw (built, sent) (omega arith, (omega arith, (h, h, f)))
      | inr lost ↦ rw (built, lost) (omega arith, (omega arith, (h, h, f)))
    ]
    | inr refused ↦
        rw refused
          (omega arith, (omega arith, Falling-mono s.lsn s.lsn l s.lsn s.trace (omega arith) h f))
  ]

  round-IsOrdered :
      (w : Wait) (s : State J) (p : Option ℕ)
      → IsOrdered (s, p)
      → (s.lsn ≤ (stream_round e w s).1.lsn) × IsOrdered ((stream_round e w s).1, p)
  round-IsOrdered w s none (h, f) =
      let a = stream_round-Advances w s in
      let t = (stream_round e w s).1 in
      (
        a.grows,
        (
          omega arith,
          Falling-mono t.lsn t.lsn s.lsn t.lsn t.trace (omega arith) a.grows (a.ordered s.lsn f),
        ),
      )
  round-IsOrdered w s (some l) (h, f) =
      let a = stream_round-Advances w s in let up = a.grows in (up, (omega arith, a.ordered l f))

  Step-IsOrdered : {x y : Shared J} → Step e x y → IsOrdered x → (x.0.lsn ≤ y.0.lsn) × IsOrdered y
  Step-IsOrdered (streams w s p) h = round-IsOrdered w s p h
  Step-IsOrdered (reads s) h = (omega arith, h)
  Step-IsOrdered (reports s l) h = report_position-IsOrdered s l h

  -- In every interleaving of whole rounds of the stream with the periodic heartbeats, each of which
  -- reads the position in one step and reports it in a later one, whatever the messages hold and the
  -- collaborators answer: the listener's position never falls. And if the reports so far are in
  -- order, they stay so: the stream's rise, up to its position; the heartbeats' rise; and a
  -- heartbeat's may be older than the stream's report before it, but is never above the one after it.
  pub Reach-IsOrdered :
      {x y : Shared J} → Reach e x y → IsOrdered x → (x.0.lsn ≤ y.0.lsn) × IsOrdered y
  Reach-IsOrdered here h = (omega arith, h)
  Reach-IsOrdered (moves r st) h =
      let (up, mid) = Reach-IsOrdered r h in
      let (up', end) = Step-IsOrdered st mid in (omega arith, end)
