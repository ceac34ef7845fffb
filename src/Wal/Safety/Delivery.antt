-- ===== src/Wal/Safety/Delivery.antt =====
-- Publication before acknowledgement: what a WAL message does to the commit that waits.
use godev.Prelude.{
  ℕ, suc, ◌+◌, ◌≡◌, refl, ap, true, false, List, [], ◌∷◌, ◌++◌, some, Bytes, Bool-cases, inl, inr,
  ◌⊎◌, length,
}
use godev.Wal.Outcome.{Outcome, ok, err, publish_failed}
use godev.Wal.Protocol.{Time}
use godev.Wal.Transaction.{ActionData, clear}
use godev.Wal.Event.{Event, event_of, subject_name, create_events}
use godev.Wal.Listener.{
  Action, publish, inc_published, inc_problematic, publish_problem, Setup, State, emit, after,
  clear_tx, publish_events, publish_created, publish_commit,
}

-- One event for each action of the transaction, in order.
unfoldable pub events_of :
    {J : Type 0} → (ℕ → Bytes) → Time → ℕ → List (ActionData J) → List (Event J)
events_of new_uuid t n [] = []
events_of new_uuid t n (a ∷ as') = event_of (new_uuid n) t a ∷ events_of new_uuid t (suc n) as'

-- Whatever the configured filter says, every action of a committed transaction becomes an event, in
-- order, and no table is counted as skipped.
pub create_events-events_of :
    {J : Type 0} (new_uuid : ℕ → Bytes) (tables : List (Bytes × List Bytes)) (t : Time) (n : ℕ)
    (items : List (ActionData J))
    → create_events new_uuid tables (some t) n items ≡ ok (events_of new_uuid t n items, [])
unfolding create_events events_of
create_events-events_of new_uuid tables t n [] = refl
create_events-events_of new_uuid tables t n (a ∷ as') =
    rw (create_events-events_of new_uuid tables t (suc n) as', create_events) refl

module _ {J : Type 0} (e : Setup J) where
  -- The actions for events that were all published.
  unfoldable pub delivered : List (Event J) → List (Action J) → List (Action J)
  delivered [] trace = trace
  delivered (x ∷ xs) trace =
      let subject = subject_name e.lower_format e.topic x in
      delivered xs (inc_published subject x.table ∷ publish subject x true ∷ trace)

  -- The loop published all events; or it published some, was refused the next one, and stopped.
  pub Publishes : List (Event J) → State J → Outcome (Unit {0}) × State J → Type 0
  Publishes es s r =
      (r ≡ (ok tt, record s { trace = delivered es s.trace }))
      ⊎ ((sent : List (Event J)) × (x : Event J) × (left : List (Event J)) × (es ≡ sent ++ x ∷ left)
          × (r ≡ (
            err publish_failed,
            record s {
              trace =
                  inc_problematic publish_problem
                  ∷ publish (subject_name e.lower_format e.topic x) x false
                  ∷ delivered sent s.trace;
            },
          )))

  -- The state once event `x` is published and counted.
  abbrev sent_one : Event J → State J → State J
  sent_one x s =
      let subject = subject_name e.lower_format e.topic x in
      emit (inc_published subject x.table) (emit (publish subject x true) s)

  Publishes-cons :
      (x : Event J) (es : List (Event J)) (s : State J) (r : Outcome (Unit {0}) × State J)
      → Publishes es (sent_one x s) r
      → Publishes (x ∷ es) s r
  unfolding Publishes delivered
  Publishes-cons x es s r (inl h) = inl h
  Publishes-cons x es s r (inr (sent, y, left, h, k)) = inr (x ∷ sent, y, left, ap (◌∷◌ x) h, k)

  -- For every list of events: all are published, in order, each subject asked once and counted; or the
  -- publisher refuses one after some were published, the refusal is counted, nothing after it is
  -- tried, and the loop ends in the publisher's error. Position and transaction do not change.
  pub publish_events-Publishes :
      (es : List (Event J)) (s : State J) → Publishes es s (publish_events e es s)
  unfolding publish_events
  publish_events-Publishes [] s = unfold Publishes delivered in inl refl
  publish_events-Publishes (x ∷ es) s =
      elim (Bool-cases (e.publish_ok s.trace (subject_name e.lower_format e.topic x) x)) [
        | inl sent ↦ rw sent (Publishes-cons x es s _ (publish_events-Publishes es (sent_one x s)))
        | inr refused ↦ rw refused (unfold Publishes delivered in inr ([], x, es, refl, refl))
      ]

  -- The transaction's events, numbered from the state's counter.
  abbrev pub waiting : Time → State J → List (Event J)
  waiting t s = events_of e.new_uuid t s.uuids s.tx.actions

  -- The two ways in which the publication of a commit ends.
  unfoldable pub CommitResult : Time → State J → Outcome (Unit {0}) × State J → Type 0
  CommitResult t s r =
      (r ≡ (
        ok tt,
        record s {
          tx = clear s.tx;
          uuids = s.uuids + length s.tx.actions;
          trace = delivered (waiting t s) s.trace;
        },
      ))
      ⊎ ((sent : List (Event J)) × (x : Event J) × (left : List (Event J)) × (waiting t s
            ≡ sent ++ x ∷ left)
          × (r ≡ (
            err publish_failed,
            record s {
              uuids = s.uuids + length s.tx.actions;
              trace =
                  inc_problematic publish_problem
                  ∷ publish (subject_name e.lower_format e.topic x) x false
                  ∷ delivered sent s.trace;
            },
          )))

  after_publishing :
      (t : Time) (s : State J) (r : Outcome (Unit {0}) × State J)
      → Publishes (waiting t s) (record s { uuids = s.uuids + length s.tx.actions }) r
      → CommitResult t s (after r clear_tx)
  unfolding Publishes CommitResult
  after_publishing t s r (inl h) = inl (ap (λ q. after q clear_tx) h)
  after_publishing t s r (inr (sent, x, left, h, k)) =
      inr (sent, x, left, h, ap (λ q. after q clear_tx) k)

  -- A waiting commit is published whole, one event for each action in order, and the transaction is
  -- cleared; or the publisher refuses one of these events after those before it were published, and
  -- then nothing after it is tried, the refusal is counted, the commit ends in the publisher's error,
  -- and position and transaction stay as they were.
  pub publish_commit-CommitResult :
      (t : Time) (s : State J) → CommitResult t s (publish_commit e (some t) s)
  unfolding publish_commit
  publish_commit-CommitResult t s =
      rw (create_events-events_of e.new_uuid e.tables t s.uuids s.tx.actions, publish_created)
        (after_publishing t s _ (publish_events-Publishes (waiting t s) _))
