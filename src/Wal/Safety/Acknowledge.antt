-- ===== src/Wal/Safety/Acknowledge.antt =====
-- wal-listener/listener/listener.go: acknowledgement of a position, and the commit that waits.
use godev.Prelude.{
  ℕ, ◌≡◌, ◌≢◌, refl, ap, ◌∙◌, true, false, List, [], ◌∷◌, ◌++◌, some, ltb, Bool-cases, inl, inr,
}
use mathlib.Core.Path.{subst, sym}
use godev.Wal.Outcome.{Outcome, ok, err, panic}
use godev.Wal.Protocol.{Time}
use godev.Wal.Transaction.{WalTransaction, clear}
use godev.Wal.Parser.{parse_wal_message}
use godev.Wal.Listener.{
  Action, send_status, inc_problematic, parse_problem, ack_problem, Setup, State, emit, after,
  on_error, with_tx, set_lsn, WalMessage, send_standby_status, ack_wal_message, publish_commit,
  ack_if_newer, parse_into, process_wal_message,
}
use godev.Wal.Safety.Delivery.{delivered, waiting, CommitResult, publish_commit-CommitResult}

-- `t` has the transaction of `s`, position `n`, and more actions.
pub record Reports {J : Type 0} (n : ℕ) (s t : State J) : Type 0 where
  pub position : t.lsn ≡ n
  pub same_tx : t.tx ≡ s.tx
  pub new : List (Action J)
  pub extends : t.trace ≡ new ++ s.trace

module _ {J : Type 0} (e : Setup J) where
  send_standby_status-Reports : (s : State J) → Reports s.lsn s (send_standby_status e s).1
  unfolding send_standby_status
  send_standby_status-Reports s = elim (Bool-cases (e.status_built s.trace s.lsn)) [
    | inl built ↦ elim (Bool-cases (e.status_ok s.trace s.lsn)) [
      | inl sent ↦
          rw (built, sent)
            (record {
              position = refl;
              same_tx = refl;
              new = send_status s.lsn true ∷ [];
              extends = refl;
            })
      | inr lost ↦
          rw (built, lost)
            (record {
              position = refl;
              same_tx = refl;
              new = send_status s.lsn false ∷ [];
              extends = refl;
            })
    ]
    | inr refused ↦
        rw refused (record { position = refl; same_tx = refl; new = []; extends = refl })
  ]

  on_error-Reports :
      (n : ℕ) (s : State J) (r : Outcome (Unit {0}) × State J)
      → Reports n s r.1
      → Reports n s (on_error r (emit (inc_problematic ack_problem))).1
  on_error-Reports n s (ok u, t) h = h
  on_error-Reports n s (err x, t) h = record {
    position = h.position;
    same_tx = h.same_tx;
    new = inc_problematic ack_problem ∷ h.new;
    extends = ap (◌∷◌ (inc_problematic ack_problem)) h.extends;
  }
  on_error-Reports n s (panic p, t) h = h

  ack_if_newer-Reports :
      (n : ℕ) (s : State J)
      → (ack_if_newer e n s).1.lsn ≢ s.lsn
      → Reports n s (ack_if_newer e n s).1
  unfolding ack_if_newer ack_wal_message
  ack_if_newer-Reports n s moved = elim (Bool-cases (ltb s.lsn n)) [
    | inl newer ↦
        let sent = send_standby_status-Reports (set_lsn n s) in
        rw newer (
          on_error-Reports n s _ (record {
            position = sent.position;
            same_tx = sent.same_tx;
            new = sent.new;
            extends = sent.extends;
          }))
    | inr known ↦ absurd ((rw known at moved) refl)
  ]

  -- What an acknowledgement of message `m` finds: the waiting events, published in order.
  pub Settles : WalMessage → Time → State J → Outcome (Unit {0}) × State J → Type 0
  Settles m t s r =
      (r.1.lsn ≡ m.wal_start)
      × (r.1.tx ≡ clear s.tx)
      × (new : List (Action J)) × (r.1.trace ≡ new ++ delivered e (waiting e t s) s.trace)

  commit-Settles :
      (m : WalMessage) (t : Time) (s : State J) (r : Outcome (Unit {0}) × State J)
      → CommitResult e t s r
      → (after r (ack_if_newer e m.wal_start)).1.lsn ≢ s.lsn
      → Settles m t s (after r (ack_if_newer e m.wal_start))
  unfolding CommitResult Settles
  commit-Settles m t s r (inl h) moved =
      let onward = ap (λ q. after q (ack_if_newer e m.wal_start)) h in
      let reported =
        ack_if_newer-Reports m.wal_start _ (λ x. moved (ap (λ q. q.1.lsn) onward ∙ x)) in
      subst (Settles m t s) (sym onward)
        (reported.position, reported.same_tx, reported.new, reported.extends)
  commit-Settles m t s r (inr (sent, x, left, w, h)) moved =
      absurd (moved (ap (λ q. (after q (ack_if_newer e m.wal_start)).1.lsn) h))

  parsed-Settles :
      (m : WalMessage) (t : Time) (s : State J) (r : Outcome (Unit {0})) (tx : WalTransaction J)
      → tx.commit_time ≡ some t
      → let out =
          after
            (after
              (on_error (with_tx (r, tx) s) (emit (inc_problematic parse_problem)))
              (λ u. publish_commit e u.tx.commit_time u))
            (ack_if_newer e m.wal_start) in
        out.1.lsn ≢ s.lsn → Settles m t (record s { tx = tx }) out
  parsed-Settles m t s (ok u) tx h moved =
      let v : State J = record s { tx = tx } in
      let same = ap (λ c. publish_commit e c v) h in
      commit-Settles m t v _
        (subst (CommitResult e t v) (sym same) (publish_commit-CommitResult e t v)) moved
  parsed-Settles m t s (err x) tx h moved = absurd (moved refl)
  parsed-Settles m t s (panic p) tx h moved = absurd (moved refl)

  -- If a WAL message leaves a commit to publish and moves the listener's position, then the position
  -- is the message's, the transaction is cleared, and before anything else that was done after it,
  -- every event of the transaction was published, in order, and each with success.
  pub process_wal_message-Settles :
      (m : WalMessage) (t : Time) (s : State J)
      → let tx = (parse_wal_message e.decoders e.order m.wal_data s.tx).1 in
        tx.commit_time ≡ some t
        → (process_wal_message e m s).1.lsn ≢ s.lsn
        → Settles m t (record s { tx = tx }) (process_wal_message e m s)
  unfolding process_wal_message parse_into
  process_wal_message-Settles m t s h moved =
      let parsed = parse_wal_message e.decoders e.order m.wal_data s.tx in
      parsed-Settles m t s parsed.0 parsed.1 h moved
