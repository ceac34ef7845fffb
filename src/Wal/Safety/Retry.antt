-- ===== src/Wal/Safety/Retry.antt =====
-- wal-listener/listener/listener.go: the next message after a commit whose publication was refused.
use mathlib.Core.Path.{subst, sym}
use godev.Prelude.{◌≡◌, ◌≢◌, refl, ap, ◌∙◌, [], ◌∷◌, ◌++◌, map, some, ℤ, inl, inr}
use godev.Wal.Outcome.{Outcome, ok, err, publish_failed}
use godev.Wal.Protocol.{Time}
use godev.Wal.Word.{big_endian}
use godev.Wal.Transaction.{ActionData, WalTransaction, create_action_data, insert_kind}
use godev.Wal.Parser.{append_action, parse_wal_message}
use godev.Wal.Listener.{
  inc_problematic, parse_problem, Setup, State, emit, after, on_error, with_tx, WalMessage,
  publish_commit, ack_if_newer, parse_into, process_wal_message,
}
use godev.Wal.Encode.{inserts, Row, cell_data, put_message, MessageFits}
use godev.Wal.Decode.Refinement.{perform, parse_wal_message-put_message}
use godev.Wal.Safety.Delivery.{CommitResult, publish_commit-CommitResult}
use godev.Wal.Safety.Acknowledge.{Settles, process_wal_message-Settles}

module _ {J : Type 0} (e : Setup J) where
  -- What a refused commit leaves: position and transaction are those before the publication.
  abbrev pub Kept : State J → Outcome (Unit {0}) × State J → Type 0
  Kept s r = (r.0 ≡ err publish_failed) × (r.1.lsn ≡ s.lsn) × (r.1.tx ≡ s.tx)

  commit-Kept :
      (t : Time) (s : State J) (r : Outcome (Unit {0}) × State J) (m : WalMessage)
      → CommitResult e t s r
      → r.0 ≢ ok tt
      → Kept s (after r (ack_if_newer e m.wal_start))
  unfolding CommitResult
  commit-Kept t s r m (inl h) n = absurd (n (ap (λ q. q.0) h))
  commit-Kept t s r m (inr (sent, x, left, w, h)) n =
      subst (λ q. Kept s (after q (ack_if_newer e m.wal_start))) (sym h) (refl, refl, refl)

  -- A message that is read, with a commit waiting that the publisher refuses in part: the message
  -- ends in the publisher's error, the position is not acknowledged, and the transaction with its
  -- commit and all its actions stays for the next message.
  pub process_wal_message-Kept :
      (m : WalMessage) (t : Time) (s : State J) (tx : WalTransaction J)
      → parse_wal_message e.decoders e.order m.wal_data s.tx ≡ (ok tt, tx)
      → tx.commit_time ≡ some t
      → (publish_commit e (some t) (record s { tx = tx })).0 ≢ ok tt
      → Kept (record s { tx = tx }) (process_wal_message e m s)
  unfolding process_wal_message parse_into
  process_wal_message-Kept m t s tx h c n =
      let v : State J = record s { tx = tx } in
      let go = λ (q : Outcome (Unit {0}) × WalTransaction J).
        after
          (after (on_error (with_tx q s) (emit (inc_problematic parse_problem)))
            (λ u. publish_commit e u.tx.commit_time u))
          (ack_if_newer e m.wal_start) in
      let path = ap go h ∙ ap (λ o. after (publish_commit e o v) (ack_if_newer e m.wal_start)) c in
      subst (Kept v) (sym path)
        (commit-Kept t v (publish_commit e (some t) v) m (publish_commit-CommitResult e t v) n)

  -- With a refused commit waiting, an insert of the next transaction is published as part of the
  -- old one, under its commit time, before it is committed itself: whenever the message moves the
  -- position, the new action is among the events that were published with success.
  pub insert-after-refusal :
      (m : WalMessage) (t : Time) (s : State J) (id : ℤ) (row : Row) (a : ActionData J)
      → e.order ≡ big_endian
      → m.wal_data ≡ put_message big_endian (inserts id row)
      → MessageFits (inserts id row)
      → create_action_data e.decoders s.tx id [] (map cell_data row) insert_kind ≡ ok a
      → s.tx.commit_time ≡ some t
      → (process_wal_message e m s).1.lsn ≢ s.lsn
      → Settles e m t
          (record s { tx = record s.tx { actions = s.tx.actions ++ a ∷ [] } })
          (process_wal_message e m s)
  unfolding perform
  insert-after-refusal m t s id row a o w f c k moved =
      let read =
        ap (λ x. parse_wal_message e.decoders x m.wal_data s.tx) o
        ∙ ap (λ x. parse_wal_message e.decoders big_endian x s.tx) w
        ∙ parse_wal_message-put_message e.decoders (inserts id row) s.tx f
        ∙ ap (λ x. append_action x s.tx) c in
      subst (λ q. Settles e m t (record s { tx = q.1 }) (process_wal_message e m s)) read
        (process_wal_message-Settles e m t s (ap (λ q. q.1.commit_time) read ∙ k) moved)
