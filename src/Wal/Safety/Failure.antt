-- ===== src/Wal/Safety/Failure.antt =====
-- Failures: what an error or a panic leaves behind, and what a refused commit leads to.
use godev.Prelude.{
  ℕ, ◌≡◌, ◌≢◌, refl, Bool, true, false, [], ◌∷◌, Bytes, if◌then◌else◌, Bool-cases, inl, inr, ◌==◌,
  ltb_ℤ, int_eq, pos, not, ◌&&◌,
}
use godev.Wal.Outcome.{Outcome, ok, err, panic}
use godev.Wal.Protocol.{
  commit_msg_type, begin_msg_type, origin_msg_type, relation_msg_type, type_msg_type,
  insert_msg_type, update_msg_type, delete_msg_type, truncate_msg_type, Begin, Commit, Relation,
  Insert, Update, Delete,
}
use godev.Wal.Buffer.{Buffer, new_buffer}
use godev.Wal.Word.{ByteOrder}
use godev.Wal.Messages.{
  get_begin_msg, get_commit_msg, get_insert_msg, get_delete_msg, get_update_msg, get_relation_msg,
}
use godev.Wal.Transaction.{Decoders, ActionData, WalTransaction}
use godev.Wal.Parser.{
  Effect, done, reading, on_begin, on_commit, on_relation, append_action, on_insert, on_update,
  on_delete, parse_body, parse_wal_message,
}

-- Anything but success leaves the transaction as it was.
record Keeps {J : Type 0} (tx : WalTransaction J) (f : Effect J) : Type 0 where
  keeps : (f tx).0 ≢ ok tt → (f tx).1 ≡ tx

module _ {J : Type 0} (tx : WalTransaction J) where
  reading-Keeps :
      {M : Type 0} (r : Outcome (M × Buffer)) (k : M → Effect J)
      → ((m : M) → Keeps tx (k m))
      → Keeps tx (reading r k)
  reading-Keeps (ok (m, b)) k h = record { keeps = (h m).keeps }
  reading-Keeps (err x) k h = record { keeps = λ _. refl }
  reading-Keeps (panic p) k h = record { keeps = λ _. refl }

  append_action-keeps :
      (a : Outcome (ActionData J)) → (append_action a tx).0 ≢ ok tt → (append_action a tx).1 ≡ tx
  append_action-keeps (ok a) n = absurd (n refl)
  append_action-keeps (err x) n = refl
  append_action-keeps (panic p) n = refl

  -- A test between two ways of going on.
  if-Keeps : (b : Bool) (f g : Effect J) → Keeps tx f → Keeps tx g → Keeps tx (if b then f else g)
  if-Keeps true f g hf hg = hf
  if-Keeps false f g hf hg = hg

  on_begin-Keeps : (m : Begin) → Keeps tx (on_begin m)
  on_begin-Keeps m = record { keeps = unfold on_begin in λ n. absurd (n refl) }

  on_commit-Keeps : (m : Commit) → Keeps tx (on_commit m)
  unfolding on_commit
  on_commit-Keeps m = record {
    keeps = elim (Bool-cases (ltb_ℤ (pos 0) tx.lsn && not (int_eq tx.lsn m.lsn))) [
      | inl lost ↦ rw lost (λ _. refl)
      | inr kept ↦ rw kept (λ n. absurd (n refl))
    ];
  }

  on_relation-Keeps : (m : Relation) → Keeps tx (on_relation m)
  unfolding on_relation
  on_relation-Keeps m = record {
    keeps = elim (Bool-cases (int_eq tx.lsn (pos 0))) [
      | inl lost ↦ rw lost (λ _. refl)
      | inr kept ↦ rw kept (λ n. absurd (n refl))
    ];
  }

  done-Keeps : Keeps tx done
  done-Keeps = record { keeps = λ n. absurd (n refl) }

module _ {J : Type 0} (d : Decoders J) (tx : WalTransaction J) where
  on_insert-Keeps : (m : Insert) → Keeps tx (on_insert d m)
  on_insert-Keeps m = record { keeps = unfold on_insert in append_action-keeps tx _ }

  on_update-Keeps : (m : Update) → Keeps tx (on_update d m)
  on_update-Keeps m = record { keeps = unfold on_update in append_action-keeps tx _ }

  on_delete-Keeps : (m : Delete) → Keeps tx (on_delete d m)
  on_delete-Keeps m = record { keeps = unfold on_delete in append_action-keeps tx _ }

  parse_body-Keeps : (o : ByteOrder) (t : ℕ) (b : Buffer) → Keeps tx (parse_body d o t b)
  unfolding parse_body
  parse_body-Keeps o t b =
      if-Keeps tx (t == begin_msg_type) _ _
        (reading-Keeps tx (get_begin_msg o b) on_begin (on_begin-Keeps tx))
        (if-Keeps tx (t == commit_msg_type) _ _
          (reading-Keeps tx (get_commit_msg o b) on_commit (on_commit-Keeps tx))
          (if-Keeps tx (t == origin_msg_type) _ _ (done-Keeps tx) (
            if-Keeps tx (t == relation_msg_type) _ _
              (reading-Keeps tx (get_relation_msg o b) on_relation (on_relation-Keeps tx))
              (if-Keeps tx (t == type_msg_type) _ _ (done-Keeps tx) (
                if-Keeps tx (t == truncate_msg_type) _ _ (done-Keeps tx) (
                  if-Keeps tx (t == insert_msg_type) _ _
                    (reading-Keeps tx (get_insert_msg o b) (on_insert d) on_insert-Keeps)
                    (if-Keeps tx (t == update_msg_type) _ _
                      (reading-Keeps tx (get_update_msg o b) (on_update d) on_update-Keeps)
                      (if-Keeps tx (t == delete_msg_type) _ _
                        (reading-Keeps tx (get_delete_msg o b) (on_delete d) on_delete-Keeps)
                        (record { keeps = λ _. refl })))))))))

-- A message that is refused with an error, or that makes the decoder panic, leaves the transaction
-- as it was, whatever its bytes.
pub parse_wal_message-Keeps :
    {J : Type 0} (d : Decoders J) (o : ByteOrder) (bytes : Bytes) (tx : WalTransaction J)
    → (parse_wal_message d o bytes tx).0 ≢ ok tt
    → (parse_wal_message d o bytes tx).1 ≡ tx
unfolding parse_wal_message
parse_wal_message-Keeps d o [] tx = λ _. refl
parse_wal_message-Keeps d o (t ∷ body) tx = (parse_body-Keeps d tx o t (new_buffer body)).keeps
