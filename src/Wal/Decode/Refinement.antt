-- ===== src/Wal/Decode/Refinement.antt =====
-- wal-listener/listener/parser.go: `ParseWalMessage` on a message as a server writes it.
use godev.Prelude.{◌≡◌, refl, ap, true, false, [], map, Bytes, append-nil, sym}
use godev.Wal.Outcome.{Outcome}
use godev.Wal.Buffer.{Parse, Buffer, new_buffer}
use godev.Wal.Word.{big_endian}
use godev.Wal.Transaction.{
  insert_kind, update_kind, delete_kind, Decoders, WalTransaction, create_action_data,
}
use godev.Wal.Parser.{
  Effect, done, reading, on_begin, on_commit, on_relation, append_action, on_insert, on_update,
  on_delete, parse_wal_message, parse_body,
}
use godev.Wal.Reads.{Reads}
use godev.Wal.Encode.{
  Message, begins, commits, relates, inserts, updates, deletes, origins, types, truncates,
  cell_data, old_cells, nanos, put_message, MessageFits,
}
use godev.Wal.Decode.Messages.{
  Reads-begin, Reads-commit, Reads-relation, Reads-insert, Reads-delete_key, Reads-delete_row,
  Reads-update,
}

-- The step of a message, said of the message itself and not of its bytes.
unfoldable pub perform : {J : Type 0} → Decoders J → Message → Effect J
perform d (begins lsn micros xid) tx =
    on_begin (record { lsn = lsn; timestamp = nanos micros; xid = xid }) tx
perform d (commits flags lsn transaction_lsn micros) tx =
    on_commit
      (record {
        flags = flags;
        lsn = lsn;
        transaction_lsn = transaction_lsn;
        timestamp = nanos micros;
      })
      tx
perform d (relates r) tx = on_relation r tx
perform d (inserts id row) tx =
    append_action (create_action_data d tx id [] (map cell_data row) insert_kind) tx
perform d (updates id old row) tx =
    append_action
      (create_action_data d tx id (map cell_data (old_cells old)) (map cell_data row) update_kind)
      tx
perform d (deletes id is_key row) tx =
    append_action (create_action_data d tx id (map cell_data row) [] delete_kind) tx
perform d (origins lsn name) tx = done tx
perform d (types id namespace name) tx = done tx
perform d (truncates options ids) tx = done tx

reading-Reads :
    {J M : Type 0} {m : Parse M} {bs : Bytes} {a : M} (k : M → Effect J) (tx : WalTransaction J)
    → Reads m bs a
    → reading (m (new_buffer bs)) k tx ≡ k a tx
unfolding new_buffer
reading-Reads {bs = bs} k tx r =
    let (b', e, h) = r.run (new_buffer bs) [] (sym (append-nil bs)) in
    ap (λ (x : Outcome (_ × Buffer)). reading x k tx) e

-- For a message of any of the nine kinds, with its fields in the protocol's ranges, on the bytes that a
-- server writes: the outcome and the transaction are those of the message's own step, on what was
-- written. For an origin, a type or a truncate message, whose fields are not decoded, that is success
-- with the transaction unchanged.
pub parse_wal_message-put_message :
    {J : Type 0} (d : Decoders J) (m : Message) (tx : WalTransaction J)
    → MessageFits m
    → parse_wal_message d big_endian (put_message big_endian m) tx ≡ perform d m tx
unfolding parse_wal_message perform on_insert on_update on_delete
parse_wal_message-put_message d (begins lsn micros xid) tx h =
    reading-Reads on_begin tx (Reads-begin big_endian lsn micros xid h.0 h.1 h.2)
parse_wal_message-put_message d (commits flags lsn transaction_lsn micros) tx h =
    reading-Reads on_commit tx
      (Reads-commit big_endian flags lsn transaction_lsn micros h.0 h.1 h.2 h.3)
parse_wal_message-put_message d (relates r) tx h =
    reading-Reads on_relation tx (Reads-relation big_endian r h.0 h.1 h.2 h.3 h.4 h.5)
parse_wal_message-put_message d (inserts id row) tx h =
    reading-Reads (on_insert d) tx (Reads-insert big_endian id row h.0 h.1)
parse_wal_message-put_message d (updates id old row) tx h =
    reading-Reads (on_update d) tx (Reads-update id old row h.0 h.1 h.2)
parse_wal_message-put_message d (deletes id true row) tx h =
    reading-Reads (on_delete d) tx (Reads-delete_key id row h.0 h.1)
parse_wal_message-put_message d (deletes id false row) tx h =
    reading-Reads (on_delete d) tx (Reads-delete_row id row h.0 h.1)
parse_wal_message-put_message d (origins lsn name) tx h = unfold parse_body in refl
parse_wal_message-put_message d (types id namespace name) tx h = unfold parse_body in refl
parse_wal_message-put_message d (truncates options ids) tx h = unfold parse_body in refl
