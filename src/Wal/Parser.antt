-- ===== src/Wal/Parser.antt =====
-- `ParseWalMessage` of wal-listener/listener/parser.go. It gives the outcome and the transaction that
-- it leaves behind.
use godev.Prelude.{
  ℕ, not, ◌&&◌, [], ◌∷◌, ◌++◌, map, some, Bytes, pos, int_eq, ltb_ℤ, ◌==◌, if◌then◌else◌,
}
use godev.Wal.Outcome.{
  Outcome, ok, err, panic, message_lost, empty_wal_message, unknown_message_type,
}
use godev.Wal.Buffer.{Buffer, new_buffer}
use godev.Wal.Word.{ByteOrder}
use godev.Wal.Protocol.{
  Begin, Commit, Relation, RelationColumn, Insert, Update, Delete, commit_msg_type, begin_msg_type,
  origin_msg_type, relation_msg_type, type_msg_type, insert_msg_type, update_msg_type,
  delete_msg_type, truncate_msg_type,
}
use godev.Wal.Messages.{
  get_begin_msg, get_commit_msg, get_insert_msg, get_delete_msg, get_update_msg, get_relation_msg,
}
use godev.Wal.Transaction.{
  insert_kind, update_kind, delete_kind, nil, Decoders, Column, ActionData, WalTransaction,
  create_action_data, store_relation,
}

abbrev pub Effect : Type 0 → Type 0
Effect J = WalTransaction J → Outcome (Unit {0}) × WalTransaction J

abbrev pub done : {J : Type 0} → Effect J
done tx = (ok tt, tx)

-- A message that a `get…Msg` method reads; what is left in the buffer is dropped.
abbrev pub reading : {J M : Type 0} → Outcome (M × Buffer) → (M → Effect J) → Effect J
reading (ok (m, b)) k tx = k m tx
reading (err e) k tx = (err e, tx)
reading (panic p) k tx = (panic p, tx)

unfoldable pub on_begin : {J : Type 0} → Begin → Effect J
on_begin m tx = (ok tt, record tx { lsn = m.lsn; begin_time = some m.timestamp })

unfoldable pub on_commit : {J : Type 0} → Commit → Effect J
on_commit m tx =
    if ltb_ℤ (pos 0) tx.lsn && not (int_eq tx.lsn m.lsn)
    then (err message_lost, tx)
    else (ok tt, record tx { commit_time = some m.timestamp })

abbrev pub column_of : {J : Type 0} → RelationColumn → Column J
column_of rf = record { name = rf.name; value = nil; value_type = rf.type_id; is_key = rf.key }

unfoldable pub on_relation : {J : Type 0} → Relation → Effect J
on_relation m tx = if int_eq tx.lsn (pos 0) then (err message_lost, tx) else (
  ok tt,
  record tx {
    relation_store =
        store_relation m.id
          (record { schema = m.namespace; table = m.name; columns = map column_of m.columns })
          tx.relation_store;
  },
)

-- `tx.Actions = append(tx.Actions, action)`
abbrev pub append_action : {J : Type 0} → Outcome (ActionData J) → Effect J
append_action (ok a) tx = (ok tt, record tx { actions = tx.actions ++ a ∷ [] })
append_action (err e) tx = (err e, tx)
append_action (panic p) tx = (panic p, tx)

module _ {J : Type 0} (d : Decoders J) where
  unfoldable pub on_insert : Insert → Effect J
  on_insert m tx = append_action (create_action_data d tx m.relation_id [] m.new_row insert_kind) tx

  unfoldable pub on_update : Update → Effect J
  on_update m tx =
      append_action (create_action_data d tx m.relation_id m.old_row m.new_row update_kind) tx

  unfoldable pub on_delete : Delete → Effect J
  on_delete m tx = append_action (create_action_data d tx m.relation_id m.old_row [] delete_kind) tx

  -- The `switch` on the message type.
  unfoldable pub parse_body : ByteOrder → ℕ → Buffer → Effect J
  parse_body o t b =
      if t == begin_msg_type
      then reading (get_begin_msg o b) on_begin
      else if t == commit_msg_type
      then reading (get_commit_msg o b) on_commit
      else if t == origin_msg_type
      then done
      else if t == relation_msg_type
      then reading (get_relation_msg o b) on_relation
      else if t == type_msg_type
      then done
      else if t == truncate_msg_type
      then done
      else if t == insert_msg_type
      then reading (get_insert_msg o b) on_insert
      else if t == update_msg_type
      then reading (get_update_msg o b) on_update
      else if t == delete_msg_type
      then reading (get_delete_msg o b) on_delete
      else λ tx. (err (unknown_message_type t), tx)

  unfoldable pub parse_wal_message : ByteOrder → Bytes → Effect J
  unfolding parse_body
  parse_wal_message o [] tx = (err empty_wal_message, tx)
  parse_wal_message o (t ∷ body) tx = parse_body o t (new_buffer body) tx
