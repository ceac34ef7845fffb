-- ===== src/Wal/Messages.antt =====
-- The methods `get…Msg` of `BinaryParser` in wal-listener/listener/parser.go. Go evaluates the calls
-- of a composite literal from left to right.
use godev.Prelude.{Bool, true, false, ◌||◌, List, [], ◌==◌}
use godev.Wal.Buffer.{Parse, pure, ◌>>=◌, next_byte}
use godev.Wal.Word.{ByteOrder}
use godev.Wal.Protocol.{
  Begin, Commit, Relation, TupleData, Insert, Update, Delete, new_tuple_data_type,
}
use godev.Wal.Reader.{
  read_int8, read_int32, read_int64, read_timestamp, read_string, char_is_exists, read_columns,
  read_tuple_data,
}

unfoldable pub get_begin_msg : ByteOrder → Parse Begin
get_begin_msg o = do
  lsn ← read_int64 o
  timestamp ← read_timestamp o
  xid ← read_int32 o
  pure (record { lsn = lsn; timestamp = timestamp; xid = xid })

unfoldable pub get_commit_msg : ByteOrder → Parse Commit
get_commit_msg o = do
  flags ← read_int8 o
  lsn ← read_int64 o
  transaction_lsn ← read_int64 o
  timestamp ← read_timestamp o
  pure (record {
    flags = flags;
    lsn = lsn;
    transaction_lsn = transaction_lsn;
    timestamp = timestamp;
  })

unfoldable pub get_insert_msg : ByteOrder → Parse Insert
get_insert_msg o = do
  relation_id ← read_int32 o
  tag ← next_byte
  new_row ← read_tuple_data o
  pure (record {
    relation_id = relation_id;
    new_tuple = tag == new_tuple_data_type;
    new_row = new_row;
  })

unfoldable pub get_delete_msg : ByteOrder → Parse Delete
get_delete_msg o = do
  relation_id ← read_int32 o
  key_tuple ← char_is_exists b'K'
  old_tuple ← char_is_exists b'O'
  old_row ← read_tuple_data o
  pure (record {
    relation_id = relation_id;
    key_tuple = key_tuple;
    old_tuple = old_tuple;
    old_row = old_row;
  })

-- `if u.KeyTuple || u.OldTuple { u.OldRow = … }`
unfoldable pub read_old_row : ByteOrder → Bool → Parse (List TupleData)
read_old_row o true = read_tuple_data o
read_old_row o false = pure []

-- The answer to `charIsExists('N')` goes to the field `OldTuple`; `NewTuple` stays false.
unfoldable pub get_update_msg : ByteOrder → Parse Update
get_update_msg o = do
  relation_id ← read_int32 o
  key_tuple ← char_is_exists b'K'
  old_tuple ← char_is_exists b'O'
  old_row ← read_old_row o (key_tuple || old_tuple)
  old_tuple' ← char_is_exists b'N'
  new_row ← read_tuple_data o
  pure (record {
    relation_id = relation_id;
    key_tuple = key_tuple;
    old_tuple = old_tuple';
    old_row = old_row;
    new_tuple = false;
    new_row = new_row;
  })

unfoldable pub get_relation_msg : ByteOrder → Parse Relation
get_relation_msg o = do
  id ← read_int32 o
  namespace ← read_string
  name ← read_string
  replica ← read_int8 o
  columns ← read_columns o
  pure
      (record { id = id; namespace = namespace; name = name; replica = replica; columns = columns })
