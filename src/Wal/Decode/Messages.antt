-- ===== src/Wal/Decode/Messages.antt =====
-- wal-listener/listener/parser.go: each `get…Msg` method on a message that a server wrote.
use mathlib.Core.List.{append-nil}
use godev.Prelude.{
  ℕ, List, ◌^◌, ◌<◌, ◌≡◌, refl, Bool, true, false, [], ◌∷◌, ◌++◌, map, Bytes, ℤ, pos, negsuc,
  eq_of_parts, arith, ◌==◌, length, All, ◌/◌, ◌%◌,
}
use godev.Wal.Buffer.{Parse, pure, ◌>>=◌, next_byte}
use godev.Wal.Word.{ByteOrder, big_endian, put_int, Fits, mul64, mul64_thousand}
use godev.Wal.Protocol.{Update, TupleData, Relation}
use godev.Wal.Reader.{
  read_int, read_timestamp, read_string, char_is_exists, read_columns, read_tuple_data,
}
use godev.Wal.Messages.{
  get_begin_msg, get_commit_msg, get_insert_msg, get_delete_msg, get_update_msg, read_old_row,
  get_relation_msg,
}
use godev.Wal.Reads.{
  Reads, Reads-pure, Reads-bind, Reads-last, Reads-next_byte, Reads-hit, Reads-miss,
}
use godev.Wal.Encode.{
  Row, OldRow, key_row, full_row, no_row, put_old_row, old_cells, cell_data, put_row, put_string,
  put_columns, Short, RowFits, IsText, ColumnFits, MicrosFit, nanos,
}
use godev.Wal.Decode.Primitives.{Reads-int, Reads-timestamp, Reads-string, Reads-row, Reads-columns}

mul64-nanos : (m : ℤ) → MicrosFit m → mul64 m (pos 1000) ≡ nanos m
mul64-nanos (pos n) h =
    eq_of_parts _ _ (omega (arith, mul64_thousand (pos n) (omega arith) h.0 h.1))
mul64-nanos (negsuc n) h =
    eq_of_parts _ _ (omega (arith, mul64_thousand (negsuc n) (omega arith) h.0 h.1))

Reads-micros :
    (o : ByteOrder) (m : ℤ) → MicrosFit m → Reads (read_timestamp o) (put_int o 8 m) (nanos m)
Reads-micros o m h = rw (← mul64-nanos m h) (Reads-timestamp o m (omega arith))

pub Reads-begin :
    (o : ByteOrder) (lsn micros xid : ℤ)
    → Fits (256 ^ 8) lsn
    → MicrosFit micros
    → Fits (256 ^ 4) xid
    → Reads
        (get_begin_msg o)
        (put_int o 8 lsn ++ (put_int o 8 micros ++ put_int o 4 xid))
        (record { lsn = lsn; timestamp = nanos micros; xid = xid })
unfolding get_begin_msg
Reads-begin o lsn micros xid h k l = Reads-bind (read_int o 8) _ (Reads-int o 8 lsn h) (
    Reads-bind (read_timestamp o) _ (Reads-micros o micros k)
      (Reads-last (read_int o 4) _ (Reads-int o 4 xid l) (Reads-pure _)))

pub Reads-commit :
    (o : ByteOrder) (flags lsn transaction_lsn micros : ℤ)
    → Fits (256 ^ 1) flags
    → Fits (256 ^ 8) lsn
    → Fits (256 ^ 8) transaction_lsn
    → MicrosFit micros
    → Reads
        (get_commit_msg o)
        (put_int o 1 flags
          ++ (put_int o 8 lsn ++ (put_int o 8 transaction_lsn ++ put_int o 8 micros)))
        (record {
          flags = flags;
          lsn = lsn;
          transaction_lsn = transaction_lsn;
          timestamp = nanos micros;
        })
unfolding get_commit_msg
Reads-commit o flags lsn transaction_lsn micros h k l m =
    Reads-bind (read_int o 1) _ (Reads-int o 1 flags h) (
      Reads-bind (read_int o 8) _ (Reads-int o 8 lsn k) (
        Reads-bind (read_int o 8) _ (Reads-int o 8 transaction_lsn l)
          (Reads-last (read_timestamp o) _ (Reads-micros o micros m) (Reads-pure _))))

pub Reads-relation :
    (o : ByteOrder) (r : Relation)
    → Fits (256 ^ 4) r.id
    → IsText r.namespace
    → IsText r.name
    → Fits (256 ^ 1) r.replica
    → Short (length r.columns)
    → All ColumnFits r.columns
    → Reads
        (get_relation_msg o)
        (put_int o 4 r.id
          ++ (put_string r.namespace
              ++ (put_string r.name ++ (put_int o 1 r.replica ++ put_columns o r.columns))))
        r
unfolding get_relation_msg
Reads-relation o r h i j k l m = Reads-bind (read_int o 4) _ (Reads-int o 4 r.id h) (
    Reads-bind read_string _ (Reads-string r.namespace i) (
      Reads-bind read_string _ (Reads-string r.name j) (
        Reads-bind (read_int o 1) _ (Reads-int o 1 r.replica k)
          (Reads-last (read_columns o) _ (Reads-columns o r.columns l m) (Reads-pure r)))))

pub Reads-insert :
    (o : ByteOrder) (id : ℤ) (row : Row)
    → Fits (256 ^ 4) id
    → RowFits row
    → Reads
        (get_insert_msg o)
        (put_int o 4 id ++ ((b'N' ∷ []) ++ put_row o row))
        (record { relation_id = id; new_tuple = true; new_row = map cell_data row })
unfolding get_insert_msg
Reads-insert o id row h k = Reads-bind (read_int o 4) _ (Reads-int o 4 id h) (
    Reads-bind next_byte _ (Reads-next_byte b'N')
      (Reads-last (read_tuple_data o) _ (Reads-row o row k) (Reads-pure _)))

-- A row of less than 2^14 cells does not begin with the byte 'O'.
size_byte_miss : (n : ℕ) → n < 2 ^ 14 → (n / 256 % 256 == b'O') ≡ false
size_byte_miss n h = ground arith

Reads-miss_row :
    {B : Type 0} (f : Bool → Parse B) (row : Row) (bs : Bytes) {a : B}
    → RowFits row
    → Reads (f false) (put_row big_endian row ++ bs) a
    → Reads (char_is_exists b'O' >>= f) (put_row big_endian row ++ bs) a
unfolding put_int
Reads-miss_row f row bs h r = Reads-miss f b'O' _ (size_byte_miss (length row) h.0) r

Reads-miss_row_last :
    {B : Type 0} (f : Bool → Parse B) (row : Row) {a : B}
    → RowFits row
    → Reads (f false) (put_row big_endian row) a
    → Reads (char_is_exists b'O' >>= f) (put_row big_endian row) a
Reads-miss_row_last f row {a} h r =
    rw append-nil at (Reads-miss_row f row [] {a = a} h (rw append-nil r))

pub Reads-delete_key :
    (id : ℤ) (row : Row)
    → Fits (256 ^ 4) id
    → RowFits row
    → Reads
        (get_delete_msg big_endian)
        (put_int big_endian 4 id ++ ((b'K' ∷ []) ++ put_row big_endian row))
        (record {
          relation_id = id;
          key_tuple = true;
          old_tuple = false;
          old_row = map cell_data row;
        })
unfolding get_delete_msg
Reads-delete_key id row h k = Reads-bind (read_int big_endian 4) _ (Reads-int big_endian 4 id h) (
    Reads-bind (char_is_exists b'K') _ (Reads-hit b'K') (
      Reads-miss_row_last _ row k
        (Reads-last (read_tuple_data big_endian) _ (Reads-row big_endian row k) (Reads-pure _))))

pub Reads-delete_row :
    (id : ℤ) (row : Row)
    → Fits (256 ^ 4) id
    → RowFits row
    → Reads
        (get_delete_msg big_endian)
        (put_int big_endian 4 id ++ ((b'O' ∷ []) ++ put_row big_endian row))
        (record {
          relation_id = id;
          key_tuple = false;
          old_tuple = true;
          old_row = map cell_data row;
        })
unfolding get_delete_msg
Reads-delete_row id row h k = Reads-bind (read_int big_endian 4) _ (Reads-int big_endian 4 id h) (
    Reads-miss _ b'K' b'O' refl (
      Reads-bind (char_is_exists b'O') _ (Reads-hit b'O')
        (Reads-last (read_tuple_data big_endian) _ (Reads-row big_endian row k) (Reads-pure _))))

-- The last two steps of an update: the byte 'N' and the new row.
abbrev has_key : OldRow → Bool
has_key (key_row r) = true
has_key (full_row r) = false
has_key no_row = false

-- What `getUpdateMsg` gives: the flags of the old row are lost.
abbrev pub read_update : ℤ → OldRow → Row → Update
read_update id old row = record {
  relation_id = id;
  key_tuple = has_key old;
  old_tuple = true;
  old_row = map cell_data (old_cells old);
  new_tuple = false;
  new_row = map cell_data row;
}

Reads-new_row :
    {B : Type 0} (f : Bool → Parse B) (g : List TupleData → B) (row : Row)
    → RowFits row
    → f true ≡ (read_tuple_data big_endian >>= λ r. pure (g r))
    → Reads
        (char_is_exists b'N' >>= f)
        ((b'N' ∷ []) ++ put_row big_endian row)
        (g (map cell_data row))
Reads-new_row f g row h e =
    Reads-bind (char_is_exists b'N') f (Reads-hit b'N')
      (rw e (Reads-last (read_tuple_data big_endian) _ (Reads-row big_endian row h) (Reads-pure _)))

-- Every update message that a server can write, with a key, with a whole old row or with none, is read
-- to the end: relation, old row and new row are those that were written, `OldTuple` is true and
-- `NewTuple` false whatever the message holds.
pub Reads-update :
    (id : ℤ) (old : OldRow) (row : Row)
    → Fits (256 ^ 4) id
    → RowFits (old_cells old)
    → RowFits row
    → Reads
        (get_update_msg big_endian)
        (put_int big_endian 4 id
          ++ (put_old_row big_endian old ++ ((b'N' ∷ []) ++ put_row big_endian row)))
        (read_update id old row)
unfolding get_update_msg read_old_row
Reads-update id (key_row r) row h k l =
    Reads-bind (read_int big_endian 4) _ (Reads-int big_endian 4 id h) (
      Reads-bind (char_is_exists b'K') _ (Reads-hit b'K') (
        Reads-miss_row _ r _ k (
          Reads-bind (read_tuple_data big_endian) _ (Reads-row big_endian r k)
            (Reads-new_row _ _ row l refl))))
Reads-update id (full_row r) row h k l =
    Reads-bind (read_int big_endian 4) _ (Reads-int big_endian 4 id h) (
      Reads-miss _ b'K' b'O' refl (
        Reads-bind (char_is_exists b'O') _ (Reads-hit b'O') (
          Reads-bind (read_tuple_data big_endian) _ (Reads-row big_endian r k)
            (Reads-new_row _ _ row l refl))))
Reads-update id no_row row h k l =
    Reads-bind (read_int big_endian 4) _ (Reads-int big_endian 4 id h) (
      Reads-miss _ b'K' b'N' refl (
        Reads-miss _ b'O' b'N' refl
          (Reads-bind (pure []) _ (Reads-pure []) (Reads-new_row _ _ row l refl))))
