-- ===== src/Wal/Reader.antt =====
-- The reading methods of `BinaryParser` in wal-listener/listener/parser.go. The parser's buffer is
-- passed on by `Parse`; its byte order is the first argument.
use godev.Prelude.{
  ℕ, zero, suc, ◌^◌, Bool, true, false, not, List, [], ◌∷◌, reverse, none, some, Bytes, ℤ, pos,
  negsuc, ◌==◌, if◌then◌else◌, length,
}
use godev.Wal.Outcome.{ok, panic, make_len}
use godev.Wal.Buffer.{Parse, pure, ◌>>=◌, next, next_byte, unread_byte, read_bytes}
use godev.Wal.Word.{ByteOrder, word_of, signed, mul64}
use godev.Wal.Protocol.{
  Time, RelationColumn, TupleData, null_data_type, toast_data_type, text_data_type,
}

-- `binary.Read` of `k` bytes leaves the value 0 when the buffer holds fewer.
unfoldable pub read_int : ByteOrder → ℕ → Parse ℤ
read_int o k = do
  bs ← next (pos k)
  pure (if length bs == k then signed (256 ^ k) (word_of o bs) else pos 0)

abbrev pub read_int8 : ByteOrder → Parse ℤ
read_int8 o = read_int o 1

abbrev pub read_int16 : ByteOrder → Parse ℤ
read_int16 o = read_int o 2

abbrev pub read_int32 : ByteOrder → Parse ℤ
read_int32 o = read_int o 4

abbrev pub read_int64 : ByteOrder → Parse ℤ
read_int64 o = read_int o 8

-- `postgresEpoch.Add(time.Duration(ns) * time.Microsecond)`
unfoldable pub read_timestamp : ByteOrder → Parse Time
read_timestamp o = do ns ← read_int64 o; pure (mul64 ns (pos 1000))

abbrev pub trim_left : Bytes → Bytes
trim_left [] = []
trim_left (x ∷ xs) = if x == 0 then trim_left xs else x ∷ xs

-- `bytes.Trim(bs, "\x00")`
unfoldable pub trim : Bytes → Bytes
trim bs = trim_left (reverse (trim_left (reverse bs)))

unfoldable pub read_string : Parse Bytes
read_string = do bs ← read_bytes 0; pure (trim bs)

unfoldable pub read_bool : Parse Bool
read_bool = do x ← next_byte; pure (not (x == 0))

abbrev hit_or_unread : Bool → Parse Bool
hit_or_unread true b = ok (true, b)
hit_or_unread false b = ok (false, unread_byte b)

unfoldable pub char_is_exists : ℕ → Parse Bool
char_is_exists char = do x ← next_byte; hit_or_unread (x == char)

-- `make([]T, size)` panics on a negative size.
abbrev pub make_size : ℤ → Parse ℕ
make_size (pos n) b = ok (n, b)
make_size (negsuc n) b = panic make_len

unfoldable pub read_column : ByteOrder → Parse RelationColumn
read_column o = do
  key ← read_bool
  name ← read_string
  type_id ← read_int32 o
  modifier_type ← read_int32 o
  pure (record { key = key; name = name; type_id = type_id; modifier_type = modifier_type })

-- `n` rounds of a loop that fills a slice.
unfoldable pub repeat : {A : Type 0} → Parse A → ℕ → Parse (List A)
repeat m zero = pure []
repeat m (suc n) = do x ← m; xs ← repeat m n; pure (x ∷ xs)

unfoldable pub read_columns : ByteOrder → Parse (List RelationColumn)
read_columns o = do size ← read_int16 o; n ← make_size size; repeat (read_column o) n

-- The `switch` on the tag; a tag of another kind leaves the zero value too.
unfoldable pub read_cell : ByteOrder → ℕ → Parse TupleData
read_cell o tag =
    if tag == null_data_type
    then pure (record { value = none })
    else if tag == toast_data_type
    then pure (record { value = none })
    else if tag == text_data_type
    then (do size ← read_int32 o; bs ← next size; pure (record { value = some bs }))
    else pure (record { value = none })

unfoldable pub read_tuple_item : ByteOrder → Parse TupleData
read_tuple_item o = do tag ← next_byte; read_cell o tag

unfoldable pub read_tuple_data : ByteOrder → Parse (List TupleData)
read_tuple_data o = do size ← read_int16 o; n ← make_size size; repeat (read_tuple_item o) n
