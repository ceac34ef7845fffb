-- ===== src/Wal/Encode.antt =====
-- The messages of PostgreSQL's logical replication protocol as a server writes them: an independent
-- description of what wal-listener/listener/parser.go reads. A server's timestamp is in microseconds.
use godev.Prelude.{
  ℕ, ◌*◌, ◌^◌, ◌<◌, ◌≤◌, Bool, true, false, List, [], ◌∷◌, ◌++◌, none, some, Bytes, ℤ, pos, negsuc,
  ◌+◌, pos_part, neg_part, length, All, if◌then◌else◌,
}
use godev.Wal.Word.{ByteOrder, put_int, Fits, u64_mod}
use godev.Wal.Protocol.{RelationColumn, Relation, TupleData}

-- A value of a row: NULL, an unchanged TOAST value, or a text.
pub data Cell : Type 0 where
  null_cell toast_cell : Cell
  text_cell : Bytes → Cell

abbrev pub Row : Type 0
Row = List Cell

abbrev pub cell_data : Cell → TupleData
cell_data null_cell = record { value = none }
cell_data toast_cell = record { value = none }
cell_data (text_cell v) = record { value = some v }

abbrev pub put_cell : ByteOrder → Cell → Bytes
put_cell o null_cell = b'n' ∷ []
put_cell o toast_cell = b'u' ∷ []
put_cell o (text_cell v) = (b't' ∷ []) ++ (put_int o 4 (pos (length v)) ++ v)

abbrev pub put_all : {A : Type 0} → (A → Bytes) → List A → Bytes
put_all put [] = []
put_all put (x ∷ xs) = put x ++ put_all put xs

abbrev pub put_row : ByteOrder → Row → Bytes
put_row o r = put_int o 2 (pos (length r)) ++ put_all (put_cell o) r

abbrev pub put_string : Bytes → Bytes
put_string s = s ++ 0 ∷ []

abbrev pub put_column : ByteOrder → RelationColumn → Bytes
put_column o c =
    ((if c.key then 1 else 0) ∷ [])
    ++ (put_string c.name ++ (put_int o 4 c.type_id ++ put_int o 4 c.modifier_type))

abbrev pub put_columns : ByteOrder → List RelationColumn → Bytes
put_columns o cs = put_int o 2 (pos (length cs)) ++ put_all (put_column o) cs

-- The old row of an update or a delete: a key, a whole row, or (of an update) none.
pub data OldRow : Type 0 where
  key_row full_row : Row → OldRow
  no_row : OldRow

abbrev pub put_old_row : ByteOrder → OldRow → Bytes
put_old_row o (key_row r) = (b'K' ∷ []) ++ put_row o r
put_old_row o (full_row r) = (b'O' ∷ []) ++ put_row o r
put_old_row o no_row = []

abbrev pub old_cells : OldRow → Row
old_cells (key_row r) = r
old_cells (full_row r) = r
old_cells no_row = []

pub data Message : Type 0 where
  begins : (lsn micros xid : ℤ) → Message
  commits : (flags lsn transaction_lsn micros : ℤ) → Message
  relates : Relation → Message
  inserts : ℤ → Row → Message
  updates : ℤ → OldRow → Row → Message
  deletes : ℤ → Bool → Row → Message
  origins : (lsn : ℤ) → (name : Bytes) → Message
  types : (id : ℤ) → (namespace name : Bytes) → Message
  truncates : (options : ℤ) → (ids : List ℤ) → Message

abbrev pub put_message : ByteOrder → Message → Bytes
put_message o (begins lsn micros xid) =
    b'B' ∷ (put_int o 8 lsn ++ (put_int o 8 micros ++ put_int o 4 xid))
put_message o (commits flags lsn transaction_lsn micros) =
    b'C'
    ∷ (put_int o 1 flags
        ++ (put_int o 8 lsn ++ (put_int o 8 transaction_lsn ++ put_int o 8 micros)))
put_message o (relates r) =
    b'R'
    ∷ (put_int o 4 r.id
        ++ (put_string r.namespace
            ++ (put_string r.name ++ (put_int o 1 r.replica ++ put_columns o r.columns))))
put_message o (inserts id row) = b'I' ∷ (put_int o 4 id ++ ((b'N' ∷ []) ++ put_row o row))
put_message o (updates id old row) =
    b'U' ∷ (put_int o 4 id ++ (put_old_row o old ++ ((b'N' ∷ []) ++ put_row o row)))
put_message o (deletes id true row) = b'D' ∷ (put_int o 4 id ++ ((b'K' ∷ []) ++ put_row o row))
put_message o (deletes id false row) = b'D' ∷ (put_int o 4 id ++ ((b'O' ∷ []) ++ put_row o row))
put_message o (origins lsn name) = b'O' ∷ (put_int o 8 lsn ++ put_string name)
put_message o (types id namespace name) =
    b'Y' ∷ (put_int o 4 id ++ (put_string namespace ++ put_string name))
put_message o (truncates options ids) =
    b'T' ∷ (put_int o 4 (pos (length ids)) ++ (put_int o 1 options ++ put_all (put_int o 4) ids))

-- The ranges of the protocol's fields; no name holds a zero byte.
abbrev pub Short : ℕ → Type 0
Short n = n < 2 ^ 14

abbrev pub CellFits : Cell → Type 0
CellFits null_cell = Unit
CellFits toast_cell = Unit
CellFits (text_cell v) = length v < 2 ^ 31

abbrev pub RowFits : Row → Type 0
RowFits r = Short (length r) × All CellFits r

abbrev pub IsText : Bytes → Type 0
IsText s = All (λ c. 0 < c) s

abbrev pub ColumnFits : RelationColumn → Type 0
ColumnFits c = IsText c.name × Fits (256 ^ 4) c.type_id × Fits (256 ^ 4) c.modifier_type

abbrev pub MicrosFit : ℤ → Type 0
MicrosFit m = (2 * (pos_part m * 1000) < u64_mod) × (2 * (neg_part m * 1000) ≤ u64_mod)

-- A server's microseconds in nanoseconds.
abbrev pub nanos : ℤ → ℤ
nanos (pos n) = pos (n * 1000)
nanos (negsuc n) = negsuc (n * 1000 + 999)

abbrev pub MessageFits : Message → Type 0
MessageFits (begins lsn micros xid) = Fits (256 ^ 8) lsn × MicrosFit micros × Fits (256 ^ 4) xid
MessageFits (commits flags lsn transaction_lsn micros) =
    Fits (256 ^ 1) flags × Fits (256 ^ 8) lsn × Fits (256 ^ 8) transaction_lsn × MicrosFit micros
MessageFits (relates r) =
    Fits (256 ^ 4) r.id
    × IsText r.namespace
    × IsText r.name
    × Fits (256 ^ 1) r.replica
    × Short (length r.columns)
    × All ColumnFits r.columns
MessageFits (inserts id row) = Fits (256 ^ 4) id × RowFits row
MessageFits (updates id old row) = Fits (256 ^ 4) id × RowFits (old_cells old) × RowFits row
MessageFits (deletes id is_key row) = Fits (256 ^ 4) id × RowFits row
MessageFits (origins lsn name) = Fits (256 ^ 8) lsn × IsText name
MessageFits (types id namespace name) = Fits (256 ^ 4) id × IsText namespace × IsText name
MessageFits (truncates options ids) = Fits (256 ^ 1) options × All (Fits (256 ^ 4)) ids
