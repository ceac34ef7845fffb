-- ===== src/Wal/Protocol.antt =====
-- wal-listener/listener/protocol.go: the message types of PostgreSQL's logical replication protocol.
-- A time is the number of nanoseconds since `postgresEpoch`.
use godev.Prelude.{ℕ, Bool, List, Option, Bytes, ℤ}

abbrev pub commit_msg_type : ℕ
commit_msg_type = b'C'

abbrev pub begin_msg_type : ℕ
begin_msg_type = b'B'

abbrev pub origin_msg_type : ℕ
origin_msg_type = b'O'

abbrev pub relation_msg_type : ℕ
relation_msg_type = b'R'

abbrev pub type_msg_type : ℕ
type_msg_type = b'Y'

abbrev pub insert_msg_type : ℕ
insert_msg_type = b'I'

abbrev pub update_msg_type : ℕ
update_msg_type = b'U'

abbrev pub delete_msg_type : ℕ
delete_msg_type = b'D'

abbrev pub truncate_msg_type : ℕ
truncate_msg_type = b'T'

abbrev pub new_tuple_data_type : ℕ
new_tuple_data_type = b'N'

abbrev pub text_data_type : ℕ
text_data_type = b't'

abbrev pub null_data_type : ℕ
null_data_type = b'n'

abbrev pub toast_data_type : ℕ
toast_data_type = b'u'

abbrev pub Time : Type 0
Time = ℤ

pub record Begin : Type 0 where
  pub lsn : ℤ
  pub timestamp : Time
  pub xid : ℤ

pub record Commit : Type 0 where
  pub flags : ℤ
  pub lsn : ℤ
  pub transaction_lsn : ℤ
  pub timestamp : Time

pub record RelationColumn : Type 0 where
  pub key : Bool
  pub name : Bytes
  pub type_id : ℤ
  pub modifier_type : ℤ

pub record Relation : Type 0 where
  pub id : ℤ
  pub namespace : Bytes
  pub name : Bytes
  pub replica : ℤ
  pub columns : List RelationColumn

-- `value` is `none` for a nil slice.
pub record TupleData : Type 0 where
  pub value : Option Bytes

pub record Insert : Type 0 where
  pub relation_id : ℤ
  pub new_tuple : Bool
  pub new_row : List TupleData

pub record Update : Type 0 where
  pub relation_id : ℤ
  pub key_tuple : Bool
  pub old_tuple : Bool
  pub old_row : List TupleData
  pub new_tuple : Bool
  pub new_row : List TupleData

pub record Delete : Type 0 where
  pub relation_id : ℤ
  pub key_tuple : Bool
  pub old_tuple : Bool
  pub old_row : List TupleData
