-- ===== src/Wal/Fixtures.antt =====
-- Data for the tests of the listener's model.
use godev.Wal.Event.{Event}
use godev.Wal.Listener.{WalMessage}
use godev.Prelude.{true, false, [], ◌∷◌, ◌++◌, none, some, Bytes, codes, pos}
use godev.Wal.Word.{big_endian}
use godev.Wal.Transaction.{
  nil, int_value, Decoders, Column, RelationData, ActionData, WalTransaction, insert_kind,
}
use godev.Wal.Listener.{Setup, State}
use godev.Wal.Encode.{Message, inserts, text_cell}

abbrev pub decoders : Decoders Bytes
decoders = record {
  time_parse = λ s. pos 0;
  time_parse_in_utc = λ s. pos 0;
  uuid_parse = λ s. s;
  json_unmarshal = λ is_array s. s;
}

-- A publisher that takes every event, and one that refuses all.
abbrev pub setup : Setup Bytes
setup = record {
  order = big_endian;
  topic = codes "t";
  tables = [];
  decoders = decoders;
  lower_format = λ v. codes "u1";
  new_uuid = λ n. n ∷ [];
  publish_ok = λ trace subject x. true;
  status_built = λ trace lsn. true;
  status_ok = λ trace lsn. true;
}

abbrev pub refusing : Setup Bytes
refusing = record setup { publish_ok = λ trace subject x. false }

abbrev pub uid_column : Column Bytes
uid_column = record { name = codes "uid"; value = nil; value_type = pos 23; is_key = true }

abbrev pub users : RelationData Bytes
users = record { schema = codes "public"; table = codes "users"; columns = uid_column ∷ [] }

abbrev pub opened : WalTransaction Bytes
opened = record {
  lsn = pos 7;
  begin_time = some (pos 1);
  commit_time = none;
  relation_store = (pos 5, users) ∷ [];
  actions = [];
}

abbrev pub added : ActionData Bytes
added = record {
  schema = codes "public";
  table = codes "users";
  kind = insert_kind;
  old_columns = [];
  new_columns = record uid_column { value = int_value (pos 42) } ∷ [];
}

abbrev pub insert_42 : Message
insert_42 = inserts (pos 5) (text_cell (codes "42") ∷ [])

abbrev pub start : State Bytes
start = record { lsn = 0; tx = opened; uuids = 0; trace = [] }

-- The bytes of a relation, an insert and a commit as they come over the wire.
abbrev pub relation_bytes : Bytes
relation_bytes =
    b'R'
    ∷ 0
    ∷ 0
    ∷ 0
    ∷ 5
    ∷ (codes "public"
        ++ 0 ∷ codes "users"
        ++ 0 ∷ b'd' ∷ 0 ∷ 1 ∷ 1 ∷ (codes "uid" ++ 0 ∷ 0 ∷ 0 ∷ 0 ∷ 23 ∷ 0 ∷ 0 ∷ 0 ∷ 0 ∷ []))

abbrev pub insert_bytes : Bytes
insert_bytes = b'I' ∷ 0 ∷ 0 ∷ 0 ∷ 5 ∷ b'N' ∷ 0 ∷ 1 ∷ b't' ∷ 0 ∷ 0 ∷ 0 ∷ 2 ∷ codes "42"

-- A commit at position 7 and its bytes: no flags, the two positions, one microsecond.
abbrev pub commit_bytes : Bytes
commit_bytes =
    b'C' ∷ 0 ∷ 0 ∷ 0 ∷ 0 ∷ 0 ∷ 0 ∷ 0 ∷ 0 ∷ 7 ∷ 0 ∷ 0 ∷ 0 ∷ 0 ∷ 0 ∷ 0 ∷ 0 ∷ 8 ∷ 0 ∷ 0 ∷ 0 ∷ 0 ∷ 0 ∷ 0
    ∷ 0 ∷ 1 ∷ []

abbrev pub filled : State Bytes
filled = record start { tx = record opened { actions = added ∷ [] } }

abbrev pub commit_message : WalMessage
commit_message = record { wal_start = 9; wal_data = commit_bytes }

-- The state that a refused commit leaves behind.
abbrev pub refused : State Bytes
refused = record start {
  tx = record opened { commit_time = some (pos 1000); actions = added ∷ [] };
}

abbrev pub insert_message : WalMessage
insert_message = record { wal_start = 12; wal_data = insert_bytes }

abbrev pub plain_event : Event Bytes
plain_event = record {
  id = 1 ∷ [];
  schema = codes "public";
  table = codes "users";
  action = codes "INSERT";
  event_data = [];
  data_old = [];
  event_time = pos 1000;
}
