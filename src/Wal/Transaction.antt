-- ===== src/Wal/Transaction.antt =====
-- wal-listener/listener/wal_transaction.go: the transaction that messages build up, its actions and
-- the events made of them. Strings are bytes; logging is left out.
use godev.Prelude.{
  ℕ, suc, Bool, ◌||◌, List, [], ◌∷◌, Option, none, some, Bytes, ℤ, pos, codes, int_eq, get_elem?,
  ◌==◌, if◌then◌else◌,
}
use godev.Wal.Outcome.{Outcome, ok, err, panic, bind, index_out_of_range, relation_not_found}
use godev.Wal.Protocol.{Time, TupleData}
use godev.Wal.Strconv.{parse_bool, parse_int64, atoi}

pub data ActionKind : Type 0 where
  insert_kind update_kind delete_kind : ActionKind

-- The text of a kind, `ActionKind.string`.
abbrev pub kind_string : ActionKind → Bytes
kind_string insert_kind = codes "INSERT"
kind_string update_kind = codes "UPDATE"
kind_string delete_kind = codes "DELETE"

-- The dynamic value of an `any`. A UUID is its 16 bytes; `J` holds what JSON decodes to.
pub data Value (J : Type 0) : Type 0 where
  nil : Value J
  bool_value : Bool → Value J
  int_value : ℤ → Value J
  int64_value : ℤ → Value J
  string_value : Bytes → Value J
  time_value : Time → Value J
  uuid_value : Bytes → Value J
  json_value : J → Value J

-- Conversions of other packages (time, github.com/google/uuid, github.com/goccy/go-json). Each gives
-- the value that the package returns next to its error, since `AssertValue` keeps it either way.
-- `json_unmarshal` is told whether the target holds an empty array or an empty object.
pub record Decoders (J : Type 0) : Type 0 where
  pub time_parse : Bytes → Time
  pub time_parse_in_utc : Bytes → Time
  pub uuid_parse : Bytes → Bytes
  pub json_unmarshal : Bool → Bytes → J

-- `value` is what `AssertValue` has set, and `nil` before.
pub record Column (J : Type 0) : Type 0 where
  pub name : Bytes
  pub value : Value J
  pub value_type : ℤ
  pub is_key : Bool

pub record RelationData (J : Type 0) : Type 0 where
  pub schema : Bytes
  pub table : Bytes
  pub columns : List (Column J)

pub record ActionData (J : Type 0) : Type 0 where
  pub schema : Bytes
  pub table : Bytes
  pub kind : ActionKind
  pub old_columns : List (Column J)
  pub new_columns : List (Column J)

-- `relation_store` is a map: its first entry for a key counts.
pub record WalTransaction (J : Type 0) : Type 0 where
  pub lsn : ℤ
  pub begin_time : Option Time
  pub commit_time : Option Time
  pub relation_store : List (ℤ × RelationData J)
  pub actions : List (ActionData J)

abbrev pub new_wal_transaction : {J : Type 0} → WalTransaction J
new_wal_transaction = record {
  lsn = pos 0;
  begin_time = none;
  commit_time = none;
  relation_store = [];
  actions = [];
}

-- wal-listener/listener/pg_type.go
abbrev pub int2_oid : ℤ
int2_oid = pos 21

abbrev pub int4_oid : ℤ
int4_oid = pos 23

abbrev pub int8_oid : ℤ
int8_oid = pos 20

abbrev pub text_oid : ℤ
text_oid = pos 25

abbrev pub varchar_oid : ℤ
varchar_oid = pos 1043

abbrev pub timestamp_oid : ℤ
timestamp_oid = pos 1114

abbrev pub timestamptz_oid : ℤ
timestamptz_oid = pos 1184

abbrev pub date_oid : ℤ
date_oid = pos 1082

abbrev pub time_oid : ℤ
time_oid = pos 1083

abbrev pub jsonb_oid : ℤ
jsonb_oid = pos 3802

abbrev pub uuid_oid : ℤ
uuid_oid = pos 2950

abbrev pub bool_oid : ℤ
bool_oid = pos 16

module _ {J : Type 0} (d : Decoders J) where
  -- The case `JSONBOID`, which reads `src[0]`.
  unfoldable pub jsonb_value : Bytes → Outcome (Value J)
  jsonb_value [] = panic index_out_of_range
  jsonb_value (c ∷ cs) = ok (json_value (d.json_unmarshal (c == b'[') (c ∷ cs)))

  -- The `switch` over the type of the column.
  unfoldable pub typed_value : ℤ → Bytes → Outcome (Value J)
  unfolding jsonb_value
  typed_value t src =
      if int_eq t bool_oid
      then ok (bool_value (parse_bool src))
      else if int_eq t int2_oid || int_eq t int4_oid
      then ok (int_value (atoi src))
      else if int_eq t int8_oid
      then ok (int64_value (parse_int64 src))
      else if int_eq t text_oid || int_eq t varchar_oid
      then ok (string_value src)
      else if int_eq t timestamp_oid
      then ok (time_value (d.time_parse src))
      else if int_eq t timestamptz_oid
      then ok (time_value (d.time_parse_in_utc src))
      else if int_eq t date_oid || int_eq t time_oid
      then ok (string_value src)
      else if int_eq t uuid_oid
      then ok (uuid_value (d.uuid_parse src))
      else if int_eq t jsonb_oid
      then jsonb_value src
      else ok (string_value src)

  -- `AssertValue`, with `none` for a nil slice.
  unfoldable pub assert_value : Column J → Option Bytes → Outcome (Column J)
  assert_value c none = ok (record c { value = nil })
  assert_value c (some src) = bind (typed_value c.value_type src) (λ v. ok (record c { value = v }))

  abbrev pub column_at : Option (Column J) → Outcome (Column J)
  column_at none = panic index_out_of_range
  column_at (some c) = ok (record c { value = nil })

  -- The loops of `CreateActionData`: row `num` takes its name, type and key flag from
  -- `rel.Columns[num]`.
  unfoldable pub row_columns : List (Column J) → ℕ → List TupleData → Outcome (List (Column J))
  row_columns columns num [] = ok []
  row_columns columns num (row ∷ rows) = bind (column_at (get_elem? columns num)) λ column.
      bind (assert_value column row.value)
        λ c. bind (row_columns columns (suc num) rows) λ cs. ok (c ∷ cs)

-- `w.RelationStore[id]`
unfoldable pub find_relation :
    {J : Type 0} → ℤ → List (ℤ × RelationData J) → Option (RelationData J)
find_relation id [] = none
find_relation id ((k, r) ∷ store) = if int_eq k id then some r else find_relation id store

-- `w.RelationStore[id] = r`
unfoldable pub store_relation :
    {J : Type 0} → ℤ → RelationData J → List (ℤ × RelationData J) → List (ℤ × RelationData J)
store_relation id r [] = (id, r) ∷ []
store_relation id r ((k, s) ∷ store) =
    if int_eq k id then (id, r) ∷ store else (k, s) ∷ store_relation id r store

abbrev action_for :
    {J : Type 0}
    → Decoders J
    → List TupleData
    → List TupleData
    → ActionKind
    → Option (RelationData J)
    → Outcome (ActionData J)
action_for d old_rows new_rows kind none = err relation_not_found
action_for d old_rows new_rows kind (some rel) = bind (row_columns d rel.columns 0 old_rows) λ old.
    bind (row_columns d rel.columns 0 new_rows) λ new. ok (record {
      schema = rel.schema;
      table = rel.table;
      kind = kind;
      old_columns = old;
      new_columns = new;
    })

unfoldable pub create_action_data :
    {J : Type 0}
    → Decoders J
    → WalTransaction J
    → ℤ
    → List TupleData
    → List TupleData
    → ActionKind
    → Outcome (ActionData J)
create_action_data d w relation_id old_rows new_rows kind =
    action_for d old_rows new_rows kind (find_relation relation_id w.relation_store)

-- `Clear` keeps the LSN and the relations.
unfoldable pub clear : {J : Type 0} → WalTransaction J → WalTransaction J
clear w = record w { commit_time = none; begin_time = none; actions = [] }
